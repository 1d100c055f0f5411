-- ===== src/Checker/Analyze.antt =====
-- `analyze`, the rounds of the queue, and the verdict of `generate_report`.
use binary_kernel_code_mappi.Prelude.{
  ℕ, zero, suc, ◌++◌, [], ◌∷◌, none, some, Text, contains, if◌then◌else◌, Result, ok, err,
}
use binary_kernel_code_mappi.Checker.State.{
  State, Engine, initial_state, record_missing_dep, record_unanalyzable, resolve_symbol_owner,
}
use binary_kernel_code_mappi.Checker.Insns.{type_error, CheckError}
use binary_kernel_code_mappi.Checker.Scan.{scan_function}
use binary_kernel_code_mappi.Checker.{is_reserved, ElfObj, get_symbol}
use binary_kernel_code_mappi.Checker.Loading.{load_function}

-- The section of the symbol is read first, which raises at a reserved index.
unfoldable pub analyze_function : Engine → Text → ElfObj → State → Result CheckError State
unfolding load_function scan_function
analyze_function e func_name owner_elf s = elim (get_symbol owner_elf func_name) [
  | none ↦ ok (record_missing_dep func_name s)
  | some sym ↦
      if is_reserved sym.st_shndx
      then err type_error
      else elim (load_function e func_name owner_elf sym) [
        | err reason ↦ ok (record_unanalyzable owner_elf func_name reason s)
        | ok f ↦ scan_function e f s
      ]
]

-- One round, for the name at the front of the queue.
unfoldable pub analyze_name : Engine → Text → State → Result CheckError State
unfolding analyze_function
analyze_name e func_name s =
    if contains s.visited func_name
    then ok s
    else (let seen = record s { visited = func_name ∷ s.visited } in
        elim (resolve_symbol_owner e func_name) [
          | none ↦ ok (record_missing_dep func_name seen)
          | some owner ↦ analyze_function e func_name owner (record seen {
            analysis_trace = seen.analysis_trace ++ (owner.file.name, func_name) ∷ [];
          })
        ])

-- The rounds run on fuel.
pub data AnalysisError : Type 0 where
  raised : CheckError → AnalysisError
  out_of_fuel : AnalysisError

-- `while self.queue: func_name = self.queue.pop(0)`
unfoldable pub analyze_queue : Engine → ℕ → State → Result AnalysisError State
unfolding analyze_name
analyze_queue e zero s = elim s.queue [ [] ↦ ok s | func_name ∷ queue ↦ err out_of_fuel ]
analyze_queue e (suc fuel) s = elim s.queue [
  | [] ↦ ok s
  | func_name ∷ queue ↦ elim (analyze_name e func_name (record s { queue = queue })) [
    | err x ↦ err (raised x)
    | ok t ↦ analyze_queue e fuel t
  ]
]

unfoldable pub analyze : Engine → ℕ → Text → Result AnalysisError State
unfolding analyze_queue initial_state
analyze e fuel target_func = analyze_queue e fuel (initial_state target_func)

-- The exit code of the report.
unfoldable pub exit_code : State → ℕ
exit_code s = elim s.hard_fails [
  | fail ∷ fails ↦ 1
  | [] ↦ elim s.missing_deps [
    | dep ∷ deps ↦ 2
    | [] ↦ elim s.unanalyzable_funcs [ entry ∷ entries ↦ 2 | [] ↦ 0 ]
  ]
]
