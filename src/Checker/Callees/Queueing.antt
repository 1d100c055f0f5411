-- ===== src/Checker/Callees/Queueing.antt =====
-- The analysis of a function queues what its code leads to, and nothing else.
use binary_kernel_code_mappi.Prelude.{
  ℕ, suc, refl, not, List, [], ◌∷◌, Option, none, some, Text, text_eq, if◌then◌else◌, Result, ok,
  err,
}
use binary_kernel_code_mappi.Prelude.Int.{ℤ}
use binary_kernel_code_mappi.Checker.{
  is_reserved, ElfSymbol, Relocation, ElfObj, get_symbol, named_only, resolve_func_by_offset, Insn,
}
use binary_kernel_code_mappi.Checker.State
use binary_kernel_code_mappi.Checker.State.{
  Location, TargetDesc, Reason, State, Engine, target_function_missing, queue_func,
  record_unanalyzable, record_static_ref, record_missing_dep, add_got, add_instrumentation,
  add_shim_hit, resolve_symbol_owner, is_instrumentation_symbol,
}
use binary_kernel_code_mappi.Checker.Explain.{Function, find_relocation_for_instruction}
use binary_kernel_code_mappi.Checker.Insns.{
  type_error, is_privileged, is_branch, is_blind, direct_target,
}
use binary_kernel_code_mappi.Checker.Scan.{
  add_branch, scan_reloc, scan_plain, scan_insn, scan_from, scan_function, fail_privileged,
}
use binary_kernel_code_mappi.Checker.Loading.{load_function}
use binary_kernel_code_mappi.Checker.Analyze.{analyze_function}
use binary_kernel_code_mappi.Checker.Growth.{
  Effect-same, Effect, Gives, Effect-nil, Effect-queue_func, Effect-record_unanalyzable,
  Effect-add_hard_fail, Effect-record_missing_dep, Gives-ok, Gives-if, Gives-guard, Effect-if,
  Gives-append,
}
use binary_kernel_code_mappi.Checker.Callees.{
  other_name, direct_callees, plain_callees, insn_callees, callees_from, loaded_callees,
  symbol_callees,
}
use binary_kernel_code_mappi.Checker.Callees.Relocations.{scan_reloc-Gives}

module _ (e : Engine) (f : Function) where
  other_name-Effect :
      (o : Option Text) (s : State)
      → Effect (other_name e f o) s (elim o [
        | none ↦ s
        | some resolved_func ↦
            if text_eq resolved_func f.func_name then s else queue_func resolved_func s
      ])
  other_name-Effect none s = Effect-nil s
  other_name-Effect (some name) s =
      Effect-if (text_eq name f.func_name) (Effect-nil s) (Effect-queue_func name s)

  scan_plain-Effect :
      (k : ℕ) (instr : Insn) (s : State)
      → Effect (plain_callees e f instr) s (scan_plain e f k instr s)
  unfolding scan_plain add_branch add_got
  scan_plain-Effect k instr s = Effect-if (not (is_branch instr.id)) (Effect-nil s) (
      Effect-if (is_blind instr.operands) (Effect-same refl refl refl refl refl)
        (go (direct_target instr.operands)))
    where
      go :
          (o : Option ℤ)
          → Effect (direct_callees e f o) s (elim o [
            | none ↦ s
            | some target_addr ↦
                elim (named_only (resolve_func_by_offset f.owner_elf f.sec_idx target_addr)) [
                  | none ↦ s
                  | some resolved_func ↦
                      if text_eq resolved_func f.func_name then s else queue_func resolved_func s
                ]
          ])
      go none = Effect-nil s
      go (some target) =
          other_name-Effect (named_only (resolve_func_by_offset f.owner_elf f.sec_idx target)) s

  pub scan_insn-Gives :
      (k : ℕ) (instr : Insn) (s : State)
      → Gives
          (insn_callees e f (find_relocation_for_instruction f.relocs instr) instr)
          s
          (scan_insn e f k instr s)
  unfolding scan_insn
  scan_insn-Gives k instr s = go (find_relocation_for_instruction f.relocs instr)
    where
      go :
          (o : Option Relocation)
          → Gives (insn_callees e f o instr) s (elim o [
            | some r ↦ scan_reloc e f k instr r s
            | none ↦ ok (scan_plain e f k instr s)
          ])
      go none = Gives-ok _ s _ (scan_plain-Effect k instr s)
      go (some r) = scan_reloc-Gives e f k instr r s

  pub scan_from-Gives :
      (k : ℕ) (instrs : List Insn) (s : State)
      → Gives (callees_from e f instrs) s (scan_from e f k instrs s)
  unfolding scan_from callees_from fail_privileged
  scan_from-Gives k [] s = Gives-ok [] s s (Effect-nil s)
  scan_from-Gives k (instr ∷ instrs) s =
      Gives-if (is_privileged e.capstone instr) (Gives-ok [] s _ (Effect-add_hard_fail _ s)) (
        Gives-append _ _ s (scan_insn e f k instr s) (λ t. scan_from e f (suc k) instrs t)
          (scan_insn-Gives k instr s) (λ t. scan_from-Gives (suc k) instrs t))

  scan_function-Gives :
      (s : State) → Gives (callees_from e f f.instructions) s (scan_function e f s)
  unfolding scan_function callees_from
  scan_function-Gives s = go f.instructions
    where
      go :
          (instrs : List Insn)
          → Gives (callees_from e f instrs) s (elim instrs [
            | [] ↦ ok (record_unanalyzable f.owner_elf f.func_name State.empty_disassembly s)
            | instr ∷ rest ↦ scan_from e f 0 (instr ∷ rest) s
          ])
      go [] = Gives-ok _ s _ (Effect-record_unanalyzable f.owner_elf f.func_name _ s)
      go (instr ∷ rest) = scan_from-Gives 0 (instr ∷ rest) s

-- What the analysis of one function queues.
pub analyze_function-Gives :
    (e : Engine) (name : Text) (owner : ElfObj) (s : State)
    → Gives
        (symbol_callees e name owner (get_symbol owner name))
        s
        (analyze_function e name owner s)
unfolding analyze_function
analyze_function-Gives e name owner s = with_symbol (get_symbol owner name)
  where
    with_function :
        (r : Result Reason Function)
        → Gives (loaded_callees e r) s (elim r [
          | err reason ↦ ok (record_unanalyzable owner name reason s)
          | ok f ↦ scan_function e f s
        ])
    with_function (err reason) = Gives-ok _ s _ (Effect-record_unanalyzable owner name reason s)
    with_function (ok f) = scan_function-Gives e f s

    with_symbol :
        (o : Option ElfSymbol)
        → Gives (symbol_callees e name owner o) s (elim o [
          | none ↦ ok (record_missing_dep name s)
          | some sym ↦
              if is_reserved sym.st_shndx
              then err type_error
              else elim (load_function e name owner sym) [
                | err reason ↦ ok (record_unanalyzable owner name reason s)
                | ok f ↦ scan_function e f s
              ]
        ])
    with_symbol none = Gives-ok _ s _ (Effect-record_missing_dep name s)
    with_symbol (some sym) =
        Gives-guard (is_reserved sym.st_shndx) type_error
          (with_function (load_function e name owner sym))
