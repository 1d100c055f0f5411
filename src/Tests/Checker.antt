-- ===== src/Tests/Checker.antt =====
-- The analysis of a file with two functions, of which `a` calls `b`.
use mathlib.Core.Path.{subst, sym}
use binary_kernel_code_mappi.Prelude.{
  ℕ, zero, suc, ◌≤◌, ◌≡◌, ◌↔◌, ◌⊎◌, ◌==◌, refl, inl, inr, false, List, [], ◌∷◌, none, some, Text,
  codes, length, get_elem?, In, contains, text_eq, lookup, insert, starts_with, if◌then◌else◌, ok,
  err, arith,
}
use binary_kernel_code_mappi.Prelude.Int.{pos}
use binary_kernel_code_mappi.Checker.{
  is_reserved, shn_section, stt_func, ElfSymbol, ElfSection, ElfFile, ElfObj, elf_obj, imm,
  ins_call, ins_other, Insn, Capstone, get_symbol, reloc_at, get_relocations, is_exec, is_func,
}
use binary_kernel_code_mappi.Checker.State.{
  State, Engine, reuse_engine, resolve_symbol_owner, is_instrumentation_symbol, queue_func,
}
use binary_kernel_code_mappi.Checker.Explain.{
  find_relocation_for_instruction, is_absolute, is_pc_rel, target_name_of,
}
use binary_kernel_code_mappi.Checker.Insns.{is_privileged, is_branch}
use binary_kernel_code_mappi.Checker.Insns.{key_error, type_error}
use binary_kernel_code_mappi.Checker.Scan.{target_section}
use binary_kernel_code_mappi.Checker.Analyze.{raised, analyze, exit_code}
use binary_kernel_code_mappi.Checker.Callees.{CallReach}
use binary_kernel_code_mappi.Checker.SymbolNames.{IsSymtab, engine_names}
use binary_kernel_code_mappi.Checker.Termination.{analyze-ends}
use binary_kernel_code_mappi.Checker.Cleanliness.{IsClean}
use binary_kernel_code_mappi.Checker.Verdict.{analyze-visited, exit_code-IsClean}
use binary_kernel_code_mappi.Checker.Writes.{LastWrite, find_prior_write-LastWrite}
use binary_kernel_code_mappi.Checker.Registers.{find_prior_write}

abbrev function_symbol : Text → ℕ → ElfSymbol
function_symbol name offset = record {
  name = name;
  st_shndx = shn_section 1;
  st_value = offset;
  st_size = 2;
  st_type = stt_func;
}

abbrev two_functions : List ElfSymbol
two_functions = function_symbol (codes "a") 0 ∷ function_symbol (codes "b") 2 ∷ []

-- The relocation of the call in `a`, relative to the program counter.
abbrev text_section : ElfSection
text_section = record {
  name = codes ".text";
  sh_addr = 0;
  sh_flags = 6;
  content = 0xe8 ∷ 0 ∷ 0xc3 ∷ 0x90 ∷ [];
  relocations = none;
}

abbrev rela_section : ElfSection
rela_section = record {
  name = codes ".rela.text";
  sh_addr = 0;
  sh_flags = 0;
  content = [];
  relocations =
      some (record { r_offset = 1; r_info_type = 2; r_info_sym = 1; r_addend = some (pos 0) } ∷ []);
}

abbrev small_kernel : ElfFile
small_kernel = record {
  name = codes "vmlinux";
  is_linked = false;
  symbols = two_functions;
  symbol_at = get_elem? two_functions;
  get_section = λ i. some text_section;
  get_section_by_name =
      λ name. if text_eq name (codes ".rela.text") then some rela_section else none;
}

abbrev insn_at : ℕ → Insn
insn_at address = record {
  address = address;
  size = 2;
  id = if address == 0 then ins_call else ins_other;
  mnemonic = if address == 0 then codes "call" else codes "ret";
  op_str = [];
  operands = if address == 0 then imm (pos 0) ∷ [] else [];
  regs_access = some ([], 1 ∷ []);
}

-- One instruction in each function, which writes the register 1.
abbrev one_insn : Capstone
one_insn = record {
  disasm = λ code base. insn_at base ∷ [];
  reg_name = λ r. some (codes "eax");
  cr_regs = 9 ∷ [];
}

abbrev small_engine : Engine
small_engine = reuse_engine [] (elf_obj small_kernel) [] [] [] one_insn

abbrev scanned : State
scanned = record {
  queue = [];
  visited = codes "b" ∷ codes "a" ∷ [];
  static_refs = [];
  manifest_got = [];
  manifest_instrumentation = [];
  hard_fails = [];
  missing_deps = [];
  shim_hits = [];
  unanalyzable_funcs = [];
  analysis_trace = (codes "vmlinux", codes "a") ∷ (codes "vmlinux", codes "b") ∷ [];
}

analyze_run : analyze small_engine 3 (codes "a") ≡ ok scanned
unfolding analyze reuse_engine elf_obj insert text_eq lookup contains starts_with
    resolve_symbol_owner get_symbol is_privileged find_relocation_for_instruction reloc_at
    get_relocations is_reserved is_absolute is_pc_rel is_instrumentation_symbol target_name_of
    target_section is_exec is_func queue_func is_branch
analyze_run = refl

get_elem?-In :
    (symbols : List ElfSymbol) (i : ℕ) (symbol : ElfSymbol)
    → get_elem? symbols i ≡ some symbol
    → In symbol symbols
get_elem?-In [] i symbol h = cc
get_elem?-In (x ∷ symbols) zero symbol h = let same : symbol ≡ x = cc in inl same
get_elem?-In (x ∷ symbols) (suc i) symbol h = inr (get_elem?-In symbols i symbol h)

small_engine-IsSymtab : IsSymtab small_engine
unfolding reuse_engine elf_obj
small_engine-IsSymtab obj (inl same) i symbol h =
    subst (λ (o : ElfObj). o.file.symbol_at i ≡ some symbol → In symbol o.file.symbols) (sym same)
      (get_elem?-In two_functions i symbol) h
small_engine-IsSymtab obj (inr bad) i symbol h = absurd bad

few_names : suc (length (engine_names small_engine)) ≤ 3
unfolding engine_names reuse_engine elf_obj
few_names = omega arith

analyze-ends_example :
    ((t : State) × (analyze small_engine 3 (codes "a") ≡ ok t))
    ⊎ ((analyze small_engine 3 (codes "a") ≡ err (raised key_error))
        ⊎ (analyze small_engine 3 (codes "a") ≡ err (raised type_error)))
analyze-ends_example = analyze-ends small_engine (codes "a") 3 small_engine-IsSymtab few_names

analyze-visited_example :
    In (codes "b") scanned.visited ↔ CallReach small_engine (codes "a") (codes "b")
analyze-visited_example = analyze-visited small_engine (codes "a") 3 scanned analyze_run (codes "b")

passed : exit_code scanned ≡ 0
unfolding exit_code
passed = refl

a-calls-b : CallReach small_engine (codes "a") (codes "b")
a-calls-b =
    (analyze-visited small_engine (codes "a") 3 scanned analyze_run (codes "b")).0 (inl refl)

exit_code-IsClean_example : IsClean small_engine (codes "b")
exit_code-IsClean_example =
    exit_code-IsClean small_engine (codes "a") 3 scanned analyze_run passed (codes "b") a-calls-b

find_prior_write-LastWrite_example :
    LastWrite one_insn
      (insn_at 0 ∷ insn_at 2 ∷ [])
      (codes "rax")
      2
      (find_prior_write one_insn (insn_at 0 ∷ insn_at 2 ∷ []) 2 (codes "rax"))
find_prior_write-LastWrite_example =
    find_prior_write-LastWrite one_insn (insn_at 0 ∷ insn_at 2 ∷ []) (codes "rax") 2

find_prior_write_run :
    find_prior_write one_insn (insn_at 0 ∷ insn_at 2 ∷ []) 2 (codes "rax") ≡ some (insn_at 2)
unfolding find_prior_write contains text_eq
find_prior_write_run = refl
