-- ===== src/Checker/Callees.antt =====
-- The functions that the code of a function leads to, as a description apart from the analysis.
pub mod Relocations
pub mod Queueing
use binary_kernel_code_mappi.Prelude.{
  ℕ, suc, In, ◌+◌, ◌≡◌, refl, ◌&&◌, not, Bool, true, false, List, [], ◌∷◌, ◌++◌, Option, none, some,
  Text, contains, text_eq, if◌then◌else◌, Bool-cases, inl, inr, Result, ok, err, ◌>>=◌, arith,
}
use binary_kernel_code_mappi.Prelude.Int.{ℤ, sub_ℕ, ◌+ℤ◌}
use binary_kernel_code_mappi.Checker.{
  is_undef, is_func, ElfSymbol, Relocation, ElfSection, is_exec, ElfObj, get_symbol, is_named,
  named_only, resolve_func_by_offset, Operand, Insn,
}
use binary_kernel_code_mappi.Checker.State
use binary_kernel_code_mappi.Checker.State.{
  Location, TargetDesc, Reason, State, Engine, target_function_missing, queue_func,
  record_unanalyzable, record_static_ref, record_missing_dep, add_got, add_instrumentation,
  add_shim_hit, resolve_symbol_owner, is_instrumentation_symbol,
}
use binary_kernel_code_mappi.Checker.Explain.{
  Function, find_relocation_for_instruction, is_pc_rel, is_absolute, target_name_of,
  format_target_desc,
}
use binary_kernel_code_mappi.Checker.Insns.{
  CheckError, is_privileged, is_branch, is_blind, direct_target, retpoline_like, returns_like,
}
use binary_kernel_code_mappi.Checker.Scan.{
  note_static_ref, add_branch, queue_by_offset, queue_local, queue_external, scan_pc_rel,
  target_location, target_section, scan_target, scan_reloc, scan_plain, scan_insn, scan_from,
  scan_function, fail_privileged,
}
use binary_kernel_code_mappi.Checker.Loading.{load_function}
use binary_kernel_code_mappi.Checker.Analyze.{analyze_function}
use binary_kernel_code_mappi.Checker.Growth.{
  Effect, Gives, Effect-nil, Effect-append, Effect-queue_func, Effect-record_unanalyzable,
  Effect-add_hard_fail, Effect-record_missing_dep, Gives-ok, Gives-if, Effect-if, Gives-append,
}

abbrev pub one_name : Option Text → List Text
one_name none = []
one_name (some name) = name ∷ []

module _ (e : Engine) (f : Function) where
  -- The function at which a branch relative to a section ends.
  abbrev pub offset_callees : Insn → Relocation → ElfSymbol → ℤ → List Text
  offset_callees instr r sym addend = one_name (
      named_only (
        resolve_func_by_offset f.owner_elf sym.st_shndx
          (addend +ℤ sub_ℕ (instr.address + instr.size) r.r_offset)))

  abbrev pub addend_callees : Insn → Relocation → ElfSymbol → Option ℤ → List Text
  addend_callees instr r sym none = []
  addend_callees instr r sym (some addend) = offset_callees instr r sym addend

  abbrev pub local_callees : Insn → Relocation → ElfSymbol → Option ElfSection → List Text
  local_callees instr r sym none = []
  local_callees instr r sym (some sec) =
      if not (is_exec sec)
      then []
      else if is_func sym.st_type && is_named sym.name
      then sym.name ∷ []
      else addend_callees instr r sym r.r_addend

  -- A reference to a symbol: a call outside the file unless a shim takes it, or a call within.
  abbrev pub target_callees : Insn → Relocation → ElfSymbol → Text → Option ElfSection → List Text
  target_callees instr r sym name sec =
      if is_instrumentation_symbol e name
      then []
      else if retpoline_like name
      then []
      else if returns_like name
      then []
      else if is_undef sym.st_shndx
      then (if contains e.shims name then [] else name ∷ [])
      else local_callees instr r sym sec

  abbrev pub reloc_callees : Insn → Relocation → Option ElfSymbol → List Text
  reloc_callees instr r none = []
  reloc_callees instr r (some sym) =
      if is_absolute r.r_info_type
      then []
      else if is_pc_rel r.r_info_type
      then target_callees instr r sym (target_name_of f.owner_elf sym []) (target_section e f sym)
      else []

  abbrev pub other_name : Option Text → List Text
  other_name none = []
  other_name (some name) = if text_eq name f.func_name then [] else name ∷ []

  abbrev pub direct_callees : Option ℤ → List Text
  direct_callees none = []
  direct_callees (some target) =
      other_name (named_only (resolve_func_by_offset f.owner_elf f.sec_idx target))

  abbrev pub plain_callees : Insn → List Text
  plain_callees instr =
      if not (is_branch instr.id)
      then []
      else if is_blind instr.operands
      then []
      else direct_callees (direct_target instr.operands)

  abbrev pub insn_callees : Option Relocation → Insn → List Text
  insn_callees none instr = plain_callees instr
  insn_callees (some r) instr = reloc_callees instr r (f.owner_elf.file.symbol_at r.r_info_sym)

  -- Up to the first privileged instruction.
  unfoldable pub callees_from : List Insn → List Text
  callees_from [] = []
  callees_from (instr ∷ instrs) =
      let rest = callees_from instrs in
      if is_privileged e.capstone instr
      then []
      else insn_callees (find_relocation_for_instruction f.relocs instr) instr ++ rest

-- The names that the analysis of a function can queue; none where its code cannot be loaded.
abbrev pub loaded_callees : Engine → Result Reason Function → List Text
loaded_callees e (err reason) = []
loaded_callees e (ok f) = callees_from e f f.instructions

abbrev pub symbol_callees : Engine → Text → ElfObj → Option ElfSymbol → List Text
symbol_callees e name owner none = []
symbol_callees e name owner (some sym) = loaded_callees e (load_function e name owner sym)

abbrev pub owner_callees : Engine → Text → Option ElfObj → List Text
owner_callees e name none = []
owner_callees e name (some owner) = symbol_callees e name owner (get_symbol owner name)

unfoldable pub callees : Engine → Text → List Text
unfolding callees_from
callees e name = owner_callees e name (resolve_symbol_owner e name)

-- The functions that the code of `root` leads to.
pub data CallReach (e : Engine) (root : Text) : Text → Type 0 where
  here : CallReach e root root
  step :
      {caller callee : Text}
      → CallReach e root caller
      → In callee (callees e caller)
      → is_named callee ≡ true
      → CallReach e root callee
