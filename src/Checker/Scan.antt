-- ===== src/Checker/Scan.antt =====
-- `_analyze_function`: the checks of one function, instruction by instruction.
use binary_kernel_code_mappi.Prelude.{
  ℕ, suc, ◌+◌, ◌&&◌, not, List, [], ◌∷◌, ◌++◌, Option, none, some, Text, codes, contains, text_eq,
  if◌then◌else◌, Result, ok, err, ◌>>=◌,
}
use binary_kernel_code_mappi.Prelude.Int.{ℤ, sub_ℕ, ◌+ℤ◌}
use binary_kernel_code_mappi.Checker.{
  is_undef, is_reserved, is_func, ElfSymbol, Relocation, ElfSection, is_exec, is_named, named_only,
  resolve_func_by_offset, Insn,
}
use binary_kernel_code_mappi.Checker.Registers.{
  collect_branch_source_regs, collect_retpoline_source_regs,
}
use binary_kernel_code_mappi.Checker.State.{
  Location, TargetDesc, Source, blind, retpoline, BranchKind, privileged, absolute,
  empty_disassembly, target_missing, target_section_missing, target_function_missing, State, Engine,
  record_unanalyzable, record_static_ref, add_hard_fail, add_got, add_instrumentation, add_shim_hit,
  queue_func, is_instrumentation_symbol,
}
use binary_kernel_code_mappi.Checker.Explain.{
  Function, describe_instruction_location, find_relocation_for_instruction, is_pc_rel, is_absolute,
  target_name_of, format_target_desc, explain_indirect_branch, explain_retpoline_branch,
}
use binary_kernel_code_mappi.Checker.Insns.{
  key_error, type_error, CheckError, is_privileged, is_branch, is_blind, direct_target,
  retpoline_like, returns_like,
}

module _ (e : Engine) (f : Function) where
  unfoldable pub fail_privileged : Insn → State → State
  fail_privileged instr = add_hard_fail (record {
    mod_name = codes "[" ++ f.owner_elf.file.name ++ codes "]";
    func = f.func_name;
    location = describe_instruction_location e f instr;
    kind = privileged;
  })

  -- The relocation is of a section that holds no code.
  unfoldable pub note_static_ref : Location → Option ElfSection → TargetDesc → ℕ → State → State
  note_static_ref location none desc r_type s = s
  note_static_ref location (some sec) desc r_type s =
      if is_exec sec
      then s
      else record_static_ref f.owner_elf f.func_name location sec desc r_type s

  unfoldable pub add_branch : BranchKind → Text → Location → List Text → List Source → State → State
  add_branch kind symbol location source_regs sources = add_got (record {
    mod_name = f.owner_elf.file.name;
    func = f.func_name;
    location = location;
    kind = kind;
    symbol = symbol;
    source_regs = source_regs;
    sources = sources;
  })

  -- The target of a relocation against code of the same file that is no function symbol.
  unfoldable pub queue_by_offset : Insn → Relocation → ElfSymbol → Text → ℤ → State → State
  queue_by_offset instr r target_sym target_name addend s =
      let target_offset = addend +ℤ sub_ℕ (instr.address + instr.size) r.r_offset in
      elim (named_only (resolve_func_by_offset f.owner_elf target_sym.st_shndx target_offset)) [
        | some resolved_func ↦ queue_func resolved_func s
        | none ↦
            record_unanalyzable f.owner_elf f.func_name
              (target_function_missing target_name target_offset) s
      ]

  unfoldable pub queue_local :
      Insn → Relocation → ElfSymbol → Text → Option ElfSection → State → Result CheckError State
  unfolding queue_by_offset
  queue_local instr r target_sym target_name none s =
      ok (record_unanalyzable f.owner_elf f.func_name (target_section_missing target_name) s)
  queue_local instr r target_sym target_name (some sec) s =
      if not (is_exec sec)
      then ok s
      else if is_func target_sym.st_type && is_named target_sym.name
      then ok (queue_func target_sym.name s)
      else elim r.r_addend [
        | none ↦ err key_error
        | some addend ↦ ok (queue_by_offset instr r target_sym target_name addend s)
      ]

  -- A target outside the file.
  unfoldable pub queue_external : Location → Text → State → State
  queue_external location target_name s =
      if contains e.shims target_name
      then add_shim_hit target_name (record { func = f.func_name; location = location }) s
      else queue_func target_name s

  unfoldable pub scan_pc_rel :
      ℕ
      → Insn
      → Location
      → Relocation
      → ElfSymbol
      → Text
      → Option ElfSection
      → State
      → Result CheckError State
  unfolding queue_local queue_external add_branch
  scan_pc_rel instr_index instr location r target_sym target_name target_sec s =
      if is_instrumentation_symbol e target_name
      then ok (
          add_instrumentation
            (record {
              mod_name = f.owner_elf.file.name;
              func = f.func_name;
              location = location;
              symbol = target_name;
            })
            s)
      else if retpoline_like target_name
      then (let source_regs = collect_retpoline_source_regs target_name in
          ok (
            add_branch retpoline target_name location source_regs
              (explain_retpoline_branch e f instr_index source_regs) s))
      else if returns_like target_name
      then ok s
      else if is_undef target_sym.st_shndx
      then ok (queue_external location target_name s)
      else queue_local instr r target_sym target_name target_sec s

  -- `asm_str` names the target of a branch.
  unfoldable pub target_location : Insn → Relocation → Text → Location
  target_location instr r target_name =
      let location = describe_instruction_location e f instr in
      if is_pc_rel r.r_info_type && is_branch instr.id && is_named target_name
      then record location { asm = instr.mnemonic ++ codes " " ++ target_name }
      else location

  unfoldable pub target_section : ElfSymbol → Option ElfSection
  target_section target_sym =
      if is_undef target_sym.st_shndx
      then none
      else f.owner_elf.file.get_section target_sym.st_shndx

  -- The section of the target is read first, which raises at a reserved index.
  unfoldable pub scan_target : ℕ → Insn → Relocation → ElfSymbol → State → Result CheckError State
  unfolding scan_pc_rel note_static_ref
  scan_target instr_index instr r target_sym s =
      let target_name = target_name_of f.owner_elf target_sym [] in
      let target_desc = format_target_desc f.owner_elf target_sym target_name r in
      let location = target_location instr r target_name in
      let target_sec = target_section target_sym in
      let noted = note_static_ref location target_sec target_desc r.r_info_type s in
      if is_reserved target_sym.st_shndx
      then err type_error
      else if is_absolute r.r_info_type
      then ok (
          add_hard_fail
            (record {
              mod_name = codes "[" ++ f.owner_elf.file.name ++ codes "]";
              func = f.func_name;
              location = location;
              kind = absolute target_desc;
            })
            noted)
      else if is_pc_rel r.r_info_type
      then scan_pc_rel instr_index instr location r target_sym target_name target_sec noted
      else ok noted

  unfoldable pub scan_reloc : ℕ → Insn → Relocation → State → Result CheckError State
  unfolding scan_target
  scan_reloc instr_index instr r s = elim (f.owner_elf.file.symbol_at r.r_info_sym) [
    | none ↦ ok (record_unanalyzable f.owner_elf f.func_name (target_missing r.r_info_sym) s)
    | some target_sym ↦ scan_target instr_index instr r target_sym s
  ]

  -- An instruction with no relocation: an indirect branch, or a branch within the section.
  unfoldable pub scan_plain : ℕ → Insn → State → State
  unfolding add_branch
  scan_plain instr_index instr s =
      if not (is_branch instr.id)
      then s
      else if is_blind instr.operands
      then (let source_regs = collect_branch_source_regs e.capstone instr in
          add_branch blind [] (describe_instruction_location e f instr) source_regs
            (explain_indirect_branch e f instr_index source_regs) s)
      else elim (direct_target instr.operands) [
        | none ↦ s
        | some target_addr ↦
            elim (named_only (resolve_func_by_offset f.owner_elf f.sec_idx target_addr)) [
              | none ↦ s
              | some resolved_func ↦
                  if text_eq resolved_func f.func_name then s else queue_func resolved_func s
            ]
      ]

  -- The body of the loop, for an instruction that is not privileged.
  unfoldable pub scan_insn : ℕ → Insn → State → Result CheckError State
  unfolding scan_reloc scan_plain
  scan_insn instr_index instr s = elim (find_relocation_for_instruction f.relocs instr) [
    | some r ↦ scan_reloc instr_index instr r s
    | none ↦ ok (scan_plain instr_index instr s)
  ]

  -- A privileged instruction ends the analysis of the function.
  unfoldable pub scan_from : ℕ → List Insn → State → Result CheckError State
  unfolding scan_insn fail_privileged
  scan_from instr_index [] s = ok s
  scan_from instr_index (instr ∷ instrs) s =
      if is_privileged e.capstone instr
      then ok (fail_privileged instr s)
      else scan_insn instr_index instr s >>= λ t. scan_from (suc instr_index) instrs t

  unfoldable pub scan_function : State → Result CheckError State
  unfolding scan_from
  scan_function s = elim f.instructions [
    | [] ↦ ok (record_unanalyzable f.owner_elf f.func_name empty_disassembly s)
    | instr ∷ instrs ↦ scan_from 0 (instr ∷ instrs) s
  ]
