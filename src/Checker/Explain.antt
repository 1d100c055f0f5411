-- ===== src/Checker/Explain.antt =====
-- The descriptions of a finding: addresses, the targets of relocations, and where the registers of an indirect
-- branch were written.
use binary_kernel_code_mappi.Prelude.{
  ℕ, zero, suc, ◌+◌, ◌||◌, ◌&&◌, not, ◌==◌, Bool, List, [], ◌∷◌, ◌++◌, Option, none, some, Text,
  codes, contains, text_eq, lookup, if◌then◌else◌,
}
use binary_kernel_code_mappi.Prelude.Int.{ℤ, pos, sub_ℕ, ◌+ℤ◌}
use binary_kernel_code_mappi.TextOps.{strip}
use binary_kernel_code_mappi.Checker.{
  SectionIndex, is_undef, is_section, ElfSymbol, Relocation, ElfSection, ElfObj, Insn, is_named,
  reloc_at,
}
use binary_kernel_code_mappi.Checker.Registers.{find_prior_write, regs_read}
use binary_kernel_code_mappi.Checker.State.{
  RunAddr, runtime, static_addr, TargetDesc, no_target, symbol_index, at_addend, Location, Source,
  implicit_rip, unknown, backtrack, Engine,
}

-- What the analysis of one function keeps at hand.
pub record Function : Type 0 where
  pub func_name : Text
  pub owner_elf : ElfObj
  pub sec_idx : SectionIndex
  pub disasm_base : ℕ
  pub relocs : List Relocation
  pub instructions : List Insn

-- `base + (address - disasm_base)`
unfoldable pub runtime_display : Engine → Text → ℕ → ℕ → RunAddr
runtime_display e func_name disasm_base address = elim (lookup func_name e.live_syms) [
  | some live_func_base ↦ runtime (sub_ℕ (live_func_base + address) disasm_base)
  | none ↦ static_addr address
]

unfoldable pub asm_text : Insn → Text
asm_text instr = strip (instr.mnemonic ++ codes " " ++ instr.op_str)

unfoldable pub describe_instruction_location : Engine → Function → Insn → Location
unfolding runtime_display asm_text
describe_instruction_location e f instr = record {
  offset = sub_ℕ instr.address f.disasm_base;
  run_addr = runtime_display e f.func_name f.disasm_base instr.address;
  asm = asm_text instr;
}

-- `for reloc_offset in range(address, address + n)`
unfoldable pub first_reloc : List Relocation → ℕ → ℕ → Option Relocation
first_reloc relocs zero address = none
first_reloc relocs (suc n) address =
    let later = first_reloc relocs n (address + 1) in
    elim (reloc_at relocs address) [ some r ↦ some r | none ↦ later ]

unfoldable pub find_relocation_for_instruction : List Relocation → Insn → Option Relocation
unfolding first_reloc
find_relocation_for_instruction relocs instr = first_reloc relocs instr.size instr.address

-- `PC_REL_RELOC_TYPES` and `ABSOLUTE_RELOC_TYPES`
unfoldable pub is_pc_rel : ℕ → Bool
is_pc_rel t = t == 2 || t == 4

unfoldable pub is_absolute : ℕ → Bool
is_absolute t = t == 1 || t == 10 || t == 11

-- `reloc.entry.get('r_addend', 0)`
unfoldable pub addend_or_zero : Option ℤ → ℤ
addend_or_zero none = pos 0
addend_or_zero (some addend) = addend

unfoldable pub display_addend : Relocation → ℤ
unfolding is_pc_rel addend_or_zero
display_addend r =
    let addend = addend_or_zero r.r_addend in
    if is_pc_rel r.r_info_type then addend +ℤ pos 4 else addend

-- `name or other`
unfoldable pub name_or : Text → Text → Text
unfolding is_named
name_or name other = if is_named name then name else other

unfoldable pub section_name_or : Option ElfSection → Text → Text
section_name_or none other = other
section_name_or (some sec) other = sec.name

unfoldable pub format_target_desc : ElfObj → ElfSymbol → Text → Relocation → TargetDesc
unfolding display_addend name_or section_name_or
format_target_desc owner_elf target_sym target_name r =
    if is_named target_name && not (is_section target_sym.st_type)
    then at_addend target_name (display_addend r)
    else if is_undef target_sym.st_shndx
    then at_addend (name_or target_name (codes "<undef>")) (display_addend r)
    else at_addend
        (section_name_or (owner_elf.file.get_section target_sym.st_shndx)
          (name_or target_name (codes "<anonymous>")))
        (display_addend r)

-- The name of a symbol, or that of its section.
unfoldable pub target_name_of : ElfObj → ElfSymbol → Text → Text
unfolding section_name_or
target_name_of owner_elf target_sym other =
    if is_named target_sym.name || is_undef target_sym.st_shndx
    then target_sym.name
    else section_name_or (owner_elf.file.get_section target_sym.st_shndx) other

unfoldable pub describe_relocation_target : ElfObj → Option Relocation → TargetDesc
unfolding format_target_desc target_name_of
describe_relocation_target owner_elf none = no_target
describe_relocation_target owner_elf (some r) = elim (owner_elf.file.symbol_at r.r_info_sym) [
  | none ↦ symbol_index r.r_info_sym
  | some target_sym ↦
      format_target_desc owner_elf target_sym
        (target_name_of owner_elf target_sym (codes "<anonymous>")) r
]

-- The names other than `reg_name` and `rip`, each once.
unfoldable pub other_regs : Text → List Text → List Text → List Text
other_regs reg_name seen [] = []
other_regs reg_name seen (name ∷ names) =
    let rest = other_regs reg_name (name ∷ seen) names in
    if is_named name
      && not (text_eq name reg_name || text_eq name (codes "rip"))
      && not (contains seen name)
    then name ∷ rest
    else rest

module _ (e : Engine) (f : Function) (instr_index : ℕ) where
  -- The last write of the register before the branch.
  unfoldable pub backtrack_reg : Text → Source
  unfolding describe_instruction_location find_relocation_for_instruction describe_relocation_target
      other_regs
  backtrack_reg reg_name = elim (find_prior_write e.capstone f.instructions instr_index reg_name) [
    | none ↦ unknown reg_name
    | some writer ↦
        backtrack reg_name (describe_instruction_location e f writer)
          (describe_relocation_target f.owner_elf (find_relocation_for_instruction f.relocs writer))
          (other_regs reg_name [] (regs_read e.capstone writer))
  ]

  unfoldable pub explain_indirect_branch : List Text → List Source
  unfolding backtrack_reg
  explain_indirect_branch [] = []
  explain_indirect_branch (reg_name ∷ source_regs) =
      (if text_eq reg_name (codes "rip") then implicit_rip else backtrack_reg reg_name)
      ∷ explain_indirect_branch source_regs

  unfoldable pub explain_retpoline_branch : List Text → List Source
  unfolding backtrack_reg
  explain_retpoline_branch [] = []
  explain_retpoline_branch (reg_name ∷ source_regs) =
      backtrack_reg reg_name ∷ explain_retpoline_branch source_regs
