-- ===== src/Checker.antt =====
-- kernel_cgd/function_checker/functions_checker.py: what pyelftools and Capstone hand to the checker, and `ELFObj`.
-- A file is what pyelftools reads from it; an instruction is what Capstone decodes.
pub mod Registers
pub mod State
pub mod Explain
pub mod Insns
pub mod Scan
pub mod Loading
pub mod Analyze
pub mod Growth
pub mod Enqueueing
pub mod Callees
pub mod SymbolNames
pub mod Names
pub mod Rounds
pub mod FirstReloc
pub mod Cleanliness
pub mod Termination
pub mod Verdict
pub mod Writes
use binary_kernel_code_mappi.Prelude.{
  ℕ, ◌+◌, ◌-◌, ◌/◌, ◌%◌, ◌≡◌, Bool, true, false, not, ◌&&◌, ◌||◌, List, [], ◌∷◌, ◌++◌, Option, none,
  some, Text, Bytes, Dict, codes, leb, ltb, ◌==◌, text_eq, lookup, insert, if◌then◌else◌, get_elem?,
}
use binary_kernel_code_mappi.Prelude.Int.{ℤ, pos, negsuc}
use binary_kernel_code_mappi.TextOps.{before_hash, strip, split_words}

-- `st_shndx`: `SHN_UNDEF`, another reserved value by its name, or the number of a section.
pub data SectionIndex : Type 0 where
  shn_undef : SectionIndex
  shn_reserved : Text → SectionIndex
  shn_section : ℕ → SectionIndex

unfoldable pub is_undef : SectionIndex → Bool
is_undef shn_undef = true
is_undef (shn_reserved name) = false
is_undef (shn_section n) = false

-- An index that has a name in pyelftools other than `SHN_UNDEF`, as `SHN_ABS`.
unfoldable pub is_reserved : SectionIndex → Bool
is_reserved shn_undef = false
is_reserved (shn_reserved name) = true
is_reserved (shn_section n) = false

unfoldable pub same_index : SectionIndex → SectionIndex → Bool
same_index shn_undef shn_undef = true
same_index (shn_reserved a) (shn_reserved b) = text_eq a b
same_index (shn_section m) (shn_section n) = m == n
same_index _ _ = false

pub data SymbolType : Type 0 where
  stt_func stt_section stt_other : SymbolType

unfoldable pub is_func : SymbolType → Bool
is_func stt_func = true
is_func _ = false

unfoldable pub is_section : SymbolType → Bool
is_section stt_section = true
is_section _ = false

pub record ElfSymbol : Type 0 where
  pub name : Text
  pub st_shndx : SectionIndex
  pub st_value : ℕ
  pub st_size : ℕ
  pub st_type : SymbolType

-- An entry of a `.rel` section has no `r_addend`.
pub record Relocation : Type 0 where
  pub r_offset : ℕ
  pub r_info_type : ℕ
  pub r_info_sym : ℕ
  pub r_addend : Option ℤ

-- `relocations` is there where the section is a `RelocationSection`.
pub record ElfSection : Type 0 where
  pub name : Text
  pub sh_addr : ℕ
  pub sh_flags : ℕ
  pub content : Bytes
  pub relocations : Option (List Relocation)

-- `sh_flags & 4`
unfoldable pub is_exec : ElfSection → Bool
is_exec sec = sec.sh_flags / 4 % 2 == 1

-- `symbol_at` is `symtab.get_symbol`, and `is_linked` says that `e_type` is `ET_EXEC` or `ET_DYN`. `get_section`
-- counts where it returns: at a reserved index it raises a TypeError, and the analysis asks `is_reserved` first.
pub record ElfFile : Type 0 where
  pub name : Text
  pub is_linked : Bool
  pub symbols : List ElfSymbol
  pub symbol_at : ℕ → Option ElfSymbol
  pub get_section : SectionIndex → Option ElfSection
  pub get_section_by_name : Text → Option ElfSection

pub record ElfObj : Type 0 where
  pub file : ElfFile
  pub sym_dict : Dict ElfSymbol

unfoldable pub is_named : Text → Bool
is_named [] = false
is_named (c ∷ s) = true

unfoldable pub named_only : Option Text → Option Text
unfolding is_named
named_only none = none
named_only (some name) = if is_named name then some name else none

-- The loop of `ELFObj.__init__`.
unfoldable pub index_symbols : List ElfSymbol → Dict ElfSymbol → Dict ElfSymbol
unfolding is_named is_undef
index_symbols [] d = d
index_symbols (sym ∷ syms) d =
    index_symbols syms
      (if is_named sym.name && not (is_undef sym.st_shndx) then insert sym.name sym d else d)

unfoldable pub elf_obj : ElfFile → ElfObj
unfolding index_symbols
elf_obj file = record { file = file; sym_dict = index_symbols file.symbols [] }

unfoldable pub get_symbol : ElfObj → Text → Option ElfSymbol
get_symbol obj name = lookup name obj.sym_dict

unfoldable pub relocations_of : Option ElfSection → Option (List Relocation)
relocations_of none = none
relocations_of (some sec) = sec.relocations

-- `.rela` and the name of the section, or else `.rel` and the name.
unfoldable pub get_relocations : ElfObj → Text → List Relocation
unfolding relocations_of
get_relocations obj section_name =
    elim (relocations_of (obj.file.get_section_by_name (codes ".rela" ++ section_name))) [
      | some rs ↦ rs
      | none ↦ elim (relocations_of (obj.file.get_section_by_name (codes ".rel" ++ section_name))) [
        | some rs ↦ rs
        | none ↦ []
      ]
    ]

-- `relocs.get(offset)`, where the last of several entries at an offset counts.
unfoldable pub reloc_at : List Relocation → ℕ → Option Relocation
reloc_at [] offset = none
reloc_at (r ∷ rs) offset = elim (reloc_at rs offset) [
  | some later ↦ some later
  | none ↦ if r.r_offset == offset then some r else none
]

-- The test of one symbol; a negative offset lies in no function.
unfoldable pub covers : SectionIndex → ℤ → ElfSymbol → Bool
unfolding is_func same_index
covers sec_idx (negsuc n) sym = false
covers sec_idx (pos offset) sym =
    is_func sym.st_type
    && same_index sym.st_shndx sec_idx
    && ((sym.st_size == 0 && sym.st_value == offset)
        || (leb sym.st_value offset && ltb offset (sym.st_value + sym.st_size)))

unfoldable pub first_covering : SectionIndex → ℤ → List ElfSymbol → Option Text
unfolding covers
first_covering sec_idx offset [] = none
first_covering sec_idx offset (sym ∷ syms) =
    if covers sec_idx offset sym then some sym.name else first_covering sec_idx offset syms

unfoldable pub resolve_func_by_offset : ElfObj → SectionIndex → ℤ → Option Text
unfolding first_covering
resolve_func_by_offset obj sec_idx offset = first_covering sec_idx offset obj.file.symbols

-- `load_token_file`, on the lines of the file.
unfoldable pub load_token_file : List Text → List Text
unfolding strip before_hash split_words is_named
load_token_file [] = []
load_token_file (line ∷ lines) =
    let clean_line = strip (before_hash line) in
    let rest = load_token_file lines in
    if is_named clean_line then split_words clean_line ++ rest else rest

pub data Operand : Type 0 where
  reg : ℕ → Operand
  mem : ℕ → ℕ → Operand
  imm : ℤ → Operand
  other : Operand

pub data InsnId : Type 0 where
  ins_call ins_jmp ins_other : InsnId

-- `regs_access` has the registers read and written; none where Capstone raises `CsError`.
pub record Insn : Type 0 where
  pub address : ℕ
  pub size : ℕ
  pub id : InsnId
  pub mnemonic : Text
  pub op_str : Text
  pub operands : List Operand
  pub regs_access : Option (List ℕ × List ℕ)

-- `disasm code base`; the names of registers; and the identifiers of CR0, CR2, CR3, CR4 and CR8.
pub record Capstone : Type 0 where
  pub disasm : Bytes → ℕ → List Insn
  pub reg_name : ℕ → Option Text
  pub cr_regs : List ℕ
