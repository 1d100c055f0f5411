-- ===== src/Checker/Loading.antt =====
-- The start of `_analyze_function`: the code of a function, its relocations and its instructions.
use binary_kernel_code_mappi.Prelude.{
  ℕ, ◌+◌, ◌==◌, leb, Option, none, some, Text, Bytes, length, take, drop, if◌then◌else◌, Result, ok,
  err,
}
use binary_kernel_code_mappi.Prelude.Int.{ℤ, pos, negsuc, sub_ℕ}
use binary_kernel_code_mappi.Checker.{ElfSymbol, ElfSection, ElfObj, get_relocations}
use binary_kernel_code_mappi.Checker.State.{
  Reason, section_missing, empty_size, slice_out_of_range, Engine,
}
use binary_kernel_code_mappi.Checker.Explain.{Function}

-- Where the symbol stands in its section: by its address in a linked file, by its offset in an object file.
unfoldable pub offset_in_section : ElfObj → ElfSymbol → ElfSection → ℤ
offset_in_section owner_elf sym sec =
    if owner_elf.file.is_linked then sub_ℕ sym.st_value sec.sh_addr else pos sym.st_value

-- `section_data[offset:offset + size]`, or none where that is out of range.
unfoldable pub code_slice : ℤ → ℕ → Bytes → Option Bytes
code_slice (negsuc n) size section_data = none
code_slice (pos offset) size section_data =
    if leb (offset + size) (length section_data)
    then some (take size (drop offset section_data))
    else none

-- The function with its relocations and its instructions.
unfoldable pub disassemble : Engine → Text → ElfObj → ElfSymbol → ElfSection → Bytes → Function
disassemble e func_name owner_elf sym sec code = record {
  func_name = func_name;
  owner_elf = owner_elf;
  sec_idx = sym.st_shndx;
  disasm_base = sym.st_value;
  relocs = get_relocations owner_elf sec.name;
  instructions = e.capstone.disasm code sym.st_value;
}

-- The function to scan, or why there is none.
unfoldable pub load_function : Engine → Text → ElfObj → ElfSymbol → Result Reason Function
unfolding offset_in_section code_slice disassemble
load_function e func_name owner_elf sym = elim (owner_elf.file.get_section sym.st_shndx) [
  | none ↦ err section_missing
  | some sec ↦
      if sym.st_size == 0
      then err empty_size
      else elim (code_slice (offset_in_section owner_elf sym sec) sym.st_size sec.content) [
        | none ↦ err slice_out_of_range
        | some code ↦ ok (disassemble e func_name owner_elf sym sec code)
      ]
]
