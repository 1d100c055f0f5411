-- ===== src/ElfData.antt =====
-- make_dll/build_PIC_so.py: the section order, and the packed records of the file: `_build_dynsym`, `_build_symtab`,
-- `build_relocations`, `_finalize_dynamic_section`, `_build_program_headers` and `_write_elf_header`.
pub mod Headers
pub mod Records
pub mod Entries
use Prim.Native.Nat.{bit_or}
use binary_kernel_code_mappi.Prelude.{
  ℕ, zero, suc, ◌+◌, ◌-◌, ◌*◌, ◌^◌, ◌%◌, Bool, true, false, not, ◌&&◌, ◌||◌, List, [], ◌∷◌, ◌++◌,
  map, Option, none, some, Bytes, Text, Dict, codes, length, lookup, insert, ltb, ◌==◌,
  if◌then◌else◌, Result, ok, err, ◌>>=◌, ◌>>◌, raise_if, or_raise,
}
use binary_kernel_code_mappi.Prelude.Int.{ℤ, pos, negsuc, mask64}
use binary_kernel_code_mappi.Words.{to_le}
use binary_kernel_code_mappi.Align.{page_size}
use binary_kernel_code_mappi.Symbols.{ResolvedSymbol}
use binary_kernel_code_mappi.Placement.{Place, text_base_vaddr}

pub data PackError : Type 0 where
  struct_error : PackError
  missing_name missing_library : Text → PackError
  relocation_missing_symbol : ℕ → PackError

-- One field of `w` bytes; `struct.pack` refuses a value that does not fit.
unfoldable pub pack : ℕ → ℕ → Result PackError Bytes
pack w v = do raise_if (not (ltb v (256 ^ w))) struct_error; ok (to_le w v)

-- The fields of a format one after the other, each with its width.
unfoldable pub pack_all : List (ℕ × ℕ) → Result PackError Bytes
unfolding pack
pack_all [] = ok []
pack_all ((w, v) ∷ fields) = do bytes ← pack w v; rest ← pack_all fields; ok (bytes ++ rest)

-- The records of a table one after the other.
unfoldable pub pack_records : List (List (ℕ × ℕ)) → Result PackError Bytes
unfolding pack_all
pack_records [] = ok []
pack_records (r ∷ rs) = do bytes ← pack_all r; rest ← pack_records rs; ok (bytes ++ rest)

-- `_derive_section_order`
unfoldable pub derive_section_order : List Text → List Text → Bool → Bool → List Text
derive_section_order text_section_names ro_section_names include_data has_relocations =
    text_section_names
    ++ (ro_section_names
        ++ ((if include_data then codes ".data" ∷ [] else [])
            ++ (codes ".dynstr" ∷ codes ".dynsym" ∷ codes ".gnu.hash" ∷ [])
            ++ ((if include_data && has_relocations then codes ".rela.dyn" ∷ [] else [])
                ++ (codes ".dynamic"
                    ∷ codes ".strtab"
                    ∷ codes ".symtab"
                    ∷ codes ".shstrtab"
                    ∷ []))))

-- `enumerate` into a dictionary: a later section of the same name replaces the index.
unfoldable pub index_sections : ℕ → List Text → Dict ℕ → Dict ℕ
index_sections idx [] d = d
index_sections idx (name ∷ names) d = index_sections (suc idx) names (insert name idx d)

-- `self.section_indices`, where the null section has the index 0.
unfoldable pub section_indices : List Text → Dict ℕ
unfolding index_sections
section_indices section_order = index_sections 0 (codes ".null" ∷ section_order) []

abbrev pub shn_undef : ℕ
shn_undef = 0

abbrev pub shn_abs : ℕ
shn_abs = 0xfff1

unfoldable pub index_or : Option ℕ → ℕ → ℕ
index_or none d = d
index_or (some i) d = i

-- `st_shndx`
unfoldable pub section_index : Dict ℕ → ResolvedSymbol → ℕ
unfolding index_or
section_index indices sym = elim sym.section_name [
  | none ↦ if sym.defined then shn_abs else shn_undef
  | some name ↦ index_or (lookup name indices) shn_undef
]

-- `_pack_sym_entry`: `<IBBHQQ`.
unfoldable pub sym_entry : ℕ → ℕ → ℕ → ℕ → ℕ → List (ℕ × ℕ)
sym_entry st_name st_type st_shndx st_value st_size =
    (4, st_name) ∷ (1, st_type) ∷ (1, 0) ∷ (2, st_shndx) ∷ (8, st_value) ∷ (8, st_size) ∷ []

-- The entry of a symbol; its info is `STB_GLOBAL << 4 | st_type`.
unfoldable pub entry_of : Dict ℕ → Dict ℕ → ResolvedSymbol → Result PackError (List (ℕ × ℕ))
unfolding sym_entry section_index
entry_of offsets indices sym = do
  st_name ← or_raise (missing_name sym.name) (lookup sym.name offsets)
  ok (
      sym_entry st_name (bit_or 16 sym.st_type) (section_index indices sym)
        (if sym.defined then mask64 sym.virtual_address else 0) sym.size)

unfoldable pub entries_of :
    Dict ℕ → Dict ℕ → List ResolvedSymbol → Result PackError (List (List (ℕ × ℕ)))
unfolding entry_of
entries_of offsets indices [] = ok []
entries_of offsets indices (sym ∷ syms) = do
  e ← entry_of offsets indices sym
  es ← entries_of offsets indices syms
  ok (e ∷ es)

-- `_build_dynsym` and `_build_symtab`, on the offsets of the names: the null entry, then one for each symbol.
unfoldable pub build_symbol_table : Dict ℕ → Dict ℕ → List ResolvedSymbol → Result PackError Bytes
unfolding entries_of pack_records
build_symbol_table offsets indices symbols = do
  entries ← entries_of offsets indices symbols
  pack_records (sym_entry 0 0 shn_undef 0 0 ∷ entries)

-- `sym.dynsym_index = idx`
unfoldable pub number_symbols : ℕ → List ResolvedSymbol → List ResolvedSymbol
number_symbols idx [] = []
number_symbols idx (sym ∷ syms) = record sym { dynsym_index = idx } ∷ number_symbols (suc idx) syms

-- A relocation; its symbol is given by the index in the dynamic symbol table.
pub record DataRelocation : Type 0 where
  pub offset : ℕ
  pub dynsym_index : Option ℕ
  pub addend : ℤ
  pub r_type : ℕ

abbrev pub r_x86_64_relative : ℕ
r_x86_64_relative = 8

-- `q`: the two's complement of a number that fits 64 bits with its sign.
unfoldable pub signed64 : ℤ → Result PackError ℕ
signed64 a = do
  raise_if (elim a [ pos n ↦ not (ltb n (2 ^ 63)) | negsuc n ↦ not (ltb n (2 ^ 63)) ]) struct_error
  ok (mask64 a)

unfoldable pub symbol_index : DataRelocation → Result PackError ℕ
symbol_index reloc =
    if reloc.r_type == r_x86_64_relative
    then ok 0
    else or_raise (relocation_missing_symbol reloc.offset) reloc.dynsym_index

-- The info is `sym_index << 32 | r_type`.
unfoldable pub rela_entry : ℕ → DataRelocation → Result PackError (List (ℕ × ℕ))
unfolding signed64 symbol_index
rela_entry data_addr reloc = do
  sym_index ← symbol_index reloc
  addend ← signed64 reloc.addend
  ok (
      (8, data_addr + reloc.offset)
      ∷ (8, bit_or (sym_index * 2 ^ 32) reloc.r_type)
      ∷ (8, addend)
      ∷ [])

unfoldable pub rela_entries : ℕ → List DataRelocation → Result PackError (List (List (ℕ × ℕ)))
unfolding rela_entry
rela_entries data_addr [] = ok []
rela_entries data_addr (reloc ∷ relocs) = do
  e ← rela_entry data_addr reloc
  es ← rela_entries data_addr relocs
  ok (e ∷ es)

-- `build_relocations`, at the address of `.data`.
unfoldable pub build_relocations : ℕ → List DataRelocation → Result PackError Bytes
unfolding rela_entries pack_records
build_relocations data_addr relocs = do
  entries ← rela_entries data_addr relocs
  pack_records entries
