-- ===== src/ElfData/Headers.antt =====
-- `_finalize_dynamic_section`, `_build_program_headers` and `_write_elf_header`.
use binary_kernel_code_mappi.Prelude.{
  ℕ, ◌+◌, ◌-◌, List, [], ◌∷◌, ◌++◌, Bytes, Text, Dict, codes, length, lookup, ltb, ◌==◌,
  if◌then◌else◌, Result, ok, err, ◌>>=◌, or_raise,
}
use binary_kernel_code_mappi.Prelude.Int.{ℤ, pos, negsuc}
use binary_kernel_code_mappi.Align.{page_size}
use binary_kernel_code_mappi.Placement.{Place, Placed, text_base_vaddr}
use binary_kernel_code_mappi.ElfData.{
  PackError, struct_error, missing_library, pack_all, pack_records, index_or,
}

-- `DT_NEEDED` for each library.
unfoldable pub needed_entries : Dict ℕ → List Text → Result PackError (List (ℕ × ℕ))
needed_entries offsets [] = ok []
needed_entries offsets (lib ∷ libs) = do
  off ← or_raise (missing_library lib) (lookup lib offsets)
  rest ← needed_entries offsets libs
  ok ((1, off) ∷ rest)

-- The addresses and sizes that the dynamic section names.
pub record DynamicTargets : Type 0 where
  pub gnu_hash_addr : ℕ
  pub dynstr_addr : ℕ
  pub dynsym_addr : ℕ
  pub rela_addr : ℕ
  pub rela_size : ℕ
  pub dynstr_size : ℕ

-- The entries, tag and value: `DT_GNU_HASH`, `DT_STRTAB`, `DT_SYMTAB`, with relocations `DT_RELA`, `DT_RELASZ` and
-- `DT_RELAENT`, then `DT_STRSZ`, `DT_SYMENT` and `DT_NULL`.
unfoldable pub dynamic_entries : List (ℕ × ℕ) → DynamicTargets → List (ℕ × ℕ)
dynamic_entries needed t =
    needed
    ++ ((0x6ffffef5, t.gnu_hash_addr) ∷ (5, t.dynstr_addr) ∷ (6, t.dynsym_addr) ∷ []
        ++ ((if t.rela_size == 0 then [] else (7, t.rela_addr) ∷ (8, t.rela_size) ∷ (9, 24) ∷ [])
            ++ (10, t.dynstr_size) ∷ (11, 24) ∷ (0, 0) ∷ []))

unfoldable pub dynamic_records : List (ℕ × ℕ) → List (List (ℕ × ℕ))
dynamic_records [] = []
dynamic_records ((tag, value) ∷ entries) = ((8, tag) ∷ (8, value) ∷ []) ∷ dynamic_records entries

-- `_finalize_dynamic_section`
unfoldable pub finalize_dynamic_section :
    Dict ℕ → List Text → DynamicTargets → Result PackError Bytes
unfolding needed_entries dynamic_entries dynamic_records
finalize_dynamic_section offsets needed_libraries t = do
  needed ← needed_entries offsets needed_libraries
  pack_records (dynamic_records (dynamic_entries needed t))

-- `<IIQQQQQQ`
abbrev program_header : ℕ → ℕ → ℕ → ℕ → ℕ → ℕ → ℕ → List (ℕ × ℕ)
program_header p_type flags offset addr file_size mem_size alignment =
    (4, p_type)
    ∷ (4, flags)
    ∷ (8, offset)
    ∷ (8, addr)
    ∷ (8, addr)
    ∷ (8, file_size)
    ∷ (8, mem_size)
    ∷ (8, alignment)
    ∷ []

unfoldable pub address_field : ℤ → Result PackError ℕ
address_field (pos a) = ok a
address_field (negsuc a) = err struct_error

-- `_make_ph_load` for each section of regions.
unfoldable pub load_headers : ℕ → List Place → Result PackError (List (List (ℕ × ℕ)))
unfolding address_field
load_headers flags [] = ok []
load_headers flags (p ∷ ps) = do
  addr ← address_field p.addr
  rest ← load_headers flags ps
  ok (program_header 1 flags p.offset addr p.size p.size page_size ∷ rest)

-- The writable segment, where it is not empty in the file.
unfoldable pub rw_headers : Placed → Result PackError (List (List (ℕ × ℕ)))
unfolding address_field
rw_headers p =
    if ltb p.rw_segment_start.0 p.rw_segment_file_end
    then (do
      addr ← address_field p.rw_segment_start.1
      ok (
          program_header 1 6 p.rw_segment_start.0 addr
            (p.rw_segment_file_end - p.rw_segment_start.0) (p.rw_segment_mem_end - addr) page_size
          ∷ []))
    else ok []

-- `_build_program_headers`: text is readable and executable, read-only data readable, the rest writable; `dynamic`
-- is the place of the dynamic section, which has an address.
unfoldable pub build_program_headers : Placed → Place → Result PackError Bytes
unfolding load_headers rw_headers
build_program_headers p dynamic = do
  text ← load_headers 5 p.text
  rodata ← load_headers 4 p.rodata
  rw ← rw_headers p
  addr ← address_field dynamic.addr
  pack_records (
      text
      ++ (rodata
          ++ (rw ++ program_header 2 6 dynamic.offset addr dynamic.size dynamic.size 8 ∷ [])))

-- `e_ident`, byte by byte, and the fields behind it: `<16sHHIQQQIHHHHHH`.
unfoldable pub elf_header : ℕ → ℕ → ℕ → ℕ → List (ℕ × ℕ)
elf_header section_headers_offset ph_count section_count shstrtab_index =
    (1, 0x7f)
    ∷ (1, b'E')
    ∷ (1, b'L')
    ∷ (1, b'F')
    ∷ (1, 2)
    ∷ (1, 1)
    ∷ (1, 1)
    ∷ (1, 0)
    ∷ (8, 0)
    ∷ (2, 3)
    ∷ (2, 62)
    ∷ (4, 1)
    ∷ (8, text_base_vaddr)
    ∷ (8, 64)
    ∷ (8, section_headers_offset)
    ∷ (4, 0)
    ∷ (2, 64)
    ∷ (2, 56)
    ∷ (2, ph_count)
    ∷ (2, 64)
    ∷ (2, section_count + 1)
    ∷ (2, shstrtab_index)
    ∷ []

-- `_write_elf_header`, on the section order and the indices of the sections.
unfoldable pub write_elf_header : ℕ → ℕ → List Text → Dict ℕ → Result PackError Bytes
unfolding elf_header
write_elf_header section_headers_offset ph_count section_order indices = pack_all (
    elf_header section_headers_offset ph_count (length section_order)
      (index_or (lookup (codes ".shstrtab") indices) 0))
