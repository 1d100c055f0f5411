-- ===== src/ElfData/Entries.antt =====
-- The symbol tables, the relocations and the dynamic section hold what they are built from.
use Prim.Native.Nat.{bit_or}
use binary_kernel_code_mappi.Prelude.{
  or_raise-ok, ℕ, suc, ◌+◌, ◌*◌, ◌^◌, ◌≤◌, ◌≡◌, refl, sym, ap, ◌∙◌, inl, inr, List, [], ◌∷◌, some,
  Bytes, Text, Dict, length, length-append, lookup, ◌==◌, Bool-cases, if◌then◌else◌, ok, or_raise,
  >>=-eq-ok, arith,
}
use binary_kernel_code_mappi.Prelude.Int.{mask64}
use binary_kernel_code_mappi.Symbols.{ResolvedSymbol}
use binary_kernel_code_mappi.ElfData.{
  missing_name, missing_library, shn_undef, sym_entry, section_index, entry_of, entries_of,
  build_symbol_table, DataRelocation, signed64, symbol_index, rela_entry, rela_entries,
  build_relocations,
}
use binary_kernel_code_mappi.ElfData.Headers.{
  needed_entries, DynamicTargets, dynamic_entries, dynamic_records, finalize_dynamic_section,
}
use binary_kernel_code_mappi.ElfData.Records.{
  Reads, width, ReadsTable, HaveWidth, pack_records-ReadsTable,
}

-- From `off` on stand the entries of the symbols: the offset of the name, the type, the section, the address of a
-- defined symbol, and the size.
unfoldable pub ReadsSymbols : Dict ℕ → Dict ℕ → Bytes → ℕ → List ResolvedSymbol → Type 0
unfolding section_index
ReadsSymbols offsets indices blob off [] = Unit
ReadsSymbols offsets indices blob off (s ∷ ss) =
    ((st_name : ℕ) × (lookup s.name offsets ≡ some st_name)
      × Reads blob off (
          sym_entry st_name (bit_or 16 s.st_type) (section_index indices s)
            (if s.defined then mask64 s.virtual_address else 0) s.size))
    × ReadsSymbols offsets indices blob (off + 24) ss

entries_of-reads :
    (offsets indices : Dict ℕ) (ss : List ResolvedSymbol) (es : List (List (ℕ × ℕ))) (blob : Bytes)
    (off : ℕ)
    → entries_of offsets indices ss ≡ ok es
    → HaveWidth 24 es
      × (length es ≡ length ss)
      × (ReadsTable blob 24 off es → ReadsSymbols offsets indices blob off ss)
unfolding entries_of entry_of sym_entry ReadsSymbols ReadsTable HaveWidth width
entries_of-reads offsets indices [] es blob off h =
    let nil : [] ≡ es = cc in rw (← nil) (tt, refl, λ t. tt)
entries_of-reads offsets indices (s ∷ ss) es blob off h =
    let (e, h1, h2) = >>=-eq-ok (entry_of offsets indices s) _ h in
    let (st_name, h3, h4) =
      >>=-eq-ok (or_raise (missing_name s.name) (lookup s.name offsets)) _ h1 in
    let (rest, h5, h6) = >>=-eq-ok (entries_of offsets indices ss) _ h2 in
    let fields : List (ℕ × ℕ) =
      sym_entry st_name (bit_or 16 s.st_type) (section_index indices s)
        (if s.defined then mask64 s.virtual_address else 0) s.size in
    let is : fields ≡ e = cc in
    let whole : e ∷ rest ≡ es = cc in
    let (w, size, later) = entries_of-reads offsets indices ss rest blob (off + 24) h5 in
    rw (← whole, ← is)
      ((refl, w), ap suc size, λ (r, t). ((st_name, or_raise-ok _ _ h3, r), later t))

-- Where a symbol table is built, it has 24 bytes for the null entry and for each symbol, and the entries of the
-- symbols are read back behind the null entry, in order.
pub build_symbol_table-readback :
    (offsets indices : Dict ℕ) (symbols : List ResolvedSymbol) (bytes : Bytes)
    → build_symbol_table offsets indices symbols ≡ ok bytes
    → (length bytes ≡ 24 * (length symbols + 1))
      × Reads bytes 0 (sym_entry 0 0 shn_undef 0 0)
      × ReadsSymbols offsets indices bytes 24 symbols
unfolding build_symbol_table ReadsTable HaveWidth width sym_entry
build_symbol_table-readback offsets indices symbols bytes h =
    let (es, h1, h2) = >>=-eq-ok (entries_of offsets indices symbols) _ h in
    let (w, size, later) = entries_of-reads offsets indices symbols es bytes 24 h1 in
    let ((null, table), total) =
      pack_records-ReadsTable 24 (sym_entry 0 0 shn_undef 0 0 ∷ es) bytes (refl, w) h2 in
    (omega (arith, size, total), null, later table)

-- From `off` on stand the relocations: the address in `.data`, the symbol's index with the type, and the addend.
unfoldable pub ReadsRelocations : ℕ → Bytes → ℕ → List DataRelocation → Type 0
ReadsRelocations data_addr blob off [] = Unit
ReadsRelocations data_addr blob off (r ∷ rs) =
    ((index addend : ℕ) × (symbol_index r ≡ ok index)
      × (signed64 r.addend ≡ ok addend)
      × Reads blob off
          ((8, data_addr + r.offset) ∷ (8, bit_or (index * 2 ^ 32) r.r_type) ∷ (8, addend) ∷ []))
    × ReadsRelocations data_addr blob (off + 24) rs

rela_entries-reads :
    (data_addr : ℕ) (rs : List DataRelocation) (es : List (List (ℕ × ℕ))) (blob : Bytes) (off : ℕ)
    → rela_entries data_addr rs ≡ ok es
    → HaveWidth 24 es
      × (length es ≡ length rs)
      × (ReadsTable blob 24 off es → ReadsRelocations data_addr blob off rs)
unfolding rela_entries rela_entry ReadsRelocations ReadsTable HaveWidth width
rela_entries-reads data_addr [] es blob off h =
    let nil : [] ≡ es = cc in rw (← nil) (tt, refl, λ t. tt)
rela_entries-reads data_addr (r ∷ rs) es blob off h =
    let (e, h1, h2) = >>=-eq-ok (rela_entry data_addr r) _ h in
    let (index, h3, h4) = >>=-eq-ok (symbol_index r) _ h1 in
    let (addend, h5, h6) = >>=-eq-ok (signed64 r.addend) _ h4 in
    let (rest, h7, h8) = >>=-eq-ok (rela_entries data_addr rs) _ h2 in
    let fields : List (ℕ × ℕ) =
      (8, data_addr + r.offset) ∷ (8, bit_or (index * 2 ^ 32) r.r_type) ∷ (8, addend) ∷ [] in
    let is : fields ≡ e = cc in
    let whole : e ∷ rest ≡ es = cc in
    let (w, size, later) = rela_entries-reads data_addr rs rest blob (off + 24) h7 in
    rw (← whole, ← is) ((refl, w), ap suc size, λ (x, t). ((index, addend, h3, h5, x), later t))

-- Where the relocations are written, they take 24 bytes each, as reserved for them, and are read back in order.
pub build_relocations-readback :
    (data_addr : ℕ) (relocs : List DataRelocation) (bytes : Bytes)
    → build_relocations data_addr relocs ≡ ok bytes
    → (length bytes ≡ 24 * length relocs) × ReadsRelocations data_addr bytes 0 relocs
unfolding build_relocations
build_relocations-readback data_addr relocs bytes h =
    let (es, h1, h2) = >>=-eq-ok (rela_entries data_addr relocs) _ h in
    let (w, size, later) = rela_entries-reads data_addr relocs es bytes 0 h1 in
    let (table, total) = pack_records-ReadsTable 24 es bytes w h2 in
    (omega (arith, size, total), later table)

dynamic_records-width :
    (entries : List (ℕ × ℕ))
    → HaveWidth 16 (dynamic_records entries) × (length (dynamic_records entries) ≡ length entries)
unfolding dynamic_records HaveWidth width
dynamic_records-width [] = (tt, refl)
dynamic_records-width ((tag, value) ∷ entries) =
    let (w, size) = dynamic_records-width entries in ((refl, w), ap suc size)

needed_entries-length :
    (offsets : Dict ℕ) (libs : List Text) (es : List (ℕ × ℕ))
    → needed_entries offsets libs ≡ ok es
    → length es ≡ length libs
unfolding needed_entries
needed_entries-length offsets [] es h = let nil : [] ≡ es = cc in ap length (sym nil)
needed_entries-length offsets (lib ∷ libs) es h =
    let (off, h1, h2) = >>=-eq-ok (or_raise (missing_library lib) (lookup lib offsets)) _ h in
    let (rest, h3, h4) = >>=-eq-ok (needed_entries offsets libs) _ h2 in
    let whole : (1, off) ∷ rest ≡ es = cc in
    ap length (sym whole) ∙ ap suc (needed_entries-length offsets libs rest h3)

-- The final dynamic section holds its entries in order, and is not longer than the 16 bytes for each library and
-- for ten more entries that the layout reserved for it.
pub finalize_dynamic_section-fits :
    (offsets : Dict ℕ) (needed_libraries : List Text) (t : DynamicTargets) (bytes : Bytes)
    → finalize_dynamic_section offsets needed_libraries t ≡ ok bytes
    → (needed : List (ℕ × ℕ)) × (needed_entries offsets needed_libraries ≡ ok needed)
      × ReadsTable bytes 16 0 (dynamic_records (dynamic_entries needed t))
      × (length bytes ≤ (length needed_libraries + 10) * 16)
unfolding finalize_dynamic_section
finalize_dynamic_section-fits offsets libs t bytes h =
    let (needed, h1, h2) = >>=-eq-ok (needed_entries offsets libs) _ h in
    let es = dynamic_entries needed t in
    let (w, size) = dynamic_records-width es in
    let (table, total) = pack_records-ReadsTable 16 (dynamic_records es) bytes w h2 in
    let count = needed_entries-length offsets libs needed h1 in
    (needed, h1, table, (let few = count_entries needed in omega (arith, size, total, count, few)))
  where
    count_entries : (needed : List (ℕ × ℕ)) → length (dynamic_entries needed t) ≤ length needed + 10
    count_entries needed =
        unfold dynamic_entries in
        elim (Bool-cases (t.rela_size == 0)) [
          | inl without ↦ rw without (
              omega (
                arith,
                length-append needed (
                    (0x6ffffef5, t.gnu_hash_addr)
                    ∷ (5, t.dynstr_addr)
                    ∷ (6, t.dynsym_addr)
                    ∷ (10, t.dynstr_size)
                    ∷ (11, 24)
                    ∷ (0, 0)
                    ∷ []),
              ))
          | inr with ↦ rw with (
              omega (
                arith,
                length-append needed (
                    (0x6ffffef5, t.gnu_hash_addr)
                    ∷ (5, t.dynstr_addr)
                    ∷ (6, t.dynsym_addr)
                    ∷ (7, t.rela_addr)
                    ∷ (8, t.rela_size)
                    ∷ (9, 24)
                    ∷ (10, t.dynstr_size)
                    ∷ (11, 24)
                    ∷ (0, 0)
                    ∷ []),
              ))
        ]
