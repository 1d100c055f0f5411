-- ===== src/StringTables/Sections.antt =====
-- `.shstrtab`: the names of the sections are read back.
use binary_kernel_code_mappi.Prelude.{
  ℕ, ◌≡◌, refl, inl, inr, List, [], ◌∷◌, ◌++◌, some, Text, length, All, Bool-cases, text_eq,
  text_eq_refl, lookup, insert, lookup-insert, ok,
}
use binary_kernel_code_mappi.Krg.Load.Strings.{IsName}
use binary_kernel_code_mappi.StringTables.{StringTable, append_names, build_shstrtab}
use binary_kernel_code_mappi.StringTables.Readback.{
  IsTable, HasOffset, HasOffsets, ReadsAll, encode_ascii-name, IsTable-extend, reads_all,
}

append_names-IsTable :
    (names : List Text) (t : StringTable)
    → IsTable t
    → All IsName names
    → (t' : StringTable) × (append_names names t ≡ ok t')
      × IsTable t'
      × HasOffsets t' names
      × ((n : Text) → HasOffset t n → HasOffset t' n)
unfolding append_names
append_names-IsTable [] t is h = (t, refl, is, tt, λ n k. k)
append_names-IsTable (name ∷ names) t is (h, hs) =
    let next : StringTable = record {
      offsets = insert name (length t.content) t.offsets;
      content = t.content ++ (name ++ 0 ∷ []);
    } in
    let (t', e, is', has, kept) =
      append_names-IsTable names next (IsTable-extend t name is h.1) hs in
    (
      t',
      rw (encode_ascii-name name h) e,
      is',
      (
        kept name (
          length t.content,
          rw (lookup-insert name name (length t.content) t.offsets, text_eq_refl name) refl,
        ),
        has,
      ),
      λ n k. kept n (has_offset_insert n k),
    )
  where
    has_offset_insert :
        (n : Text)
        → HasOffset t n
        → (off : ℕ) × (lookup n (insert name (length t.content) t.offsets) ≡ some off)
    has_offset_insert n (off, e) = elim (Bool-cases (text_eq name n)) [
      | inl same ↦
          (length t.content, rw (lookup-insert name n (length t.content) t.offsets, same) refl)
      | inr other ↦ (off, rw (lookup-insert name n (length t.content) t.offsets, other) e)
    ]

no_names : IsTable (record { offsets = []; content = [] })
unfolding lookup
no_names = record { reads = λ name off h. absurd (cc) }

-- For ASCII section names without NUL `.shstrtab` is built, and every name of the order, and the empty name of the
-- null section, is read back at its offset.
pub build_shstrtab-readback :
    (section_order : List Text)
    → All IsName section_order
    → (t : StringTable) × (build_shstrtab section_order ≡ ok t)
      × ReadsAll t.offsets t.content ([] ∷ section_order)
unfolding build_shstrtab
build_shstrtab-readback section_order h =
    let (t, e, is, has, _) =
      append_names-IsTable ([] ∷ section_order) (record { offsets = []; content = [] }) no_names
        ((tt, tt), h) in
    (t, e, reads_all t ([] ∷ section_order) is has)
