-- ===== src/StringTables/Needed.antt =====
-- `.dynstr`: the names of the symbols and of the needed libraries are read back.
use binary_kernel_code_mappi.Prelude.{
  ℕ, ◌≡◌, refl, inl, inr, List, [], ◌∷◌, some, Text, All, Bool-cases, text_eq, text_eq_iff,
  text_eq_refl, lookup, insert, lookup-insert, ok, or_raise, >>=-eq-ok,
}
use binary_kernel_code_mappi.Krg.Load.Strings.{IsName}
use binary_kernel_code_mappi.StringTables.{
  StringTable, DynStr, missing_offset, add_string, empty_table, add_needed, build_dynstr,
}
use binary_kernel_code_mappi.StringTables.Readback.{
  IsTable, Keeps, ReadsAll, add_string-IsTable, HasOffsets-extend, add_strings-IsTable,
  empty_table-IsTable, reads_all,
}

-- Every needed library has the offset that the table has for it.
abbrev IsNeeded : DynStr → Type 0
IsNeeded d =
    (lib : Text) (off : ℕ)
    → lookup lib d.needed_offsets ≡ some off
    → lookup lib d.table.offsets ≡ some off

HasNeeded : DynStr → List Text → Type 0
HasNeeded d = All (λ lib. (off : ℕ) × (lookup lib d.needed_offsets ≡ some off))

add_needed-keys :
    (libs : List Text) (d d' : DynStr) (n : Text) (off : ℕ)
    → add_needed libs d ≡ ok d'
    → lookup n d.needed_offsets ≡ some off
    → (off' : ℕ) × (lookup n d'.needed_offsets ≡ some off')
unfolding add_needed
add_needed-keys [] d d' n off h e = (off, let z : d ≡ d' = cc in rw (← z) e)
add_needed-keys (lib ∷ libs) d d' n off h e =
    let (t, _, h1) = >>=-eq-ok (add_string lib d.table) _ h in
    let (o, _, h2) = >>=-eq-ok (or_raise (missing_offset lib) (lookup lib t.offsets)) _ h1 in
    let (o', e') = kept o in add_needed-keys libs _ d' n o' h2 e'
  where
    kept : (o : ℕ) → (o' : ℕ) × (lookup n (insert lib o d.needed_offsets) ≡ some o')
    kept o = elim (Bool-cases (text_eq lib n)) [
      | inl same ↦ (o, rw (lookup-insert lib n o d.needed_offsets, same) refl)
      | inr other ↦ (off, rw (lookup-insert lib n o d.needed_offsets, other) e)
    ]

add_needed-IsTable :
    (libs : List Text) (d : DynStr)
    → IsTable d.table
    → IsNeeded d
    → All IsName libs
    → (d' : DynStr) × (add_needed libs d ≡ ok d')
      × IsTable d'.table
      × IsNeeded d'
      × HasNeeded d' libs
      × Keeps d.table d'.table
unfolding add_needed HasNeeded
add_needed-IsTable [] d is needed h = (d, refl, is, needed, tt, λ n o k. k)
add_needed-IsTable (lib ∷ libs) d is needed (h, hs) =
    let (t, e, is', (off, has), keeps) = add_string-IsTable lib d.table is h in
    let next : DynStr = record { table = t; needed_offsets = insert lib off d.needed_offsets } in
    let (d', e', is'', needed', all, keeps') =
      add_needed-IsTable libs next is' (still t off has keeps) hs in
    let self : lookup lib (insert lib off d.needed_offsets) ≡ some off =
      rw (lookup-insert lib lib off d.needed_offsets, text_eq_refl lib) refl in
    (
      d',
      rw (e, has) e',
      is'',
      needed',
      (add_needed-keys libs next d' lib off e' self, all),
      λ n o k. keeps' n o (keeps n o k),
    )
  where
    still :
        (t : StringTable) (off : ℕ)
        → lookup lib t.offsets ≡ some off
        → Keeps d.table t
        → IsNeeded (record { table = t; needed_offsets = insert lib off d.needed_offsets })
    still t off has keeps n o k = elim (Bool-cases (text_eq lib n)) [
      | inl same ↦
          let e : lib ≡ n = (text_eq_iff lib n).0 same in
          let z = rw (lookup-insert lib n off d.needed_offsets, same) at k in cc
      | inr other ↦
          keeps n o (needed n o (rw (lookup-insert lib n off d.needed_offsets, other) at k))
    ]

reads_needed :
    (d : DynStr) (libs : List Text)
    → IsTable d.table
    → IsNeeded d
    → HasNeeded d libs
    → ReadsAll d.needed_offsets d.table.content libs
unfolding HasNeeded
reads_needed d [] is needed h = tt
reads_needed d (lib ∷ libs) is needed ((off, e), hs) =
    ((off, e, (is.reads lib off (needed lib off e)).1), reads_needed d libs is needed hs)

-- For ASCII names without NUL `.dynstr` is built; every symbol's name is read back at its offset, and every needed
-- library at its own.
pub build_dynstr-readback :
    (names needed_libraries : List Text)
    → All IsName names
    → All IsName needed_libraries
    → (d : DynStr) × (build_dynstr names needed_libraries ≡ ok d)
      × ReadsAll d.table.offsets d.table.content names
      × ReadsAll d.needed_offsets d.table.content needed_libraries
unfolding build_dynstr
build_dynstr-readback names libs h k =
    let (t, e, is, has, _) = add_strings-IsTable names empty_table empty_table-IsTable h in
    let start : DynStr = record { table = t; needed_offsets = [] } in
    let none_yet : IsNeeded start = λ lib off z. unfold lookup in absurd (cc) in
    let (d, e', is', needed, all, keeps) = add_needed-IsTable libs start is none_yet k in
    (
      d,
      rw e e',
      reads_all d.table names is' (HasOffsets-extend t d.table names keeps has),
      reads_needed d libs is' needed all,
    )
