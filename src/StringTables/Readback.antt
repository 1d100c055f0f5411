-- ===== src/StringTables/Readback.antt =====
-- A name is read back at its offset: the bytes there, up to the first NUL, are the name.
use binary_kernel_code_mappi.Prelude.{
  ℕ, zero, suc, ◌≤◌, ◌<◌, ◌≡◌, ◌≢◌, refl, ap, ◌∙◌, inl, inr, false, List, [], ◌∷◌, ◌++◌, Option,
  none, some, Bytes, Text, Dict, length, length-append, drop, drop-append, All, Bool-cases,
  Option-cases, text_eq, text_eq_iff, text_eq_refl, lookup, insert, lookup-insert, ◌==◌, ok, arith,
}
use binary_kernel_code_mappi.Words.{until_nul}
use binary_kernel_code_mappi.Words.Layout.{until_nul-append}
use binary_kernel_code_mappi.Krg.Load.Strings.{IsName}
use binary_kernel_code_mappi.StringTables.{
  StringTable, has_wide, encode_ascii, add_string, add_strings, empty_table, build_strtab,
}

-- What a reader finds at an offset of a string table.
unfoldable pub read_name : Bytes → ℕ → Option Text
read_name content off = until_nul (drop off content)

until_nul-more :
    (bs more : Bytes) (s : Text) → until_nul bs ≡ some s → until_nul (bs ++ more) ≡ some s
unfolding until_nul
until_nul-more [] more s h = cc
until_nul-more (b ∷ bs) more s h = elim (Bool-cases (b == 0)) [
  | inl nul ↦ rw (nul, until_nul) (rw (nul, until_nul) at h)
  | inr other ↦ elim (Option-cases (until_nul bs)) [
    | inl none_left ↦ absurd (let z = rw (other, until_nul, none_left) at h in cc)
    | inr (r, found) ↦
        let e = rw (other, until_nul, found) at h in
        rw (other, until_nul, until_nul-more bs more r found) e
  ]
]

drop-append-le :
    (off : ℕ) (bs more : Bytes) → off ≤ length bs → drop off (bs ++ more) ≡ drop off bs ++ more
drop-append-le zero bs more h = refl
drop-append-le (suc off) [] more h = absurd (omega arith)
drop-append-le (suc off) (b ∷ bs) more h = drop-append-le off bs more (omega arith)

read_name-append :
    (content more : Bytes) (off : ℕ) (s : Text)
    → off < length content
    → read_name content off ≡ some s
    → read_name (content ++ more) off ≡ some s
unfolding read_name
read_name-append content more off s h e =
    rw (drop-append-le off content more (omega arith)) (until_nul-more (drop off content) more s e)

read_name-new :
    (content : Bytes) (s : Text)
    → All (λ b. b ≢ 0) s
    → read_name (content ++ (s ++ 0 ∷ [])) (length content) ≡ some s
unfolding read_name
read_name-new content s h = rw (drop-append content (s ++ 0 ∷ [])) (until_nul-append s [] h)

-- Every name that has an offset is read back there.
pub record IsTable (t : StringTable) : Type 0 where
  pub reads :
      (name : Text) (off : ℕ)
      → lookup name t.offsets ≡ some off
      → (off < length t.content) × (read_name t.content off ≡ some name)

-- `name` has an offset.
abbrev pub HasOffset : StringTable → Text → Type 0
HasOffset t name = (off : ℕ) × (lookup name t.offsets ≡ some off)

pub IsTable-extend :
    (t : StringTable) (name : Text)
    → IsTable t
    → All (λ b. b ≢ 0) name
    → IsTable (record {
      offsets = insert name (length t.content) t.offsets;
      content = t.content ++ (name ++ 0 ∷ []);
    })
IsTable-extend t name is no_nul = record { reads = λ n off h. go n off h }
  where
    more : Bytes
    more = name ++ 0 ∷ []

    go :
        (n : Text) (off : ℕ)
        → lookup n (insert name (length t.content) t.offsets) ≡ some off
        → (off < length (t.content ++ (name ++ 0 ∷ [])))
          × (read_name (t.content ++ (name ++ 0 ∷ [])) off ≡ some n)
    go n off h = elim (Bool-cases (text_eq name n)) [
      | inl same ↦
          let e : name ≡ n = (text_eq_iff name n).0 same in
          let at : length t.content ≡ off =
            let z = rw (lookup-insert name n (length t.content) t.offsets, same) at h in cc in
          let size = length-append t.content (name ++ 0 ∷ []) in
          let size' = length-append name (0 ∷ []) in
          (omega arith, rw (← at) (read_name-new t.content name no_nul ∙ ap some e))
      | inr other ↦
          let old = rw (lookup-insert name n (length t.content) t.offsets, other) at h in
          let (lt, e) = is.reads n off old in
          let size = length-append t.content (name ++ 0 ∷ []) in
          (omega arith, read_name-append t.content (name ++ 0 ∷ []) off n lt e)
    ]

-- `t'` has the offsets of `t`.
abbrev pub Keeps : StringTable → StringTable → Type 0
Keeps t t' = (n : Text) (off : ℕ) → lookup n t.offsets ≡ some off → lookup n t'.offsets ≡ some off

lookup-insert_new :
    (d : Dict ℕ) (name n : Text) (off o : ℕ)
    → lookup name d ≡ none
    → lookup n d ≡ some o
    → lookup n (insert name off d) ≡ some o
lookup-insert_new d name n off o new h = elim (Bool-cases (text_eq name n)) [
  | inl same ↦ absurd (let e : name ≡ n = (text_eq_iff name n).0 same in cc)
  | inr other ↦ rw (lookup-insert name n off d, other) h
]

has_wide-ascii : (s : Text) → All (λ b. b < 128) s → has_wide s ≡ false
unfolding has_wide
has_wide-ascii [] h = refl
has_wide-ascii (c ∷ s) (h, hs) = ground (arith, has_wide-ascii s hs)

pub encode_ascii-name : (s : Text) → IsName s → encode_ascii s ≡ ok s
unfolding encode_ascii
encode_ascii-name s (ascii, no_nul) = rw (has_wide-ascii s ascii) refl

pub add_string-IsTable :
    (name : Text) (t : StringTable)
    → IsTable t
    → IsName name
    → (t' : StringTable) × (add_string name t ≡ ok t') × IsTable t' × HasOffset t' name × Keeps t t'
unfolding add_string
add_string-IsTable name t is is_name = elim (Option-cases (lookup name t.offsets)) [
  | inr (off, old) ↦ (t, rw (old, add_string) refl, is, (off, old), λ n o h. h)
  | inl new ↦
      let t' : StringTable = record {
        offsets = insert name (length t.content) t.offsets;
        content = t.content ++ (name ++ 0 ∷ []);
      } in
      (
        t',
        rw (new, add_string, encode_ascii-name name is_name) refl,
        IsTable-extend t name is is_name.1,
        (
          length t.content,
          rw (lookup-insert name name (length t.content) t.offsets, text_eq_refl name) refl,
        ),
        λ n o h. lookup-insert_new t.offsets name n (length t.content) o new h,
      )
]

abbrev pub HasOffsets : StringTable → List Text → Type 0
HasOffsets t = All (HasOffset t)

pub HasOffsets-extend :
    (t t' : StringTable) (names : List Text) → Keeps t t' → HasOffsets t names → HasOffsets t' names
HasOffsets-extend t t' [] ext h = tt
HasOffsets-extend t t' (n ∷ names) ext ((o, h), hs) =
    ((o, ext n o h), HasOffsets-extend t t' names ext hs)

pub add_strings-IsTable :
    (names : List Text) (t : StringTable)
    → IsTable t
    → All IsName names
    → (t' : StringTable) × (add_strings names t ≡ ok t')
      × IsTable t'
      × HasOffsets t' names
      × Keeps t t'
unfolding add_strings
add_strings-IsTable [] t is h = (t, refl, is, tt, λ n o k. k)
add_strings-IsTable (name ∷ names) t is (h, hs) =
    let (t', e, is', has, ext) = add_string-IsTable name t is h in
    let (t'', e', is'', has', ext') = add_strings-IsTable names t' is' hs in
    (t'', rw e e', is'', ((has.0, ext' name has.0 has.1), has'), λ n o k. ext' n o (ext n o k))

pub empty_table-IsTable : IsTable empty_table
unfolding lookup
empty_table-IsTable = record { reads = λ name off h. absurd (cc) }

-- Every name is read back from the content at its offset.
abbrev pub ReadsAll : Dict ℕ → Bytes → List Text → Type 0
ReadsAll offsets content =
    All (λ n. (off : ℕ) × (lookup n offsets ≡ some off) × (read_name content off ≡ some n))

pub reads_all :
    (t : StringTable) (names : List Text)
    → IsTable t
    → HasOffsets t names
    → ReadsAll t.offsets t.content names
reads_all t [] is h = tt
reads_all t (n ∷ names) is ((off, e), hs) =
    ((off, e, (is.reads n off e).1), reads_all t names is hs)

-- For ASCII names without NUL `.strtab` is built, and every name is read back at its offset.
pub build_strtab-readback :
    (names : List Text)
    → All IsName names
    → (t : StringTable) × (build_strtab names ≡ ok t) × ReadsAll t.offsets t.content names
unfolding build_strtab
build_strtab-readback names h =
    let (t, e, is, has, _) = add_strings-IsTable names empty_table empty_table-IsTable h in
    (t, e, reads_all t names is has)
