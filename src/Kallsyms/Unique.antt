-- ===== src/Kallsyms/Unique.antt =====
-- Which owners are left: those of the names that have one owner only.
use mathlib.Core.Path.{subst}
use mathlib.Core.Logic.{◌↔◌, ◌⊎◌}
use binary_kernel_code_mappi.Kallsyms.Lines.{
  IsTextLine, IsExportLine, text_entry-IsTextLine, export_entry-IsExportLine,
}
use binary_kernel_code_mappi.Prelude.{
  sym, In, ◌≡◌, refl, ap, ◌∙◌, inl, inr, Bool, true, false, not, ◌&&◌, ◌||◌, List, [], ◌∷◌, map,
  Option, none, some, Text, Dict, Bool-cases, Option-cases, contains, text_eq, text_eq_iff,
  text_eq_refl, lookup, lookup-insert, if◌then◌else◌, arith,
}
use binary_kernel_code_mappi.TextOps.{split_words}
use binary_kernel_code_mappi.Kallsyms.{
  Owners, remember_unique_owner, text_entry, export_entry, remember_entry, Hints, read_lines,
  without_duplicates, no_owners, load_kallsyms_owner_hints,
}

-- The entries of one kind, line by line.
abbrev pub entries : (List Text → Option (Text × Text)) → List Text → List (Option (Text × Text))
entries entry = map (λ raw. entry (split_words raw))

-- The owners of a name among the entries, in order.
abbrev pub owners_of : Text → List (Option (Text × Text)) → List Text
owners_of name [] = []
owners_of name (none ∷ es) = owners_of name es
owners_of name (some (n, o) ∷ es) =
    let rest = owners_of name es in if text_eq n name then o ∷ rest else rest

-- The owner that is left: the first, where no other differs from it.
abbrev pub all_same : Text → List Text → Bool
all_same owner [] = true
all_same owner (o ∷ os) = text_eq owner o && all_same owner os

abbrev pub the_owner : List Text → Option Text
the_owner [] = none
the_owner (o ∷ os) = if all_same o os then some o else none

-- What a state says of a name.
abbrev found : Owners → Text → Option Text
found h name = if contains h.duplicates name then none else lookup name h.owners

lookup-without_duplicates :
    (dups : List Text) (d : Dict Text) (name : Text)
    → lookup name (without_duplicates dups d) ≡ (if contains dups name then none else lookup name d)
unfolding lookup without_duplicates
lookup-without_duplicates dups [] name = ground arith
lookup-without_duplicates dups ((n, o) ∷ d) name = elim (Bool-cases (text_eq n name)) [
  | inl same ↦
      let e : n ≡ name = (text_eq_iff n name).0 same in
      elim (Bool-cases (contains dups name)) [
        | inl dup ↦ rw (e, dup) (lookup-without_duplicates dups d name ∙ rw dup refl)
        | inr one ↦ rw (e, one, text_eq_refl name) refl
      ]
  | inr other ↦ elim (Bool-cases (contains dups n)) [
    | inl dup ↦ rw (dup, other) (lookup-without_duplicates dups d name)
    | inr one ↦ rw (one, other) (lookup-without_duplicates dups d name)
  ]
]

-- The loop for one of the two kinds of entry.
abbrev remember_all : List (Option (Text × Text)) → Owners → Owners
remember_all [] h = h
remember_all (e ∷ es) h = remember_all es (remember_entry e h)

read_lines-global_text :
    (raws : List Text) (h : Hints)
    → (read_lines raws h).global_text ≡ remember_all (entries text_entry raws) h.global_text
unfolding read_lines
read_lines-global_text [] h = refl
read_lines-global_text (raw ∷ raws) h = read_lines-global_text raws _

read_lines-exported :
    (raws : List Text) (h : Hints)
    → (read_lines raws h).exported ≡ remember_all (entries export_entry raws) h.exported
unfolding read_lines
read_lines-exported [] h = refl
read_lines-exported (raw ∷ raws) h = read_lines-exported raws _

-- Another name's entry changes nothing for a name.
remember-other :
    (name n o : Text) (h : Owners)
    → text_eq n name ≡ false
    → (lookup name (remember_unique_owner n o h).owners ≡ lookup name h.owners)
      × (contains (remember_unique_owner n o h).duplicates name ≡ contains h.duplicates name)
unfolding contains remember_unique_owner
remember-other name n o h other = elim (Option-cases (lookup n h.owners)) [
  | inl new ↦ rw (remember_unique_owner, new, lookup-insert n name o h.owners, other) (refl, refl)
  | inr (p, old) ↦ elim (Bool-cases (text_eq p o || contains h.duplicates n)) [
    | inl keep ↦ rw (remember_unique_owner, old, keep) (refl, refl)
    | inr clash ↦ rw (remember_unique_owner, old, clash, other) (refl, refl)
  ]
]

-- From a state that has an owner of the name: that owner stays, and is a duplicate as soon as another owner comes.
remember_self :
    (name p o : Text) (h : Owners)
    → lookup name h.owners ≡ some p
    → (lookup name (remember_unique_owner name o h).owners ≡ some p)
      × (contains (remember_unique_owner name o h).duplicates name
          ≡ (contains h.duplicates name || not (text_eq p o)))
unfolding contains remember_unique_owner
remember_self name p o h old = elim (Bool-cases (text_eq p o || contains h.duplicates name)) [
  | inl keep ↦ rw (remember_unique_owner, old, keep) (old, ground arith)
  | inr clash ↦ rw (remember_unique_owner, old, clash, text_eq_refl name) (old, ground arith)
]

remember_all-some :
    (es : List (Option (Text × Text))) (name p : Text) (h : Owners)
    → lookup name h.owners ≡ some p
    → (lookup name (remember_all es h).owners ≡ some p)
      × (contains (remember_all es h).duplicates name
          ≡ (contains h.duplicates name || not (all_same p (owners_of name es))))
unfolding remember_entry
remember_all-some [] name p h old = (old, ground arith)
remember_all-some (none ∷ es) name p h old = remember_all-some es name p h old
remember_all-some (some (n, o) ∷ es) name p h old = elim (Bool-cases (text_eq n name)) [
  | inl same ↦
      let e : n ≡ name = (text_eq_iff n name).0 same in
      let (owner, dup) = remember_self name p o h old in
      let (owner', dup') = remember_all-some es name p (remember_unique_owner name o h) owner in
      rw (e, text_eq_refl name) (owner', dup' ∙ ground arith)
  | inr other ↦
      let (owner, dup) = remember-other name n o h other in
      let (owner', dup') =
        remember_all-some es name p (remember_unique_owner n o h) (owner ∙ old) in
      rw other (owner', dup' ∙ ap (λ b. b || not (all_same p (owners_of name es))) dup)
]

remember-first :
    (name o : Text) (h : Owners)
    → lookup name h.owners ≡ none
    → (lookup name (remember_unique_owner name o h).owners ≡ some o)
      × (contains (remember_unique_owner name o h).duplicates name ≡ contains h.duplicates name)
unfolding remember_unique_owner
remember-first name o h new =
    rw (remember_unique_owner, new, lookup-insert name name o h.owners, text_eq_refl name)
      (refl, refl)

remember_all-found :
    (es : List (Option (Text × Text))) (name : Text) (h : Owners)
    → lookup name h.owners ≡ none
    → contains h.duplicates name ≡ false
    → found (remember_all es h) name ≡ the_owner (owners_of name es)
unfolding remember_entry
remember_all-found [] name h new one = rw (one, new) refl
remember_all-found (none ∷ es) name h new one = remember_all-found es name h new one
remember_all-found (some (n, o) ∷ es) name h new one = elim (Bool-cases (text_eq n name)) [
  | inl same ↦
      let e : n ≡ name = (text_eq_iff n name).0 same in
      let (owner, dup) = remember-first name o h new in
      let (owner', dup') = remember_all-some es name o (remember_unique_owner name o h) owner in
      rw (e, text_eq_refl name, dup', owner', dup, one)
        (elim (Bool-cases (all_same o (owners_of name es))) [
          | inl all ↦ rw all refl
          | inr two ↦ rw two refl
        ])
  | inr other ↦
      let (owner, dup) = remember-other name n o h other in
      rw other (remember_all-found es name (remember_unique_owner n o h) (owner ∙ new) (dup ∙ one))
]

load_kallsyms_owner_hints-entries :
    (lines : List Text) (name : Text)
    → (lookup name (load_kallsyms_owner_hints lines).0
        ≡ the_owner (owners_of name (entries text_entry lines)))
      × (lookup name (load_kallsyms_owner_hints lines).1
          ≡ the_owner (owners_of name (entries export_entry lines)))
unfolding load_kallsyms_owner_hints lookup contains
load_kallsyms_owner_hints-entries lines name =
    let start : Hints = record { global_text = no_owners; exported = no_owners } in
    let h = read_lines lines start in
    (
      lookup-without_duplicates h.global_text.duplicates h.global_text.owners name
          ∙ ap (λ s. found s name) (read_lines-global_text lines start)
          ∙ remember_all-found (entries text_entry lines) name no_owners refl refl,
      lookup-without_duplicates h.exported.duplicates h.exported.owners name
          ∙ ap (λ s. found s name) (read_lines-exported lines start)
          ∙ remember_all-found (entries export_entry lines) name no_owners refl refl,
    )

all_same_iff : (o : Text) (os : List Text) → (all_same o os ≡ true) ↔ ((p : Text) → In p os → p ≡ o)
all_same_iff o [] = (λ h p bad. absurd bad, λ h. refl)
all_same_iff o (q ∷ os) =
    let rest = all_same_iff o os in
    (
      λ h p at. elim (Bool-cases (text_eq o q)) [
        | inr other ↦ (let bad = rw other at h in cc)
        | inl same ↦ elim at [
          | inl here ↦ here ∙ sym ((text_eq_iff o q).0 same)
          | inr later ↦ rest.0 (rw same at h) p later
        ]
      ],
      λ h.
          (let same : text_eq o q ≡ true = (text_eq_iff o q).1 (sym (h q (inl refl))) in
            rw same (rest.1 (λ p at. h p (inr at)))),
    )

the_owner_iff :
    (os : List Text) (o : Text)
    → (the_owner os ≡ some o) ↔ (In o os × ((p : Text) → In p os → p ≡ o))
the_owner_iff [] o = (λ h. cc, λ (bad, only). absurd bad)
the_owner_iff (q ∷ os) o = (
  λ h. elim (Bool-cases (all_same q os)) [
    | inr two ↦ (let bad = rw two at h in cc)
    | inl one ↦
        let kept : some q ≡ some o = rw one at h in
        let same : q ≡ o = cc in
        (
          inl (sym same),
          λ p at. elim at [
            | inl here ↦ here ∙ same
            | inr later ↦ (all_same_iff q os).0 one p later ∙ same
          ],
        )
  ],
  λ (at, only).
      (let same : q ≡ o = only q (inl refl) in
        let one : all_same q os ≡ true =
          (all_same_iff q os).1 (λ p later. only p (inr later) ∙ sym same) in
        rw one (ap some same)),
)

-- Some line gives the name this owner, and no line gives it another.
abbrev pub IsOnlyOwner : (List Text → Text → Text → Type 0) → List Text → Text → Text → Type 0
IsOnlyOwner says lines name o =
    ((raw : Text) × In raw lines × says (split_words raw) name o)
    × ((raw : Text) (p : Text) → In raw lines → says (split_words raw) name p → p ≡ o)

owners_of-cons :
    (name o : Text) (e : Option (Text × Text)) (es : List (Option (Text × Text)))
    → In o (owners_of name (e ∷ es)) ↔ ((e ≡ some (name, o)) ⊎ In o (owners_of name es))
owners_of-cons name o none es = (λ h. inr h, λ h. elim h [ inl bad ↦ cc | inr h ↦ h ])
owners_of-cons name o (some (n, q)) es = elim (Bool-cases (text_eq n name)) [
  | inl same ↦
      let named : n ≡ name = (text_eq_iff n name).0 same in
      rw same (
        λ h. elim h [ inl here ↦ (let back = sym here in inl cc) | inr h ↦ inr h ],
        λ h. elim h [ inl now ↦ inl cc | inr h ↦ inr h ],
      )
  | inr other ↦ rw other (
    λ h. inr h,
    λ h. elim h [
      | inr h ↦ h
      | inl now ↦
          let named : n ≡ name = cc in
          let same : text_eq n name ≡ true = (text_eq_iff n name).1 named in
          let apart : true ≡ false = sym same ∙ other in cc
    ],
  )
]

module _ (entry : List Text → Option (Text × Text)) (says : List Text → Text → Text → Type 0)
    (reads : (parts : List Text) (name o : Text)
      → (entry parts ≡ some (name, o)) ↔ says parts name o) where
  owners_of-In :
      (lines : List Text) (name o : Text)
      → In o (owners_of name (entries entry lines))
        ↔ ((raw : Text) × In raw lines × says (split_words raw) name o)
  owners_of-In [] name o = (λ h. absurd h, λ (raw, bad, x). absurd bad)
  owners_of-In (raw ∷ raws) name o =
      let cons = owners_of-cons name o (entry (split_words raw)) (entries entry raws) in
      let this = reads (split_words raw) name o in
      let rest = owners_of-In raws name o in
      (
        λ h. elim (cons.0 h) [
          | inl now ↦ (raw, inl refl, this.0 now)
          | inr later ↦ (let (r, l, x) = rest.0 later in (r, inr l, x))
        ],
        λ (r, l, x). cons.1 (elim l [
          | inl same ↦ inl (this.1 (subst (λ y. says (split_words y) name o) same x))
          | inr l ↦ inr (rest.1 (r, l, x))
        ]),
      )

  only_iff :
      (lines : List Text) (name o : Text)
      → (the_owner (owners_of name (entries entry lines)) ≡ some o) ↔ IsOnlyOwner says lines name o
  only_iff lines name o =
      let unique = the_owner_iff (owners_of name (entries entry lines)) o in
      (
        λ h.
            (let (at, only) = unique.0 h in
              (
                (owners_of-In lines name o).0 at,
                λ raw p l x. only p ((owners_of-In lines name p).1 (raw, l, x)),
              )),
        λ (found, only). unique.1 (
          (owners_of-In lines name o).1 found,
          λ p at. (let (raw, l, x) = (owners_of-In lines name p).0 at in only raw p l x),
        ),
      )

-- The hint for a name as a global text symbol is the one owner that the lines of type T or W for that name give
-- it; the hint for a name as an exported symbol is the one owner that the lines whose symbol is `__ksymtab_` and
-- the name, which is not empty, give it, so that a line with `__ksymtab_gpl_x` counts for gpl_x and not for x; and
-- there is no hint where no such line is, or two of them differ. The owner that a line gives is the module whose
-- name its fourth word has in brackets, and else vmlinux.
pub load_kallsyms_owner_hints_unique :
    (lines : List Text) (name o : Text)
    → ((lookup name (load_kallsyms_owner_hints lines).0 ≡ some o)
        ↔ IsOnlyOwner IsTextLine lines name o)
      × ((lookup name (load_kallsyms_owner_hints lines).1 ≡ some o)
          ↔ IsOnlyOwner IsExportLine lines name o)
load_kallsyms_owner_hints_unique lines name o =
    let (text, exported) = load_kallsyms_owner_hints-entries lines name in
    let text_only = only_iff text_entry IsTextLine text_entry-IsTextLine lines name o in
    let export_only = only_iff export_entry IsExportLine export_entry-IsExportLine lines name o in
    (
      (λ h. text_only.0 (sym text ∙ h), λ h. text ∙ text_only.1 h),
      (λ h. export_only.0 (sym exported ∙ h), λ h. exported ∙ export_only.1 h),
    )
