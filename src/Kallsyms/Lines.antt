-- ===== src/Kallsyms/Lines.antt =====
-- What a line of /proc/kallsyms says, described apart from the reader.
use mathlib.Core.Path.{subst}
use mathlib.Core.List.{reverse, reverse-append, reverse-reverse}
use binary_kernel_code_mappi.Prelude.{
  ℕ, ◌-◌, ◌≡◌, ◌≢◌, refl, sym, ap, ◌∙◌, ◌⊎◌, ◌↔◌, inl, inr, Bool, true, false, ◌&&◌, ◌||◌, List, [],
  ◌∷◌, ◌++◌, Option, none, some, Text, codes, length, length-append, take, take-append, drop,
  drop-append, starts_with, text_eq, text_eq_iff, Bool-cases, ==_iff, ◌==◌, if◌then◌else◌, arith,
}
use binary_kernel_code_mappi.TextOps.{ends_with}
use binary_kernel_code_mappi.Kallsyms.{
  vmlinux, kallsyms_owner, ksymtab_prefixes, exported_name, some_nonempty, text_entry, owned,
  export_entry,
}

-- The fourth word is the name of a module in brackets.
abbrev pub NamesModule : List Text → Text → Type 0
NamesModule parts m =
    (a : Text) × (b : Text) × (c : Text) × (rest : List Text) × (parts
      ≡ a ∷ b ∷ c ∷ (codes "[" ++ (m ++ codes "]")) ∷ rest)

-- The owner of a line: that module, and else vmlinux.
abbrev pub IsOwner : List Text → Text → Type 0
IsOwner parts o = NamesModule parts o ⊎ (((m : Text) → ¬ NamesModule parts m) × (o ≡ vmlinux))

-- A line of type T or W.
abbrev pub IsTextLine : List Text → Text → Text → Type 0
IsTextLine parts name o =
    (a : Text) × (t : Text) × (rest : List Text) × (parts ≡ a ∷ t ∷ name ∷ rest)
    × ((t ≡ codes "T") ⊎ (t ≡ codes "W"))
    × IsOwner parts o

-- A line whose symbol is `__ksymtab_` with a nonempty name behind it.
abbrev pub IsExportLine : List Text → Text → Text → Type 0
IsExportLine parts name o =
    (a : Text) × (t : Text) × (rest : List Text) × (parts
      ≡ a ∷ t ∷ (codes "__ksymtab_" ++ name) ∷ rest)
    × (name ≢ [])
    × IsOwner parts o

abbrev is_bracketed : Text → Bool
is_bracketed d = starts_with d (codes "[") && ends_with d (codes "]")

and-true : (a b : Bool) → (a && b) ≡ true → (a ≡ true) × (b ≡ true)
and-true true b h = (refl, h)
and-true false b h = cc

starts-cons : (s : Text) (c : ℕ) → starts_with s (c ∷ []) ≡ true → (r : Text) × (s ≡ c ∷ r)
unfolding starts_with
starts-cons [] c h = cc
starts-cons (x ∷ s) c h = (s, ap (λ y. y ∷ s) ((==_iff x c).0 (and-true (x == c) _ h).0))

starts-prefix : (p s : Text) → starts_with (p ++ s) p ≡ true
unfolding starts_with
starts-prefix [] s = refl
starts-prefix (c ∷ p) s = (let same = (==_iff c c).1 refl in rw same (starts-prefix p s))

starts_self : (c : ℕ) (r : Text) → starts_with (c ∷ r) (c ∷ []) ≡ true
unfolding starts_with
starts_self c r = (let same = (==_iff c c).1 refl in rw same refl)

bracketed-parts :
    (d : Text) → is_bracketed d ≡ true → (m : Text) × (d ≡ codes "[" ++ (m ++ codes "]"))
unfolding ends_with
bracketed-parts d h =
    let (opens, closes) = and-true (starts_with d (codes "[")) _ h in
    let (rest, opening) = starts-cons d 91 opens in
    let (r, closing) = starts-cons (reverse d) 93 closes in
    let ending : d ≡ reverse r ++ 93 ∷ [] =
      sym (reverse-reverse d) ∙ ap reverse closing ∙ reverse-append (93 ∷ []) r in
    front (reverse r) rest opening ending
  where
    front :
        (s rest : Text)
        → d ≡ 91 ∷ rest
        → d ≡ s ++ 93 ∷ []
        → (m : Text) × (d ≡ codes "[" ++ (m ++ codes "]"))
    front [] rest opening e =
        let other : ◌≡◌ {A = ℕ} 91 93 = (let both = sym opening ∙ e in cc) in absurd (omega arith)
    front (x ∷ m) rest opening e =
        let first : x ≡ 91 = (let both = sym e ∙ opening in cc) in
        (m, e ∙ ap (λ y. y ∷ (m ++ 93 ∷ [])) first)

bracketed-is : (m : Text) → is_bracketed (codes "[" ++ (m ++ codes "]")) ≡ true
unfolding ends_with
bracketed-is m =
    let back : reverse (91 ∷ (m ++ 93 ∷ [])) ≡ 93 ∷ reverse (91 ∷ m) =
      reverse-append (91 ∷ m) (93 ∷ []) in
    rw (starts_self 91 (m ++ 93 ∷ []), back) (starts_self 93 (reverse (91 ∷ m)))

bracketed-inner :
    (m : Text) → take (length (codes "[" ++ (m ++ codes "]")) - 2) (m ++ codes "]") ≡ m
bracketed-inner m =
    let size : length (codes "[" ++ (m ++ codes "]")) - 2 ≡ length m =
      omega (arith, length-append m (93 ∷ [])) in
    rw size (take-append m (93 ∷ []))

kallsyms_owner-module :
    (parts : List Text) (m : Text) → NamesModule parts m → kallsyms_owner parts ≡ m
unfolding kallsyms_owner
kallsyms_owner-module parts m (a, b, c, rest, e) = rw (e, bracketed-is m) (bracketed-inner m)

kallsyms_owner-plain :
    (parts : List Text) → ((m : Text) → ¬ NamesModule parts m) → kallsyms_owner parts ≡ vmlinux
unfolding kallsyms_owner
kallsyms_owner-plain (a ∷ b ∷ c ∷ d ∷ rest) none_named = elim (Bool-cases (is_bracketed d)) [
  | inr plain ↦ rw plain refl
  | inl inside ↦
      let (m, e) = bracketed-parts d inside in
      absurd (none_named m (a, b, c, rest, ap (λ x. a ∷ b ∷ c ∷ x ∷ rest) e))
]
kallsyms_owner-plain (a ∷ b ∷ c ∷ []) none_named = refl
kallsyms_owner-plain (a ∷ b ∷ []) none_named = refl
kallsyms_owner-plain (a ∷ []) none_named = refl
kallsyms_owner-plain [] none_named = refl

-- A line has one owner, the one that is read.
IsOwner-iff : (parts : List Text) (o : Text) → IsOwner parts o ↔ (kallsyms_owner parts ≡ o)
unfolding kallsyms_owner
IsOwner-iff parts o = (
  λ h. elim h [
    | inl named ↦ kallsyms_owner-module parts o named
    | inr (plain, e) ↦ kallsyms_owner-plain parts plain ∙ sym e
  ],
  λ e. subst (IsOwner parts) e (read parts),
)
  where
    read : (parts : List Text) → IsOwner parts (kallsyms_owner parts)
    read (a ∷ b ∷ c ∷ d ∷ rest) = elim (Bool-cases (is_bracketed d)) [
      | inl inside ↦
          let (m, e) = bracketed-parts d inside in
          let named : NamesModule (a ∷ b ∷ c ∷ d ∷ rest) m =
            (a, b, c, rest, ap (λ x. a ∷ b ∷ c ∷ x ∷ rest) e) in
          subst (IsOwner (a ∷ b ∷ c ∷ d ∷ rest)) (sym (kallsyms_owner-module _ m named)) (inl named)
      | inr plain ↦ rw plain (
          inr (
            λ m (x, y, z, r, e).
                (let same : d ≡ codes "[" ++ (m ++ codes "]") = cc in
                  let marked : is_bracketed d ≡ true = ap is_bracketed same ∙ bracketed-is m in
                  let apart : true ≡ false = sym marked ∙ plain in cc),
            refl,
          ))
    ]
    read (a ∷ b ∷ c ∷ []) = inr (λ m (x, y, z, r, e). cc, refl)
    read (a ∷ b ∷ []) = inr (λ m (x, y, z, r, e). cc, refl)
    read (a ∷ []) = inr (λ m (x, y, z, r, e). cc, refl)
    read [] = inr (λ m (x, y, z, r, e). cc, refl)

some_inj : {a b : Text × Text} → ◌≡◌ {A = Option (Text × Text)} (some a) (some b) → a ≡ b
some_inj h = cc

is_text :
    (t : Text)
    → ((text_eq t (codes "T") || text_eq t (codes "W")) ≡ true)
      ↔ ((t ≡ codes "T") ⊎ (t ≡ codes "W"))
is_text t = ground (arith, text_eq_iff t (codes "T"), text_eq_iff t (codes "W"))

-- What the reader takes for the entry of a line is what the line says.
pub text_entry-IsTextLine :
    (parts : List Text) (name o : Text)
    → (text_entry parts ≡ some (name, o)) ↔ IsTextLine parts name o
unfolding text_entry
text_entry-IsTextLine [] name o = (λ h. cc, λ (a, t, rest, e, typed, owner). cc)
text_entry-IsTextLine (x ∷ []) name o = (λ h. cc, λ (a, t, rest, e, typed, owner). cc)
text_entry-IsTextLine (x ∷ y ∷ []) name o = (λ h. cc, λ (a, t, rest, e, typed, owner). cc)
text_entry-IsTextLine (x ∷ y ∷ s ∷ r) name o = (
  λ h. elim (Bool-cases (text_eq y (codes "T") || text_eq y (codes "W"))) [
    | inr other ↦ (let bad = rw (other, text_entry) at h in cc)
    | inl typed ↦
        let at = some_inj (rw (typed, text_entry) at h) in
        (
          x,
          y,
          r,
          ap (λ n. x ∷ y ∷ n ∷ r) (ap (λ (p : Text × Text). p.0) at),
          (is_text y).0 typed,
          (IsOwner-iff (x ∷ y ∷ s ∷ r) o).1 (ap (λ (p : Text × Text). p.1) at),
        )
  ],
  λ (a, t, rest, e, typed, owner).
      (let same : t ≡ y = cc in
        let name_is : s ≡ name = cc in
        let is = (is_text y).1 (subst (λ u. (u ≡ codes "T") ⊎ (u ≡ codes "W")) same typed) in
        rw (is, text_entry) (ap some (pair name_is ((IsOwner-iff (x ∷ y ∷ s ∷ r) o).0 owner)))),
)
  where
    pair : {a b c d : Text} → a ≡ b → c ≡ d → ◌≡◌ {A = Text × Text} (a, c) (b, d)
    pair e f = cc

starts-drop : (p s : Text) → starts_with s p ≡ true → s ≡ p ++ drop (length p) s
unfolding starts_with
starts-drop [] s h = refl
starts-drop (c ∷ p) [] h = cc
starts-drop (c ∷ p) (x ∷ s) h =
    let (first, later) = and-true (x == c) (starts_with s p) h in
    let head = (==_iff x c).0 first in rw head (ap (λ y. c ∷ y) (starts-drop p s later))

starts-shorter : (p q s : Text) → starts_with s (p ++ q) ≡ true → starts_with s p ≡ true
unfolding starts_with
starts-shorter [] q s h = refl
starts-shorter (c ∷ p) q [] h = cc
starts-shorter (c ∷ p) q (x ∷ s) h =
    let (first, later) = and-true (x == c) (starts_with s (p ++ q)) h in
    rw first (starts-shorter p q s later)

not-longer : (p q s : Text) → starts_with s p ≡ false → starts_with s (p ++ q) ≡ false
not-longer p q s h = elim (Bool-cases (starts_with s (p ++ q))) [
  | inr shut ↦ shut
  | inl long ↦ (let short = starts-shorter p q s long in cc)
]

-- The first of the prefixes is one of each other, so that no other is ever used.
exported_name-first :
    (s : Text)
    → exported_name ksymtab_prefixes s ≡ (
        if starts_with s (codes "__ksymtab_")
        then some_nonempty (drop (length (codes "__ksymtab_")) s)
        else none)
unfolding exported_name
exported_name-first s = elim (Bool-cases (starts_with s (codes "__ksymtab_"))) [
  | inl on ↦ rw on refl
  | inr off ↦
      let gpl = not-longer (codes "__ksymtab_") (codes "gpl_") s off in
      let unused = not-longer (codes "__ksymtab_") (codes "unused_") s off in
      let unused_gpl = not-longer (codes "__ksymtab_") (codes "unused_gpl_") s off in
      rw (off, gpl, unused, unused_gpl) refl
]

some_nonempty_iff : (u name : Text) → (some_nonempty u ≡ some name) ↔ ((u ≡ name) × (name ≢ []))
unfolding some_nonempty
some_nonempty_iff [] name = (λ h. cc, λ (same, named). absurd (named (sym same)))
some_nonempty_iff (c ∷ u) name =
    (λ h. (let same : c ∷ u ≡ name = cc in (same, λ empty. cc)), λ (same, named). ap some same)

exported_name_iff :
    (s name : Text)
    → (exported_name ksymtab_prefixes s ≡ some name)
      ↔ ((s ≡ codes "__ksymtab_" ++ name) × (name ≢ []))
exported_name_iff s name = rw (exported_name-first s) (go (starts_with s prefix) refl)
  where
    prefix : Text
    prefix = codes "__ksymtab_"

    go :
        (b : Bool)
        → starts_with s prefix ≡ b
        → ((if b then some_nonempty (drop (length prefix) s) else none) ≡ some name)
          ↔ ((s ≡ prefix ++ name) × (name ≢ []))
    go false off = (
      λ h. cc,
      λ (same, named).
          (let on : starts_with s prefix ≡ true =
              ap (λ u. starts_with u prefix) same ∙ starts-prefix prefix name in
            let apart : true ≡ false = sym on ∙ off in cc),
    )
    go true on =
        let whole = starts-drop prefix s on in
        let rest = some_nonempty_iff (drop (length prefix) s) name in
        (
          λ h. (let (same, named) = rest.0 h in (whole ∙ ap (λ u. prefix ++ u) same, named)),
          λ (same, named). rest.1 (ap (drop (length prefix)) same ∙ drop-append prefix name, named),
        )

owned_iff :
    (owner name o : Text) (found : Option Text)
    → (owned owner found ≡ some (name, o)) ↔ ((found ≡ some name) × (owner ≡ o))
unfolding owned
owned_iff owner name o none = (λ h. cc, λ (found, same). cc)
owned_iff owner name o (some n) = (
  λ h.
      (let at = some_inj h in
        (ap (λ (p : Text × Text). some p.0) at, ap (λ (p : Text × Text). p.1) at)),
  λ (found, same). cc,
)

pub export_entry-IsExportLine :
    (parts : List Text) (name o : Text)
    → (export_entry parts ≡ some (name, o)) ↔ IsExportLine parts name o
unfolding export_entry
export_entry-IsExportLine [] name o = (λ h. cc, λ (a, t, rest, e, named, owner). cc)
export_entry-IsExportLine (x ∷ []) name o = (λ h. cc, λ (a, t, rest, e, named, owner). cc)
export_entry-IsExportLine (x ∷ y ∷ []) name o = (λ h. cc, λ (a, t, rest, e, named, owner). cc)
export_entry-IsExportLine (x ∷ y ∷ s ∷ r) name o =
    let parts = x ∷ y ∷ s ∷ r in
    let both = owned_iff (kallsyms_owner parts) name o (exported_name ksymtab_prefixes s) in
    let symbol = exported_name_iff s name in
    let owner = IsOwner-iff parts o in
    (
      λ h.
          (let (found, own) = both.0 h in
            let (same, named) = symbol.0 found in
            (x, y, r, ap (λ n. x ∷ y ∷ n ∷ r) same, named, owner.1 own)),
      λ (a, t, rest, e, named, own).
          (let same : s ≡ codes "__ksymtab_" ++ name = cc in
            both.1 (symbol.1 (same, named), owner.0 own)),
    )
