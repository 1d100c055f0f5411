-- ===== src/Btf/Layouts/Types.antt =====
-- The types of a source that have a layout, and when two of them are the same, described apart from the keys.
use mathlib.Core.Path.{subst}
use binary_kernel_code_mappi.Prelude.{
  ℕ, ◌≡◌, ◌≢◌, refl, sym, ◌∙◌, ◌⊎◌, inl, inr, true, false, List, [], ◌∷◌, ◌++◌, Option, none, some,
  Text, codes, text_eq, text_eq_iff, if◌then◌else◌, In, Bool-cases,
}
use binary_kernel_code_mappi.Btf.{
  BtfKind, typedef, const, volatile, restrict, ptr, array, struct, union, enum, enum64, func_proto,
  func, int, float, void, other_kind, BtfType, get,
}
use binary_kernel_code_mappi.Btf.Sources.{BtfSource}
use binary_kernel_code_mappi.Btf.Layouts.{layout_kind, is_anonymous, name_text}

-- A type of a source by its number.
abbrev pub Entry : Type 0
Entry = BtfSource × ℕ

abbrev pub entries_of : BtfSource → List ℕ → List Entry
entries_of src [] = []
entries_of src (tid ∷ tids) = (src, tid) ∷ entries_of src tids

abbrev pub entries : List (BtfSource × List ℕ) → List Entry
entries [] = []
entries ((src, tids) ∷ sources) = entries_of src tids ++ entries sources

abbrev pub HasLayout : BtfType → Type 0
HasLayout o =
    (o.kind ≡ struct)
    ⊎ ((o.kind ≡ union) ⊎ ((o.kind ≡ enum) ⊎ ((o.kind ≡ enum64) ⊎ (o.kind ≡ typedef))))

abbrev pub HasName : BtfType → Text → Type 0
HasName o name = (o.name ≡ some name) × (name ≢ []) × (name ≢ codes "(anon)")

abbrev pub IsUnnamed : BtfType → Type 0
IsUnnamed o = (name : Text) → ¬ HasName o name

abbrev pub IsTypeAt : Entry → BtfType → Type 0
IsTypeAt (src, tid) o = get src.by_id tid ≡ some o

-- A type of one of the five kinds that have a layout.
abbrev pub IsLaidOut : Entry → Type 0
IsLaidOut e = (o : BtfType) × IsTypeAt e o × HasLayout o

-- Types of one kind, of the five, and of one name; or without a name, with the label of the source and the number.
abbrev pub IsSameType : Entry → Entry → Type 0
IsSameType (src, tid) (src', tid') =
    (o : BtfType) × (o' : BtfType) × IsTypeAt (src, tid) o
    × IsTypeAt (src', tid') o'
    × HasLayout o
    × (o.kind ≡ o'.kind)
    × (((name : Text) × HasName o name × HasName o' name)
        ⊎ (IsUnnamed o × IsUnnamed o' × (src.label ≡ src'.label) × (tid ≡ tid')))

-- No two of the entries are the same type.
abbrev pub AreApart : List Entry → Type 0
AreApart [] = Unit {0}
AreApart (e ∷ es) = ((other : Entry) → In other es → ¬ IsSameType e other) × AreApart es

abbrev pub kind_of : Text → BtfKind
unfolding text_eq
kind_of t =
    if text_eq t (codes "STRUCT")
    then struct
    else if text_eq t (codes "UNION")
    then union
    else if text_eq t (codes "ENUM")
    then enum
    else if text_eq t (codes "ENUM64")
    then enum64
    else typedef

pub layout_kind-kind_of : (k : BtfKind) (t : Text) → layout_kind k ≡ some t → k ≡ kind_of t
unfolding layout_kind text_eq
layout_kind-kind_of struct t h =
    (let e : t ≡ codes "STRUCT" = cc in subst (λ x. struct ≡ kind_of x) (sym e) refl)
layout_kind-kind_of union t h =
    (let e : t ≡ codes "UNION" = cc in subst (λ x. union ≡ kind_of x) (sym e) refl)
layout_kind-kind_of enum t h =
    (let e : t ≡ codes "ENUM" = cc in subst (λ x. enum ≡ kind_of x) (sym e) refl)
layout_kind-kind_of enum64 t h =
    (let e : t ≡ codes "ENUM64" = cc in subst (λ x. enum64 ≡ kind_of x) (sym e) refl)
layout_kind-kind_of typedef t h =
    (let e : t ≡ codes "TYPEDEF" = cc in subst (λ x. typedef ≡ kind_of x) (sym e) refl)
layout_kind-kind_of const t h = cc
layout_kind-kind_of volatile t h = cc
layout_kind-kind_of restrict t h = cc
layout_kind-kind_of ptr t h = cc
layout_kind-kind_of array t h = cc
layout_kind-kind_of func_proto t h = cc
layout_kind-kind_of func t h = cc
layout_kind-kind_of int t h = cc
layout_kind-kind_of float t h = cc
layout_kind-kind_of void t h = cc
layout_kind-kind_of (other_kind k) t h = cc

pub layout_kind-layout : (o : BtfType) → HasLayout o → (t : Text) × (layout_kind o.kind ≡ some t)
unfolding layout_kind
layout_kind-layout o (inl e) = rw e (codes "STRUCT", refl)
layout_kind-layout o (inr (inl e)) = rw e (codes "UNION", refl)
layout_kind-layout o (inr (inr (inl e))) = rw e (codes "ENUM", refl)
layout_kind-layout o (inr (inr (inr (inl e)))) = rw e (codes "ENUM64", refl)
layout_kind-layout o (inr (inr (inr (inr e)))) = rw e (codes "TYPEDEF", refl)

pub layout-kind :
    (k : BtfKind) (t : Text)
    → layout_kind k ≡ some t
    → (k ≡ struct) ⊎ ((k ≡ union) ⊎ ((k ≡ enum) ⊎ ((k ≡ enum64) ⊎ (k ≡ typedef))))
unfolding layout_kind
layout-kind struct t h = inl refl
layout-kind union t h = inr (inl refl)
layout-kind enum t h = inr (inr (inl refl))
layout-kind enum64 t h = inr (inr (inr (inl refl)))
layout-kind typedef t h = inr (inr (inr (inr refl)))
layout-kind const t h = cc
layout-kind volatile t h = cc
layout-kind restrict t h = cc
layout-kind ptr t h = cc
layout-kind array t h = cc
layout-kind func_proto t h = cc
layout-kind func t h = cc
layout-kind int t h = cc
layout-kind float t h = cc
layout-kind void t h = cc
layout-kind (other_kind k) t h = cc

-- A name is missing, or it names the type.
pub is_anonymous-unnamed :
    (name : Option Text)
    → is_anonymous name ≡ true
    → (n : Text) → ¬ ((name ≡ some n) × (n ≢ []) × (n ≢ codes "(anon)"))
unfolding is_anonymous
is_anonymous-unnamed none h n (e, full, x) = cc
is_anonymous-unnamed (some []) h n (e, full, x) = full (let same : [] ≡ n = cc in sym same)
is_anonymous-unnamed (some (c ∷ s)) h n (e, full, x) =
    x (let same : c ∷ s ≡ n = cc in sym same ∙ (text_eq_iff (c ∷ s) (codes "(anon)")).0 h)

pub is_anonymous-named :
    (name : Option Text)
    → is_anonymous name ≡ false
    → (name ≡ some (name_text name)) × (name_text name ≢ []) × (name_text name ≢ codes "(anon)")
unfolding is_anonymous name_text
is_anonymous-named none h = cc
is_anonymous-named (some []) h = cc
is_anonymous-named (some (c ∷ s)) h = (
  refl,
  λ bad. cc,
  λ same.
      (let known : text_eq (c ∷ s) (codes "(anon)") ≡ true =
          (text_eq_iff (c ∷ s) (codes "(anon)")).1 same in
        let bad : true ≡ false = sym known ∙ h in cc),
)

pub HasName-named : (o : BtfType) (name : Text) → HasName o name → is_anonymous o.name ≡ false
HasName-named o name has = elim (Bool-cases (is_anonymous o.name)) [
  | inr is_named ↦ is_named
  | inl unnamed ↦ absurd (is_anonymous-unnamed o.name unnamed name has)
]

pub IsUnnamed-anonymous : (o : BtfType) → IsUnnamed o → is_anonymous o.name ≡ true
IsUnnamed-anonymous o unnamed = elim (Bool-cases (is_anonymous o.name)) [
  | inl a ↦ a
  | inr is_named ↦ absurd (unnamed (name_text o.name) (is_anonymous-named o.name is_named))
]
