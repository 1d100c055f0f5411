-- ===== src/Btf/Layouts/Sameness.antt =====
-- Two types have one key exactly if they are the same type.
use mathlib.Core.Path.{subst}
use binary_kernel_code_mappi.Prelude.{
  ℕ, ◌≡◌, refl, sym, ap, ◌∙◌, ◌⊎◌, inl, inr, true, false, Option, none, some, Text, Bool-cases,
  Option-cases,
}
use binary_kernel_code_mappi.Btf.{BtfType, get}
use binary_kernel_code_mappi.Btf.Sources.{BtfSource}
use binary_kernel_code_mappi.Btf.Layouts.{
  Key, named, anonymous, layout_kind, is_anonymous, key_for, name_text, layout_key,
}
use binary_kernel_code_mappi.Btf.Layouts.Types.{
  Entry, HasName, IsUnnamed, IsTypeAt, IsSameType, kind_of, layout_kind-kind_of, layout_kind-layout,
  layout-kind, is_anonymous-unnamed, is_anonymous-named, HasName-named, IsUnnamed-anonymous,
}

pub layout_key-of :
    (src : BtfSource) (tid : ℕ) (o : BtfType) (t : Text)
    → IsTypeAt (src, tid) o
    → layout_kind o.kind ≡ some t
    → layout_key src tid ≡ some (key_for t src.label tid o.name)
unfolding layout_key
layout_key-of src tid o t found kind = rw (found, kind, layout_key) refl

-- What has a key has one of the five kinds.
pub layout_key-type :
    (src : BtfSource) (tid : ℕ) (key : Key)
    → layout_key src tid ≡ some key
    → (o : BtfType) × (t : Text) × IsTypeAt (src, tid) o
      × (layout_kind o.kind ≡ some t)
      × (key ≡ key_for t src.label tid o.name)
unfolding layout_key
layout_key-type src tid key h = elim (Option-cases (get src.by_id tid)) [
  | inl missing ↦
      absurd (let none_there : layout_key src tid ≡ none = rw (missing, layout_key) refl in cc)
  | inr (o, found) ↦ elim (Option-cases (layout_kind o.kind)) [
    | inl other ↦
        absurd
          (let none_there : layout_key src tid ≡ none = rw (found, other, layout_key) refl in cc)
    | inr (t, kind) ↦ (o, t, found, kind, let known = layout_key-of src tid o t found kind in cc)
  ]
]

key_for-anonymous :
    (t l : Text) (i : ℕ) (n : Option Text)
    → is_anonymous n ≡ true
    → key_for t l i n ≡ anonymous t l i
unfolding key_for
key_for-anonymous t l i n h = rw h refl

key_for-named :
    (t l : Text) (i : ℕ) (n : Option Text)
    → is_anonymous n ≡ false
    → key_for t l i n ≡ named t (name_text n)
unfolding key_for
key_for-named t l i n h = rw h refl

-- Two types have one key exactly if they are the same type.
pub key-IsSameType :
    (e w : Entry) (key : Key)
    → layout_key e.0 e.1 ≡ some key
    → layout_key w.0 w.1 ≡ some key
    → IsSameType e w
key-IsSameType (src, tid) (src', tid') key h h' =
    let (o, t, at, kind, e) = layout_key-type src tid key h in
    let (o', t', at', kind', e') = layout_key-type src' tid' key h' in
    let (same_t, names) = same_names t t' o o' (sym e ∙ e') in
    (
      o,
      o',
      at,
      at',
      layout-kind o.kind t kind,
      layout_kind-kind_of o.kind t kind
          ∙ ap kind_of same_t
          ∙ sym (layout_kind-kind_of o'.kind t' kind'),
      names,
    )
  where
    same_names :
        (t t' : Text) (o o' : BtfType)
        → key_for t src.label tid o.name ≡ key_for t' src'.label tid' o'.name
        → (t ≡ t')
          × (((name : Text) × HasName o name × HasName o' name)
              ⊎ (IsUnnamed o × IsUnnamed o' × (src.label ≡ src'.label) × (tid ≡ tid')))
    same_names t t' o o' keys = elim (Bool-cases (is_anonymous o.name)) [
      | inl a ↦
          let left = key_for-anonymous t src.label tid o.name a in
          elim (Bool-cases (is_anonymous o'.name)) [
            | inl a' ↦
                let right = key_for-anonymous t' src'.label tid' o'.name a' in
                let both : anonymous t src.label tid ≡ anonymous t' src'.label tid' =
                  sym left ∙ keys ∙ right in
                (cc, inr (is_anonymous-unnamed o.name a, is_anonymous-unnamed o'.name a', cc, cc))
            | inr n' ↦
                let right = key_for-named t' src'.label tid' o'.name n' in
                absurd (
                  let both : anonymous t src.label tid ≡ named t' (name_text o'.name) =
                    sym left ∙ keys ∙ right in
                  cc)
          ]
      | inr n ↦
          let left = key_for-named t src.label tid o.name n in
          elim (Bool-cases (is_anonymous o'.name)) [
            | inl a' ↦
                let right = key_for-anonymous t' src'.label tid' o'.name a' in
                absurd (
                  let both : named t (name_text o.name) ≡ anonymous t' src'.label tid' =
                    sym left ∙ keys ∙ right in
                  cc)
            | inr n' ↦
                let right = key_for-named t' src'.label tid' o'.name n' in
                let both : named t (name_text o.name) ≡ named t' (name_text o'.name) =
                  sym left ∙ keys ∙ right in
                let same : name_text o.name ≡ name_text o'.name = cc in
                (
                  cc,
                  inl (
                    name_text o'.name,
                    subst (HasName o) same (is_anonymous-named o.name n),
                    is_anonymous-named o'.name n',
                  ),
                )
          ]
    ]

pub IsSameType-key :
    (e w : Entry)
    → IsSameType e w
    → (key : Key) × (layout_key e.0 e.1 ≡ some key) × (layout_key w.0 w.1 ≡ some key)
IsSameType-key (src, tid) (src', tid') (o, o', at, at', laid, kinds, names) =
    let (t, kind) = layout_kind-layout o laid in
    let kind' : layout_kind o'.kind ≡ some t = ap layout_kind (sym kinds) ∙ kind in
    (
      key_for t src.label tid o.name,
      layout_key-of src tid o t at kind,
      layout_key-of src' tid' o' t at' kind' ∙ ap some (sym (same t)),
    )
  where
    same : (t : Text) → key_for t src.label tid o.name ≡ key_for t src'.label tid' o'.name
    same t = elim names [
      | inl (name, has, has') ↦
          key_for-named t src.label tid o.name (HasName-named o name has)
          ∙ ap (λ (n : Option Text). named t (name_text n)) (has.0 ∙ sym has'.0)
          ∙ sym (key_for-named t src'.label tid' o'.name (HasName-named o' name has'))
      | inr (un, un', labels, ids) ↦
          key_for-anonymous t src.label tid o.name (IsUnnamed-anonymous o un)
          ∙ (let both : anonymous t src.label tid ≡ anonymous t src'.label tid' = cc in both)
          ∙ sym (key_for-anonymous t src'.label tid' o'.name (IsUnnamed-anonymous o' un'))
    ]
