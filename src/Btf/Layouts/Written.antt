-- ===== src/Btf/Layouts/Written.antt =====
-- Which of the marked types are written.
use mathlib.Core.Path.{subst}
use binary_kernel_code_mappi.Prelude.{
  ℕ, ◌≡◌, refl, sym, ap, ◌∙◌, ◌↔◌, inl, inr, true, false, List, [], ◌∷◌, ◌++◌, none, some, In,
  In-append_left, In-append_right, In-append_cases, Bool-cases, Option-cases,
}
use binary_kernel_code_mappi.Btf.Sources.{BtfSource}
use binary_kernel_code_mappi.Btf.Layouts.{
  Key, has_key, layout_key, layout_ids, add_source, emit_layouts,
}
use binary_kernel_code_mappi.Btf.Layouts.Keys.{keys_of, all_keys, IsDistinctKeys, has_key-In}
use binary_kernel_code_mappi.Btf.Layouts.Once.{emit_layouts-keys}
use binary_kernel_code_mappi.Btf.Layouts.Types.{
  Entry, entries_of, entries, IsLaidOut, IsSameType, AreApart, layout_kind-layout, layout-kind,
}
use binary_kernel_code_mappi.Btf.Layouts.Sameness.{
  layout_key-of, layout_key-type, key-IsSameType, IsSameType-key,
}

keys : List Entry → List Key
keys [] = []
keys (e ∷ es) =
    let rest = keys es in elim (layout_key e.0 e.1) [ none ↦ rest | some key ↦ key ∷ rest ]

keys-entries_of :
    (src : BtfSource) (tids : List ℕ) (es : List Entry)
    → keys (entries_of src tids ++ es) ≡ keys_of src tids ++ keys es
unfolding keys
keys-entries_of src [] es = refl
keys-entries_of src (tid ∷ tids) es = elim (Option-cases (layout_key src tid)) [
  | inl plain ↦ rw (plain, keys, keys_of) (keys-entries_of src tids es)
  | inr (key, keyed) ↦ rw (keyed, keys, keys_of) (ap (λ ks. key ∷ ks) (keys-entries_of src tids es))
]

keys-entries : (sources : List (BtfSource × List ℕ)) → keys (entries sources) ≡ all_keys sources
unfolding keys
keys-entries [] = refl
keys-entries ((src, tids) ∷ sources) =
    keys-entries_of src tids (entries sources)
    ∙ ap (λ ks. keys_of src tids ++ ks) (keys-entries sources)

keys-cons-plain :
    (e : Entry) (es : List Entry) → layout_key e.0 e.1 ≡ none → keys (e ∷ es) ≡ keys es
unfolding keys
keys-cons-plain e es plain = rw (plain, keys) refl

keys-cons :
    (e : Entry) (es : List Entry) (key : Key)
    → layout_key e.0 e.1 ≡ some key
    → keys (e ∷ es) ≡ key ∷ keys es
unfolding keys
keys-cons e es key keyed = rw (keyed, keys) refl

keys-In :
    (es : List Entry) (key : Key)
    → In key (keys es) ↔ ((e : Entry) × In e es × (layout_key e.0 e.1 ≡ some key))
unfolding keys
keys-In [] key = (λ bad. absurd bad, λ (e, bad, k). absurd bad)
keys-In (e ∷ es) key = elim (Option-cases (layout_key e.0 e.1)) [
  | inl plain ↦ rw (keys-cons-plain e es plain) (
    λ at. (let (w, l, k) = (keys-In es key).0 at in (w, inr l, k)),
    λ (w, l, k). elim l [
      | inr l ↦ (keys-In es key).1 (w, l, k)
      | inl same ↦ absurd (
          let none_there : layout_key w.0 w.1 ≡ none =
            subst (λ (x : Entry). layout_key x.0 x.1 ≡ none) (sym same) plain in
          cc)
    ],
  )
  | inr (first, keyed) ↦ rw (keys-cons e es first keyed) (
    λ at. elim at [
      | inl same ↦ (e, inl refl, keyed ∙ ap some (sym same))
      | inr later ↦ (let (w, l, k) = (keys-In es key).0 later in (w, inr l, k))
    ],
    λ (w, l, k). elim l [
      | inr l ↦ inr ((keys-In es key).1 (w, l, k))
      | inl same ↦
          (let again : layout_key w.0 w.1 ≡ some first =
              subst (λ (x : Entry). layout_key x.0 x.1 ≡ some first) (sym same) keyed in
            inl cc)
    ],
  )
]

keys-AreApart : (es : List Entry) → IsDistinctKeys (keys es) → AreApart es
keys-AreApart [] distinct = tt
keys-AreApart (e ∷ es) distinct = elim (Option-cases (layout_key e.0 e.1)) [
  | inl plain ↦ (
    λ other at same. (let (key, keyed, k) = IsSameType-key e other same in cc),
    keys-AreApart es (subst IsDistinctKeys (keys-cons-plain e es plain) distinct),
  )
  | inr (key, keyed) ↦
      let (new, rest) = subst IsDistinctKeys (keys-cons e es key keyed) distinct in
      (
        λ other at same.
            (let (key', keyed', k) = IsSameType-key e other same in
              let again : layout_key other.0 other.1 ≡ some key = k ∙ sym keyed' ∙ keyed in
              let old = (has_key-In (keys es) key).1 ((keys-In es key).1 (other, at, again)) in
              let bad : true ≡ false = sym old ∙ new in cc),
        keys-AreApart es rest,
      )
]

entries_of-In :
    (src : BtfSource) (tids : List ℕ) (e : Entry)
    → In e (entries_of src tids) ↔ (In e.1 tids × (e.0 ≡ src))
entries_of-In src [] e = (λ bad. absurd bad, λ (bad, x). absurd bad)
entries_of-In src (tid ∷ tids) e = (
  λ at. elim at [
    | inl same ↦ (inl (ap (λ (x : Entry). x.1) same), ap (λ (x : Entry). x.0) same)
    | inr later ↦ (let (l, x) = (entries_of-In src tids e).0 later in (inr l, x))
  ],
  λ (l, x). elim l [
    | inl same ↦ inl (let both : (e.0, e.1) ≡ (src, tid) = cc in both)
    | inr later ↦ inr ((entries_of-In src tids e).1 (later, x))
  ],
)

layout_ids-In :
    (src : BtfSource) (tids : List ℕ) (before : List Key) (tid : ℕ)
    → In tid (layout_ids src tids before).0
    → In tid tids × ((key : Key) × (layout_key src tid ≡ some key))
unfolding layout_ids
layout_ids-In src [] before tid at = absurd at
layout_ids-In src (t ∷ tids) before tid at = elim (Option-cases (layout_key src t)) [
  | inl plain ↦
      (let (l, k) = layout_ids-In src tids before tid (rw (plain, layout_ids) at at) in (inr l, k))
  | inr (key, keyed) ↦ elim (Bool-cases (has_key before key)) [
    | inl old ↦
        (let (l, k) = layout_ids-In src tids before tid (rw (keyed, old, layout_ids) at at) in
          (inr l, k))
    | inr new ↦
        let here : In tid (t ∷ (layout_ids src tids (key ∷ before)).0) =
          rw (keyed, new, layout_ids) at at in
        elim here [
          | inl same ↦ (inl same, (key, ap (layout_key src) same ∙ keyed))
          | inr later ↦ (let (l, k) = layout_ids-In src tids (key ∷ before) tid later in (inr l, k))
        ]
  ]
]

entries-add_source :
    (src : BtfSource) (ids : List ℕ) (sources : List (BtfSource × List ℕ))
    → entries (add_source src ids sources) ≡ entries_of src ids ++ entries sources
unfolding add_source
entries-add_source src [] sources = refl
entries-add_source src (tid ∷ tids) sources = refl

-- What is written was marked, and has a key.
emit_layouts-marked :
    (sources : List (BtfSource × List ℕ)) (before : List Key) (e : Entry)
    → In e (entries (emit_layouts sources before))
    → In e (entries sources) × ((key : Key) × (layout_key e.0 e.1 ≡ some key))
unfolding emit_layouts
emit_layouts-marked [] before e at = absurd at
emit_layouts-marked ((src, marked) ∷ sources) before e at =
    let ids = layout_ids src marked before in
    let here = subst (In e) (entries-add_source src ids.0 (emit_layouts sources ids.1)) at in
    elim (In-append_cases e (entries_of src ids.0) _ here) [
      | inl now ↦
          (let (l, own) = (entries_of-In src ids.0 e).0 now in
            let (m, (key, k)) = layout_ids-In src marked before e.1 l in
            (
              In-append_left e _ (entries sources) ((entries_of-In src marked e).1 (m, own)),
              (key, subst (λ (s : BtfSource). layout_key s e.1 ≡ some key) (sym own) k),
            ))
      | inr later ↦
          (let (m, k) = emit_layouts-marked sources ids.1 e later in
            (In-append_right e (entries_of src marked) _ m, k))
    ]

-- What is written are marked types of the kinds STRUCT, UNION, ENUM, ENUM64 and TYPEDEF; for each marked type of
-- these kinds a type of its kind and name is written; and no two types of one kind and name are written. Of types
-- without a name, or named "(anon)", those of one kind, number and label of the source count as one. Written are
-- the numbers that main hands to dump_c_for_ids.
pub emit_layouts-once :
    (sources : List (BtfSource × List ℕ))
    → AreApart (entries (emit_layouts sources []))
      × ((e : Entry)
          → In e (entries (emit_layouts sources []))
          → In e (entries sources) × IsLaidOut e)
      × ((e : Entry)
          → In e (entries sources)
          → IsLaidOut e
          → (w : Entry) × In w (entries (emit_layouts sources [])) × IsSameType e w)
emit_layouts-once sources =
    let (distinct, covered) = emit_layouts-keys sources in
    let out = emit_layouts sources [] in
    (
      keys-AreApart (entries out) (subst IsDistinctKeys (sym (keys-entries out)) distinct),
      λ e at.
          (let (marked, (key, k)) = emit_layouts-marked sources [] e at in
            let (o, t, found, kind, same) = layout_key-type e.0 e.1 key k in
            (marked, (o, found, layout-kind o.kind t kind))),
      λ e at (o, found, laid).
          (let (t, kind) = layout_kind-layout o laid in
            let keyed = layout_key-of e.0 e.1 o t found kind in
            let wanted =
              subst (In _) (keys-entries sources)
                ((keys-In (entries sources) _).1 (e, at, keyed)) in
            let (w, there, k) =
              (keys-In (entries out) _).0
                (subst (In _) (sym (keys-entries out)) ((covered _).1 wanted)) in
            (w, there, key-IsSameType e w _ keyed k)),
    )
