-- ===== src/Btf/Layouts/Once.antt =====
-- Every key of a marked type is written once.
use mathlib.Core.Path.{subst}
use binary_kernel_code_mappi.Prelude.{
  In-append_left, In-append_right, In-append_cases, ℕ, ◌≡◌, refl, sym, ap, ◌∙◌, ◌⊎◌, ◌↔◌, inl, inr,
  true, false, List, [], ◌∷◌, ◌++◌, some, In, Bool-cases, Option-cases,
}
use binary_kernel_code_mappi.Btf.Sources.{BtfSource}
use binary_kernel_code_mappi.Btf.Layouts.{
  Key, has_key, layout_key, layout_ids, add_source, emit_layouts,
}
use binary_kernel_code_mappi.Btf.Layouts.Keys.{
  has_key-cons, has_key-tail, keys_of, all_keys, IsDistinctKeys, has_key-In, IsDistinctKeys-append,
}

-- The keys `out` are distinct, new, and with `before` they are the keys `wanted`; `after` holds both.
record Covers (before wanted out after : List Key) : Type 0 where
  distinct : IsDistinctKeys out
  fresh : (key : Key) → In key out → has_key before key ≡ false
  from : (key : Key) → In key out → In key wanted
  covered : (key : Key) → In key wanted → has_key after key ≡ true
  after_in : (key : Key) → has_key after key ≡ true → In key out ⊎ (has_key before key ≡ true)
  out_in : (key : Key) → In key out → has_key after key ≡ true
  before_in : (key : Key) → has_key before key ≡ true → has_key after key ≡ true

Covers-nil : (before : List Key) → Covers before [] [] before
Covers-nil before = record {
  distinct = tt;
  fresh = λ key bad. absurd bad;
  from = λ key bad. absurd bad;
  covered = λ key bad. absurd bad;
  after_in = λ key h. inr h;
  out_in = λ key bad. absurd bad;
  before_in = λ key h. h;
}

Covers-append :
    (a b c wanted wanted' out out' : List Key)
    → Covers a wanted out b
    → Covers b wanted' out' c
    → Covers a (wanted ++ wanted') (out ++ out') c
Covers-append a b c wanted wanted' out out' x y = record {
  distinct = IsDistinctKeys-append out out' x.distinct y.distinct (λ key at.
      elim (Bool-cases (has_key out key)) [
        | inr absent ↦ absent
        | inl there ↦
            let old = x.out_in key ((has_key-In out key).0 there) in let new = y.fresh key at in cc
      ]);
  fresh = λ key at. elim (Bool-cases (has_key a key)) [
    | inr absent ↦ absent
    | inl old ↦ elim (In-append_cases key out out' at) [
      | inl now ↦ let new = x.fresh key now in cc
      | inr later ↦ let kept = x.before_in key old in let new = y.fresh key later in cc
    ]
  ];
  from = λ key at. elim (In-append_cases key out out' at) [
    | inl now ↦ In-append_left key wanted wanted' (x.from key now)
    | inr later ↦ In-append_right key wanted wanted' (y.from key later)
  ];
  covered = λ key at. elim (In-append_cases key wanted wanted' at) [
    | inl now ↦ y.before_in key (x.covered key now)
    | inr later ↦ y.covered key later
  ];
  after_in = λ key h. elim (y.after_in key h) [
    | inl later ↦ inl (In-append_right key out out' later)
    | inr mid ↦ elim (x.after_in key mid) [
      | inl now ↦ inl (In-append_left key out out' now)
      | inr old ↦ inr old
    ]
  ];
  out_in = λ key at. elim (In-append_cases key out out' at) [
    | inl now ↦ y.before_in key (x.out_in key now)
    | inr later ↦ y.out_in key later
  ];
  before_in = λ key h. y.before_in key (x.before_in key h);
}

-- One type: its key is new and is written, or was written before.
Covers-new :
    (before : List Key) (key : Key)
    → has_key before key ≡ false
    → Covers before (key ∷ []) (key ∷ []) (key ∷ before)
unfolding has_key
Covers-new before key new = record {
  distinct = (refl, tt);
  fresh = λ k at. elim at [ inl same ↦ rw same new | inr bad ↦ absurd bad ];
  from = λ k at. at;
  covered = λ k at.
      (has_key-In (key ∷ before) k).1 (elim at [ inl same ↦ inl same | inr bad ↦ absurd bad ]);
  after_in =
      λ k h. elim (has_key-cons key k before h) [ inl same ↦ inl (inl same) | inr old ↦ inr old ];
  out_in = λ k at.
      (has_key-In (key ∷ before) k).1 (elim at [ inl same ↦ inl same | inr bad ↦ absurd bad ]);
  before_in = λ k h. has_key-tail key k before h;
}

Covers-old :
    (before : List Key) (key : Key) → has_key before key ≡ true → Covers before (key ∷ []) [] before
Covers-old before key old = record {
  distinct = tt;
  fresh = λ k bad. absurd bad;
  from = λ k bad. absurd bad;
  covered = λ k at. elim at [ inl same ↦ rw same old | inr bad ↦ absurd bad ];
  after_in = λ k h. inr h;
  out_in = λ k bad. absurd bad;
  before_in = λ k h. h;
}

Covers-over :
    (before : List Key) {wanted wanted' out out' after after' : List Key}
    → wanted ≡ wanted'
    → out ≡ out'
    → after ≡ after'
    → Covers before wanted out after
    → Covers before wanted' out' after'
Covers-over before {wanted} {wanted'} {out} {out'} {after} {after'} e f g x =
    subst (λ w. Covers before w out' after') e
      (subst (λ o. Covers before wanted o after') f (subst (Covers before wanted out) g x))

keys_of-cons :
    (src : BtfSource) (tid : ℕ) (tids : List ℕ) (key : Key)
    → layout_key src tid ≡ some key
    → keys_of src (tid ∷ tids) ≡ key ∷ keys_of src tids
keys_of-cons src tid tids key keyed = rw (keyed, keys_of) refl

layout_ids-Covers :
    (src : BtfSource) (tids : List ℕ) (before : List Key)
    → Covers before
        (keys_of src tids)
        (keys_of src (layout_ids src tids before).0)
        (layout_ids src tids before).1
unfolding layout_ids
layout_ids-Covers src [] before = Covers-nil before
layout_ids-Covers src (tid ∷ tids) before = elim (Option-cases (layout_key src tid)) [
  | inl plain ↦ rw (plain, layout_ids, keys_of) (layout_ids-Covers src tids before)
  | inr (key, keyed) ↦
      let one = keys_of-cons src tid tids key keyed in
      elim (Bool-cases (has_key before key)) [
        | inl old ↦
            rw (keyed, old, layout_ids, keys_of)
              (Covers-append before before _ (key ∷ []) _ [] _ (Covers-old before key old)
                (layout_ids-Covers src tids before))
        | inr new ↦
            let more = layout_ids src tids (key ∷ before) in
            let out : layout_ids src (tid ∷ tids) before ≡ (tid ∷ more.0, more.1) =
              rw (keyed, new, layout_ids) refl in
            let wrote =
              ap (λ (r : List ℕ × List Key). keys_of src r.0) out
              ∙ keys_of-cons src tid more.0 key keyed in
            Covers-over before (sym one) (sym wrote) (sym (ap (λ (r : List ℕ × List Key). r.1) out))
              (Covers-append before (key ∷ before) more.1 (key ∷ []) _ (key ∷ []) _
                (Covers-new before key new) (layout_ids-Covers src tids (key ∷ before)))
      ]
]

all_keys-add_source :
    (src : BtfSource) (ids : List ℕ) (sources : List (BtfSource × List ℕ))
    → all_keys (add_source src ids sources) ≡ keys_of src ids ++ all_keys sources
unfolding add_source
all_keys-add_source src [] sources = refl
all_keys-add_source src (tid ∷ tids) sources = refl

emit_layouts-Covers :
    (sources : List (BtfSource × List ℕ)) (before : List Key)
    → (after : List Key) × Covers before
        (all_keys sources)
        (all_keys (emit_layouts sources before))
        after
unfolding emit_layouts
emit_layouts-Covers [] before = (before, Covers-nil before)
emit_layouts-Covers ((src, marked) ∷ sources) before =
    let now = layout_ids-Covers src marked before in
    let (after, later) = emit_layouts-Covers sources (layout_ids src marked before).1 in
    (
      after,
      rw
          (all_keys-add_source src (layout_ids src marked before).0
            (emit_layouts sources (layout_ids src marked before).1))
          (Covers-append before (layout_ids src marked before).1 after _ _ _ _ now later),
    )

-- The keys that are written are distinct, and they are the keys of the marked types.
pub emit_layouts-keys :
    (sources : List (BtfSource × List ℕ))
    → IsDistinctKeys (all_keys (emit_layouts sources []))
      × ((key : Key) → In key (all_keys (emit_layouts sources [])) ↔ In key (all_keys sources))
unfolding has_key
emit_layouts-keys sources =
    let (after, x) = emit_layouts-Covers sources [] in
    (
      x.distinct,
      λ key. (
        x.from key,
        λ at. elim (x.after_in key (x.covered key at)) [
          | inl out ↦ out
          | inr bad ↦ absurd (let h : has_key [] key ≡ true = bad in cc)
        ],
      ),
    )
