-- ===== src/Btf/Requests/Chosen.antt =====
-- Which source is chosen for a function, described apart from the filters.
use binary_kernel_code_mappi.Prelude.{
  ◌≡◌, ◌≢◌, refl, sym, ap, ◌∙◌, ◌⊎◌, ◌↔◌, inl, inr, Bool, true, false, ◌||◌, List, [], ◌∷◌, map,
  Option, none, some, Text, Dict, text_eq, text_eq_iff, contains, IsDistinct, lookup, In, In-select,
  select, Option-cases, arith,
}
use binary_kernel_code_mappi.Btf.{find_func_proto_id}
use binary_kernel_code_mappi.Btf.Sources.{
  BtfSource, has_func, discover_sources_for_func, labelled, filter_by_owner, or_else,
  filter_matches_by_owner_hints,
}
use binary_kernel_code_mappi.Btf.Requests.{Candidates, matches_for}

abbrev all_sources : Candidates → List BtfSource
all_sources cs = cs.base_source ∷ cs.modules

abbrev ids : List BtfSource → List Text
ids = map (λ (src : BtfSource). src.source_id)

-- No two sources have one identifier.
abbrev pub AreDistinct : Candidates → Type 0
AreDistinct cs = IsDistinct (ids (all_sources cs))

-- A source that has the function.
abbrev pub IsCandidate : Candidates → Text → BtfSource → Type 0
IsCandidate cs name src = In src (all_sources cs) × (find_func_proto_id src.by_id name ≢ none)

-- The source is labelled with the owner of the name.
abbrev pub IsHinted : Dict Text → Text → BtfSource → Type 0
IsHinted owners name src = lookup name owners ≡ some src.label

abbrev pub HasHinted : Candidates → Dict Text → Text → Type 0
HasHinted cs owners name = (src : BtfSource) × IsCandidate cs name src × IsHinted owners name src

-- Hints for global text symbols come first, and hints for exported symbols second.
abbrev pub IsChosen : Candidates → Text → BtfSource → Type 0
IsChosen cs name src =
    IsCandidate cs name src
    × (IsHinted cs.global_text_owners name src
        ⊎ ((¬ HasHinted cs cs.global_text_owners name)
            × (IsHinted cs.exported_symbol_owners name src
                ⊎ (¬ HasHinted cs cs.exported_symbol_owners name))))

abbrev pub IsOnlyChosen : Candidates → Text → BtfSource → Type 0
IsOnlyChosen cs name src =
    IsChosen cs name src × ((other : BtfSource) → IsChosen cs name other → other ≡ src)

has_func_iff :
    (name : Text) (src : BtfSource)
    → (has_func name src ≡ true) ↔ (find_func_proto_id src.by_id name ≢ none)
unfolding has_func
has_func_iff name src = elim (Option-cases (find_func_proto_id src.by_id name)) [
  | inl missing ↦ rw (missing, has_func) (λ h. cc, λ h. absurd (h refl))
  | inr (p, found) ↦ rw (found, has_func) (λ h bad. cc, λ h. refl)
]

discover-In :
    (cs : Candidates) (name : Text) (src : BtfSource)
    → In src (discover_sources_for_func name cs.base_source cs.modules) ↔ IsCandidate cs name src
unfolding discover_sources_for_func
discover-In cs name src =
    let kept = In-select (has_func name) src (all_sources cs) in
    let func = has_func_iff name src in
    (λ h. (let (at, f) = kept.0 h in (at, func.0 f)), λ (at, f). kept.1 (at, func.1 f))

filter_by_owner-In :
    (owners : Dict Text) (name : Text) (ms : List BtfSource) (src : BtfSource)
    → In src (filter_by_owner (lookup name owners) ms) ↔ (In src ms × IsHinted owners name src)
unfolding filter_by_owner
filter_by_owner-In owners name ms src = elim (Option-cases (lookup name owners)) [
  | inl missing ↦ rw missing (λ h. absurd h, λ (at, bad). cc)
  | inr (o, found) ↦
      let kept = In-select (labelled o) src ms in
      rw found (
        λ h. (let (at, l) = kept.0 h in (at, ap some (sym ((text_eq_iff src.label o).0 l)))),
        λ (at, e). (let same : src.label ≡ o = cc in kept.1 (at, (text_eq_iff src.label o).1 same)),
      )
]

or_else-In :
    (a b : List BtfSource) (src : BtfSource)
    → In src (or_else a b) ↔ (In src a ⊎ ((¬ ((t : BtfSource) × In t a)) × In src b))
unfolding or_else
or_else-In [] b src =
    (λ h. inr (λ (t, bad). bad, h), λ h. elim h [ inl bad ↦ absurd bad | inr (e, h) ↦ h ])
or_else-In (x ∷ a) b src =
    (λ h. inl h, λ h. elim h [ inl h ↦ h | inr (e, h) ↦ absurd (e (x, inl refl)) ])

matches_for-In :
    (cs : Candidates) (name : Text) (src : BtfSource)
    → In src (matches_for cs name) ↔ IsChosen cs name src
unfolding matches_for filter_matches_by_owner_hints
matches_for-In cs name src =
    let ms = discover_sources_for_func name cs.base_source cs.modules in
    let cand = discover-In cs name in
    let text = filter_by_owner-In cs.global_text_owners name ms in
    let exported = filter_by_owner-In cs.exported_symbol_owners name ms in
    let outer =
      or_else-In (filter_by_owner (lookup name cs.global_text_owners) ms)
        (or_else (filter_by_owner (lookup name cs.exported_symbol_owners) ms) ms) src in
    let inner = or_else-In (filter_by_owner (lookup name cs.exported_symbol_owners) ms) ms src in
    (
      λ h. elim (outer.0 h) [
        | inl at ↦ (let (l, hint) = (text src).0 at in ((cand src).0 l, inl hint))
        | inr (no_text, at) ↦
            let none_hinted : ¬ HasHinted cs cs.global_text_owners name =
              λ (t, c, hint). no_text (t, (text t).1 ((cand t).1 c, hint)) in
            elim (inner.0 at) [
              | inl at ↦
                  (let (l, hint) = (exported src).0 at in
                    ((cand src).0 l, inr (none_hinted, inl hint)))
              | inr (no_export, l) ↦ (
                (cand src).0 l,
                inr (
                  none_hinted,
                  inr (λ (t, c, hint). no_export (t, (exported t).1 ((cand t).1 c, hint))),
                ),
              )
            ]
      ],
      λ (c, why).
          (let l = (cand src).1 c in
            elim why [
              | inl hint ↦ outer.1 (inl ((text src).1 (l, hint)))
              | inr (no_text, why) ↦ outer.1 (
                  inr (
                    λ (t, at). (let (lt, hint) = (text t).0 at in no_text (t, (cand t).0 lt, hint)),
                    elim why [
                      | inl hint ↦ inner.1 (inl ((exported src).1 (l, hint)))
                      | inr no_export ↦ inner.1 (
                          inr (
                            λ (t, at).
                                (let (lt, hint) = (exported t).0 at in
                                  no_export (t, (cand t).0 lt, hint)),
                            l,
                          ))
                    ],
                  ))
            ]),
    )

contains-ids :
    (p : BtfSource → Bool) (xs : List BtfSource) (i : Text)
    → contains (ids xs) i ≡ false
    → contains (ids (select p xs)) i ≡ false
unfolding contains
contains-ids p [] i h = refl
contains-ids p (x ∷ xs) i h = go (p x) (contains-ids p xs i (parts h).1)
  where
    parts :
        (text_eq x.source_id i || contains (ids xs) i) ≡ false
        → (text_eq x.source_id i ≡ false) × (contains (ids xs) i ≡ false)
    parts e = ground arith

    go :
        (b : Bool)
        → contains (ids (select p xs)) i ≡ false
        → contains (ids (elim b [ true ↦ x ∷ select p xs | false ↦ select p xs ])) i ≡ false
    go true rest = (let one = (parts h).0 in ground arith)
    go false rest = rest

IsDistinct-select :
    (p : BtfSource → Bool) (xs : List BtfSource)
    → IsDistinct (ids xs)
    → IsDistinct (ids (select p xs))
IsDistinct-select p [] h = tt
IsDistinct-select p (x ∷ xs) (new, h) =
    go (p x) (contains-ids p xs x.source_id new) (IsDistinct-select p xs h)
  where
    go :
        (b : Bool)
        → contains (ids (select p xs)) x.source_id ≡ false
        → IsDistinct (ids (select p xs))
        → IsDistinct (ids (elim b [ true ↦ x ∷ select p xs | false ↦ select p xs ]))
    go true apart rest = (apart, rest)
    go false apart rest = rest

IsDistinct-or_else :
    (a b : List BtfSource)
    → IsDistinct (ids a)
    → IsDistinct (ids b)
    → IsDistinct (ids (or_else a b))
unfolding or_else
IsDistinct-or_else [] b ha hb = hb
IsDistinct-or_else (x ∷ a) b ha hb = ha

IsDistinct-filter :
    (o : Option Text) (ms : List BtfSource)
    → IsDistinct (ids ms)
    → IsDistinct (ids (filter_by_owner o ms))
unfolding filter_by_owner
IsDistinct-filter none ms h = tt
IsDistinct-filter (some o) ms h = IsDistinct-select (labelled o) ms h

only-singleton :
    (xs : List BtfSource) (src : BtfSource)
    → IsDistinct (ids xs)
    → (xs ≡ src ∷ []) ↔ (In src xs × ((other : BtfSource) → In other xs → other ≡ src))
unfolding contains
only-singleton [] src distinct = (λ h. cc, λ (bad, only). absurd bad)
only-singleton (x ∷ []) src distinct = (
  λ h.
      (let same : x ≡ src = cc in
        (inl (sym same), λ other at. elim at [ inl e ↦ e ∙ same | inr bad ↦ absurd bad ])),
  λ (at, only). ap (λ y. y ∷ []) (only x (inl refl)),
)
only-singleton (x ∷ y ∷ xs) src (new, rest) = (
  λ h. cc,
  λ (at, only).
      (let same : y ≡ x = only y (inr (inl refl)) ∙ sym (only x (inl refl)) in
        let known : text_eq y.source_id x.source_id ≡ true =
          (text_eq_iff y.source_id x.source_id).1 (ap (λ (s : BtfSource). s.source_id) same) in
        let bad : true ≡ false = ground arith in cc),
)

pub IsOnlyChosen-iff :
    (cs : Candidates)
    → AreDistinct cs
    → (name : Text) (src : BtfSource) → (matches_for cs name ≡ src ∷ []) ↔ IsOnlyChosen cs name src
unfolding matches_for filter_matches_by_owner_hints discover_sources_for_func
IsOnlyChosen-iff cs distinct name src =
    let found = discover_sources_for_func name cs.base_source cs.modules in
    let ds : IsDistinct (ids found) = IsDistinct-select (has_func name) (all_sources cs) distinct in
    let dm : IsDistinct (ids (matches_for cs name)) =
      IsDistinct-or_else (filter_by_owner (lookup name cs.global_text_owners) found) _
        (IsDistinct-filter _ found ds)
        (IsDistinct-or_else (filter_by_owner (lookup name cs.exported_symbol_owners) found) found
          (IsDistinct-filter _ found ds) ds) in
    let one = only-singleton (matches_for cs name) src dm in
    let chosen = matches_for-In cs name in
    (
      λ h. (let (at, only) = one.0 h in ((chosen src).0 at, λ t c. only t ((chosen t).1 c))),
      λ (c, only). one.1 ((chosen src).1 c, λ t at. only t ((chosen t).0 at)),
    )
