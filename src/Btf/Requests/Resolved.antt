-- ===== src/Btf/Requests/Resolved.antt =====
-- The requests are resolved where each has one source.
use mathlib.Core.Path.{subst}
use binary_kernel_code_mappi.Prelude.{
  ◌≡◌, ◌≢◌, refl, sym, ◌⊎◌, ◌↔◌, inl, inr, true, List, [], ◌∷◌, ◌++◌, Text, text_eq, text_eq_iff,
  In, In-append_left, In-append_right, In-append_cases, Bool-cases, ◌&&◌, arith,
}
use binary_kernel_code_mappi.Btf.Sources.{BtfSource}
use binary_kernel_code_mappi.Btf.Requests.Chosen.{IsOnlyChosen, AreDistinct, IsOnlyChosen-iff}
use binary_kernel_code_mappi.Btf.Requests.{
  Candidates, matches_for, DeclKey, same_decl, has_decl, RequestState, take_from, add_missing,
  resolve_match, resolve_requests, nothing_resolved,
}

has_decl-In : (keys : List DeclKey) (key : DeclKey) → has_decl keys key ≡ true → In key keys
unfolding has_decl same_decl
has_decl-In [] key h = cc
has_decl-In (k ∷ keys) key h = elim (Bool-cases (text_eq k.0 key.0 && text_eq k.1 key.1)) [
  | inr other ↦ inr (has_decl-In keys key (rw other at h))
  | inl same ↦ inl (both k key same)
]
  where
    both : (a b : DeclKey) → (text_eq a.0 b.0 && text_eq a.1 b.1) ≡ true → b ≡ a
    both (a, f) (b, g) e = ground (arith, text_eq_iff a b, text_eq_iff f g)

-- The function is found in one source.
abbrev pub IsFoundIn : Candidates → Text → BtfSource → Type 0
IsFoundIn cs name src = matches_for cs name ≡ src ∷ []

append-ne-nil {ℓ} : {A : Type ℓ} (xs : List A) (x : A) → xs ++ x ∷ [] ≢ []
append-ne-nil [] x h = cc
append-ne-nil (y ∷ xs) x h = cc

-- What one request changes.
record Step (cs : Candidates) (name : Text) (r t : RequestState) : Type 0 where
  missing :
      t.missing_required ≡ []
      → (r.missing_required ≡ []) × ((src : BtfSource) × IsFoundIn cs name src)
  none_missing :
      r.missing_required ≡ [] → (src : BtfSource) → IsFoundIn cs name src → t.missing_required ≡ []
  kept : (key : DeclKey) → In key r.decl_order → In key t.decl_order
  declared : (src : BtfSource) → IsFoundIn cs name src → In (src.source_id, name) t.decl_order
  from :
      (key : DeclKey)
      → In key t.decl_order
      → In key r.decl_order
        ⊎ ((src : BtfSource) × IsFoundIn cs name src × (key ≡ (src.source_id, name)))

missing-Step :
    (cs : Candidates) (name : Text) (r : RequestState)
    → ((src : BtfSource) → ¬ IsFoundIn cs name src)
    → Step cs name r (add_missing name r)
unfolding add_missing
missing-Step cs name r nowhere = record {
  missing = λ h. absurd (append-ne-nil r.missing_required name h);
  none_missing = λ h src found. absurd (nowhere src found);
  kept = λ key at. at;
  declared = λ src found. absurd (nowhere src found);
  from = λ key at. inl at;
}

take_from-Step :
    (cs : Candidates) (name : Text) (src : BtfSource) (r : RequestState)
    → IsFoundIn cs name src
    → Step cs name r (take_from src name r)
unfolding take_from
take_from-Step cs name src r found = record {
  missing = λ h. (h, (src, found));
  none_missing = λ h other at. h;
  kept = λ key at. elim (Bool-cases (has_decl r.decl_order (src.source_id, name))) [
    | inl old ↦ rw old at
    | inr new ↦ rw new (In-append_left key r.decl_order _ at)
  ];
  declared = λ other at.
      let same : other ≡ src = cc in
      subst (λ (s : BtfSource). In (s.source_id, name) (take_from src name r).decl_order) (sym same)
        (elim (Bool-cases (has_decl r.decl_order (src.source_id, name))) [
          | inl old ↦ rw old (has_decl-In r.decl_order (src.source_id, name) old)
          | inr new ↦ rw new (In-append_right (src.source_id, name) r.decl_order _ (inl refl))
        ]);
  from = λ key at. elim (Bool-cases (has_decl r.decl_order (src.source_id, name))) [
    | inl old ↦ inl (rw old at at)
    | inr new ↦
        let here : In key (r.decl_order ++ (src.source_id, name) ∷ []) = rw new at at in
        elim (In-append_cases key r.decl_order _ here) [
          | inl before ↦ inl before
          | inr (inl same) ↦ inr (src, found, same)
          | inr (inr bad) ↦ absurd bad
        ]
  ];
}

resolve_match-Step :
    (cs : Candidates) (name : Text) (ms : List BtfSource) (r : RequestState)
    → matches_for cs name ≡ ms
    → Step cs name r (resolve_match name ms r)
unfolding resolve_match
resolve_match-Step cs name [] r e = missing-Step cs name r (λ src found. cc)
resolve_match-Step cs name (src ∷ []) r e = take_from-Step cs name src r e
resolve_match-Step cs name (src ∷ other ∷ more) r e = missing-Step cs name r (λ s found. cc)

abbrev pub AllFound : Candidates → List Text → Type 0
AllFound cs names = (name : Text) → In name names → (src : BtfSource) × IsFoundIn cs name src

-- What the requests change in all.
record Steps (cs : Candidates) (names : List Text) (r t : RequestState) : Type 0 where
  missing : t.missing_required ≡ [] → (r.missing_required ≡ []) × AllFound cs names
  none_missing : r.missing_required ≡ [] → AllFound cs names → t.missing_required ≡ []
  kept : (key : DeclKey) → In key r.decl_order → In key t.decl_order
  declared :
      (name : Text) (src : BtfSource)
      → In name names
      → IsFoundIn cs name src
      → In (src.source_id, name) t.decl_order
  from :
      (key : DeclKey)
      → In key t.decl_order
      → In key r.decl_order
        ⊎ ((name : Text) × (src : BtfSource) × In name names
            × IsFoundIn cs name src
            × (key ≡ (src.source_id, name)))

resolve_requests-Steps :
    (cs : Candidates) (names : List Text) (r : RequestState)
    → Steps cs names r (resolve_requests cs names r)
unfolding resolve_requests
resolve_requests-Steps cs [] r = record {
  missing = λ h. (h, λ name bad. absurd bad);
  none_missing = λ h all. h;
  kept = λ key at. at;
  declared = λ name src bad found. absurd bad;
  from = λ key at. inl at;
}
resolve_requests-Steps cs (name ∷ names) r =
    let one = resolve_match-Step cs name (matches_for cs name) r refl in
    let rest = resolve_requests-Steps cs names (resolve_match name (matches_for cs name) r) in
    record {
      missing = λ h.
          let (before, all) = rest.missing h in
          let (first, found) = one.missing before in
          (
            first,
            λ n at. elim at [
              | inl same ↦ subst (λ y. (src : BtfSource) × IsFoundIn cs y src) (sym same) found
              | inr later ↦ all n later
            ],
          );
      none_missing = λ h all.
          let (src, found) = all name (inl refl) in
          rest.none_missing (one.none_missing h src found) (λ n at. all n (inr at));
      kept = λ key at. rest.kept key (one.kept key at);
      declared = λ n src at found. elim at [
        | inr later ↦ rest.declared n src later found
        | inl same ↦
            rest.kept (src.source_id, n)
              (subst
                (λ y. In (src.source_id, y) (resolve_match name (matches_for cs name) r).decl_order)
                (sym same) (one.declared src (subst (λ y. IsFoundIn cs y src) same found)))
      ];
      from = λ key at. elim (rest.from key at) [
        | inr (n, src, later, found, e) ↦ inr (n, src, inr later, found, e)
        | inl before ↦ elim (one.from key before) [
          | inl old ↦ inl old
          | inr (src, found, e) ↦ inr (name, src, inl refl, found, e)
        ]
      ];
    }

resolve_requests-found :
    (cs : Candidates) (names : List Text)
    → (((resolve_requests cs names nothing_resolved).missing_required ≡ []) ↔ AllFound cs names)
      × ((key : DeclKey)
          → In key (resolve_requests cs names nothing_resolved).decl_order ↔ (
              (name : Text) × (src : BtfSource) × In name names
              × IsFoundIn cs name src
              × (key ≡ (src.source_id, name))))
resolve_requests-found cs names =
    let s = resolve_requests-Steps cs names nothing_resolved in
    (
      (λ h. (s.missing h).1, s.none_missing refl),
      λ key. (
        λ at. elim (s.from key at) [ inl bad ↦ absurd bad | inr found ↦ found ],
        λ (name, src, at, found, e). rw e (s.declared name src at found),
      ),
    )

-- Each name has a source that is the only one chosen for it.
abbrev pub AllChosen : Candidates → List Text → Type 0
AllChosen cs names = (name : Text) → In name names → (src : BtfSource) × IsOnlyChosen cs name src

-- Where the sources have different identifiers: the list of missing functions is empty exactly if one source is
-- chosen for each requested function; and the functions that are declared are the requested ones for which one
-- source is chosen, with that source. Chosen are, of the sources that have the function, those that are labelled
-- with the owner of its global text symbol; if there is none, those labelled with the owner of its exported
-- symbol; and if there is none either, all of them.
pub resolve_requests-resolved :
    (cs : Candidates) (names : List Text)
    → AreDistinct cs
    → (((resolve_requests cs names nothing_resolved).missing_required ≡ []) ↔ AllChosen cs names)
      × ((key : DeclKey)
          → In key (resolve_requests cs names nothing_resolved).decl_order ↔ (
              (name : Text) × (src : BtfSource) × In name names
              × IsOnlyChosen cs name src
              × (key ≡ (src.source_id, name))))
resolve_requests-resolved cs names distinct =
    let (missing, declared) = resolve_requests-found cs names in
    (
      (
        λ h name at.
            (let (src, found) = missing.0 h name at in
              (src, (IsOnlyChosen-iff cs distinct name src).0 found)),
        λ h. missing.1 (λ name at.
            (let (src, x) = h name at in (src, (IsOnlyChosen-iff cs distinct name src).1 x))),
      ),
      λ key. (
        λ at.
            (let (name, src, l, found, e) = (declared key).0 at in
              (name, src, l, (IsOnlyChosen-iff cs distinct name src).0 found, e)),
        λ (name, src, l, x, e).
            (declared key).1 (name, src, l, (IsOnlyChosen-iff cs distinct name src).1 x, e),
      ),
    )
