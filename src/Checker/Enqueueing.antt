-- ===== src/Checker/Enqueueing.antt =====
-- Which names wait in the queue after several were queued, and that none waits twice.
use mathlib.Core.Path.{subst}
use binary_kernel_code_mappi.Prelude.{
  In-append_left, In-append_right, In-append_cases, ℕ, suc, ◌≤◌, ◌<◌, ◌≡◌, refl, ◌⊎◌, inl, inr,
  ◌||◌, true, false, List, [], ◌∷◌, ◌++◌, Text, In, contains, contains_iff, text_eq, text_eq_iff,
  IsDistinct, IsDistinct-concat, if◌then◌else◌, Bool-cases, arith,
}
use binary_kernel_code_mappi.Checker.{is_named}
use binary_kernel_code_mappi.Checker.Growth.{enqueue, enqueue_all}

module _ (visited : List Text) where
  enqueue-kept : (m n : Text) (queue : List Text) → In m queue → In m (enqueue n visited queue)
  enqueue-kept m n queue h = elim (Bool-cases (is_named n)) [
    | inr unnamed ↦ rw unnamed h
    | inl named ↦ elim (Bool-cases (contains visited n || contains queue n)) [
      | inl old ↦ rw (named, old) h
      | inr new ↦ rw (named, new) (In-append_left m queue (n ∷ []) h)
    ]
  ]

  pub enqueue_all-kept :
      (m : Text) (ns queue : List Text) → In m queue → In m (enqueue_all ns visited queue)
  enqueue_all-kept m [] queue h = h
  enqueue_all-kept m (n ∷ ns) queue h =
      enqueue_all-kept m ns (enqueue n visited queue) (enqueue-kept m n queue h)

  enqueue_self :
      (n : Text) (queue : List Text)
      → is_named n ≡ true
      → In n visited ⊎ In n (enqueue n visited queue)
  enqueue_self n queue named = elim (Bool-cases (contains visited n)) [
    | inl seen ↦ inl ((contains_iff visited n).0 seen)
    | inr unseen ↦ inr (elim (Bool-cases (contains queue n)) [
      | inl old ↦ rw (named, unseen, old) ((contains_iff queue n).0 old)
      | inr new ↦ rw (named, unseen, new) (In-append_right n queue (n ∷ []) (inl refl))
    ])
  ]

  pub enqueue_all-added :
      (m : Text) (ns queue : List Text)
      → In m ns
      → is_named m ≡ true
      → In m visited ⊎ In m (enqueue_all ns visited queue)
  enqueue_all-added m [] queue h named = absurd h
  enqueue_all-added m (n ∷ ns) queue (inr h) named =
      enqueue_all-added m ns (enqueue n visited queue) h named
  enqueue_all-added m (n ∷ ns) queue (inl same) named = elim (enqueue_self m queue named) [
    | inl seen ↦ inl seen
    | inr waits ↦ inr (
        enqueue_all-kept m ns (enqueue n visited queue)
          (subst (λ x. In m (enqueue x visited queue)) same waits))
  ]

  enqueue-only :
      (m n : Text) (queue : List Text)
      → In m (enqueue n visited queue)
      → In m queue ⊎ (m ≡ n) × (is_named n ≡ true)
  enqueue-only m n queue h = elim (Bool-cases (is_named n)) [
    | inr unnamed ↦ inl (rw unnamed at h)
    | inl named ↦ elim (Bool-cases (contains visited n || contains queue n)) [
      | inl old ↦ inl (rw (named, old) at h)
      | inr new ↦
          let at : In m (queue ++ n ∷ []) = rw (named, new) at h in
          elim (In-append_cases m queue (n ∷ []) at) [
            | inl waits ↦ inl waits
            | inr (inl same) ↦ inr (same, named)
            | inr (inr bad) ↦ absurd bad
          ]
    ]
  ]

  pub enqueue_all-only :
      (m : Text) (ns queue : List Text)
      → In m (enqueue_all ns visited queue)
      → In m queue ⊎ In m ns × (is_named m ≡ true)
  enqueue_all-only m [] queue h = inl h
  enqueue_all-only m (n ∷ ns) queue h = elim (enqueue_all-only m ns (enqueue n visited queue) h) [
    | inr (later, named) ↦ inr (inr later, named)
    | inl waits ↦ elim (enqueue-only m n queue waits) [
      | inl old ↦ inl old
      | inr (same, named) ↦ inr (inl same, rw same named)
    ]
  ]

  -- The names that wait are distinct, and none of them was visited.
  abbrev pub IsFresh : List Text → Type 0
  IsFresh queue = IsDistinct queue × ((n : Text) → In n queue → contains visited n ≡ false)

  enqueue-IsFresh :
      (n : Text) (queue : List Text) → IsFresh queue → IsFresh (enqueue n visited queue)
  enqueue-IsFresh n queue (distinct, fresh) = elim (Bool-cases (is_named n)) [
    | inr unnamed ↦ rw unnamed (distinct, fresh)
    | inl named ↦ elim (Bool-cases (contains visited n)) [
      | inl seen ↦ rw (named, seen) (distinct, fresh)
      | inr unseen ↦ elim (Bool-cases (contains queue n)) [
        | inl old ↦ rw (named, unseen, old) (distinct, fresh)
        | inr new ↦
            rw (named, unseen, new)
              (
                IsDistinct-concat queue n distinct new,
                λ m h. elim (In-append_cases m queue (n ∷ []) h) [
                  | inl waits ↦ fresh m waits
                  | inr (inl same) ↦ rw same unseen
                  | inr (inr bad) ↦ absurd bad
                ],
              )
      ]
    ]
  ]

  pub enqueue_all-IsFresh :
      (ns queue : List Text) → IsFresh queue → IsFresh (enqueue_all ns visited queue)
  enqueue_all-IsFresh [] queue h = h
  enqueue_all-IsFresh (n ∷ ns) queue h =
      enqueue_all-IsFresh ns (enqueue n visited queue) (enqueue-IsFresh n queue h)

-- The names of `names` that were not visited.
abbrev pub unvisited : List Text → List Text → ℕ
unvisited [] visited = 0
unvisited (name ∷ names) visited =
    let rest = unvisited names visited in if contains visited name then rest else suc rest

unvisited-cons :
    (n : Text) (names visited : List Text) → unvisited names (n ∷ visited) ≤ unvisited names visited
unfolding contains
unvisited-cons n [] visited = omega arith
unvisited-cons n (name ∷ names) visited = ground (arith, unvisited-cons n names visited)

-- One less after a visit.
pub unvisited-lt :
    (n : Text) (names visited : List Text)
    → In n names
    → contains visited n ≡ false
    → unvisited names (n ∷ visited) < unvisited names visited
unfolding contains
unvisited-lt n [] visited h new = absurd h
unvisited-lt n (name ∷ names) visited (inr h) new =
    ground (arith, unvisited-lt n names visited h new)
unvisited-lt n (name ∷ names) visited (inl same) new =
    let at : contains visited name ≡ false = rw same at new in
    let eq : text_eq n name ≡ true = (text_eq_iff n name).1 same in
    ground (arith, unvisited-cons n names visited)
