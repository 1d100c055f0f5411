-- ===== src/Regions/Merging.antt =====
-- Sorting and merging intervals: what they cover stays the same, and the merged ones lie apart.
use binary_kernel_code_mappi.Prelude.{
  ℕ, suc, ◌≤◌, ◌<◌, max, ◌↔◌, ◌⊎◌, inl, inr, List, [], ◌∷◌, All, Bool-cases, ltb, ltb→lt, ltb→ge,
  arith,
}
use binary_kernel_code_mappi.Regions.{
  Interval, tuple_le, insert_interval, sort_intervals, merge_from, merge,
}

-- The address lies in one of the intervals.
abbrev pub IsCovered : ℕ → List Interval → Type 0
IsCovered x [] = ⊥
IsCovered x ((s, e) ∷ is) = ((s ≤ x) × (x < e)) ⊎ IsCovered x is

-- Each interval ends before every later one starts.
abbrev pub IsSeparated : List Interval → Type 0
IsSeparated [] = Unit
IsSeparated ((s, e) ∷ is) = All (λ j. e < j.0) is × IsSeparated is

abbrev IsSorted : List Interval → Type 0
IsSorted [] = Unit
IsSorted ((s, e) ∷ is) = All (λ j. s ≤ j.0) is × IsSorted is

module _ (P : Interval → Type 0) where
  All-insert_interval :
      (i : Interval) (is : List Interval) → P i → All P is → All P (insert_interval i is)
  unfolding insert_interval
  All-insert_interval i [] p h = (p, tt)
  All-insert_interval i (j ∷ js) p h = elim (Bool-cases (tuple_le i j)) [
    | inl le ↦ rw le (p, h)
    | inr gt ↦ rw gt (h.0, All-insert_interval i js p h.1)
  ]

  pub All-sort_intervals : (is : List Interval) → All P is → All P (sort_intervals is)
  unfolding sort_intervals
  All-sort_intervals [] h = tt
  All-sort_intervals (i ∷ is) (p, h) =
      All-insert_interval i (sort_intervals is) p (All-sort_intervals is h)

All-weaken : (a b : ℕ) (is : List Interval) → a ≤ b → All (λ j. b ≤ j.0) is → All (λ j. a ≤ j.0) is
All-weaken a b [] h k = tt
All-weaken a b ((s, e) ∷ is) h (k, ks) = (omega arith, All-weaken a b is h ks)

IsSorted-insert_interval :
    (i : Interval) (is : List Interval) → IsSorted is → IsSorted (insert_interval i is)
unfolding insert_interval tuple_le
IsSorted-insert_interval (a, b) [] h = (tt, tt)
IsSorted-insert_interval (a, b) ((s, e) ∷ is) (h, hs) = elim (Bool-cases (tuple_le (a, b) (s, e))) [
  | inl le ↦ let first : a ≤ s = ground arith in rw le ((first, All-weaken a s is first h), (h, hs))
  | inr gt ↦
      let first : s ≤ a = ground arith in
      rw gt (
        All-insert_interval (λ j. s ≤ j.0) (a, b) is first h,
        IsSorted-insert_interval (a, b) is hs,
      )
]

IsSorted-sort_intervals : (is : List Interval) → IsSorted (sort_intervals is)
unfolding sort_intervals
IsSorted-sort_intervals [] = tt
IsSorted-sort_intervals (i ∷ is) =
    IsSorted-insert_interval i (sort_intervals is) (IsSorted-sort_intervals is)

IsCovered-insert_interval :
    (x : ℕ) (i : Interval) (is : List Interval)
    → IsCovered x (insert_interval i is) ↔ IsCovered x (i ∷ is)
unfolding insert_interval
IsCovered-insert_interval x (a, b) [] = ((λ h. h), (λ h. h))
IsCovered-insert_interval x (a, b) ((s, e) ∷ is) = elim (Bool-cases (tuple_le (a, b) (s, e))) [
  | inl le ↦ rw le ((λ h. h), (λ h. h))
  | inr gt ↦ rw gt (ground (arith, IsCovered-insert_interval x (a, b) is))
]

IsCovered-sort_intervals :
    (x : ℕ) (is : List Interval) → IsCovered x (sort_intervals is) ↔ IsCovered x is
unfolding sort_intervals
IsCovered-sort_intervals x [] = ((λ h. h), (λ h. h))
IsCovered-sort_intervals x ((s, e) ∷ is) =
    ground
      (arith, IsCovered-insert_interval x (s, e) (sort_intervals is), IsCovered-sort_intervals x is)

IsCovered-merge_from :
    (x s e : ℕ) (is : List Interval)
    → All (λ j. s ≤ j.0) is
    → IsSorted is
    → IsCovered x (merge_from s e is) ↔ IsCovered x ((s, e) ∷ is)
unfolding merge_from
IsCovered-merge_from x s e [] low sorted = ((λ h. h), (λ h. h))
IsCovered-merge_from x s e ((a, b) ∷ is) (low, lows) (first, sorted) = elim (Bool-cases (ltb e a)) [
  | inl apart ↦ rw apart (ground (arith, IsCovered-merge_from x a b is first sorted))
  | inr joined ↦
      rw joined
        (ground (arith, ltb→ge e a joined, IsCovered-merge_from x s (max e b) is lows sorted))
]

merge_from-low :
    (s e : ℕ) (is : List Interval)
    → All (λ j. s ≤ j.0) is
    → IsSorted is
    → All (λ j. s ≤ j.0) (merge_from s e is)
unfolding merge_from
merge_from-low s e [] low sorted = (omega arith, tt)
merge_from-low s e ((a, b) ∷ is) (low, lows) (first, sorted) = elim (Bool-cases (ltb e a)) [
  | inl apart ↦ rw apart (omega arith, All-weaken s a _ low (merge_from-low a b is first sorted))
  | inr joined ↦ rw joined (merge_from-low s (max e b) is lows sorted)
]

IsSeparated-merge_from :
    (s e : ℕ) (is : List Interval)
    → All (λ j. s ≤ j.0) is
    → IsSorted is
    → IsSeparated (merge_from s e is)
unfolding merge_from
IsSeparated-merge_from s e [] low sorted = (tt, tt)
IsSeparated-merge_from s e ((a, b) ∷ is) (low, lows) (first, sorted) = elim (Bool-cases (ltb e a)) [
  | inl apart ↦ rw apart (
    All-weaken (suc e) a _ (ltb→lt e a apart) (merge_from-low a b is first sorted),
    IsSeparated-merge_from a b is first sorted,
  )
  | inr joined ↦ rw joined (IsSeparated-merge_from s (max e b) is lows sorted)
]

pub IsCovered-merge :
    (x : ℕ) (is : List Interval) → IsCovered x (merge (sort_intervals is)) ↔ IsCovered x is
unfolding merge
IsCovered-merge x is =
    go (sort_intervals is) (IsSorted-sort_intervals is) (IsCovered-sort_intervals x is)
  where
    go :
        (js : List Interval)
        → IsSorted js
        → (IsCovered x js ↔ IsCovered x is)
        → (IsCovered x (merge js) ↔ IsCovered x is)
    go [] sorted h = h
    go ((s, e) ∷ js) (low, sorted) h = ground (arith, h, IsCovered-merge_from x s e js low sorted)

pub IsSeparated-merge : (is : List Interval) → IsSeparated (merge (sort_intervals is))
unfolding merge
IsSeparated-merge is = go (sort_intervals is) (IsSorted-sort_intervals is)
  where
    go : (js : List Interval) → IsSorted js → IsSeparated (merge js)
    go [] sorted = tt
    go ((s, e) ∷ js) (low, sorted) = IsSeparated-merge_from s e js low sorted
