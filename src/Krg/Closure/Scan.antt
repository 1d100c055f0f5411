-- ===== src/Krg/Closure/Scan.antt =====
-- The loop over the edges of one node: what it marks, what it stacks, and the work that is left.
use binary_kernel_code_mappi.Prelude.{
  ℕ, zero, suc, ◌+◌, ◌≤◌, ◌<◌, ◌≡◌, refl, ap, ◌∙◌, ◌⊎◌, inl, inr, Bool, true, false, List, [], ◌∷◌,
  some, length, In, get_elem?, set, get_elem?-lt, get_elem?-set, length-set, Bool-cases, ◌==◌,
  if◌then◌else◌, ok, arith,
}
use mathlib.Core.Logic.{⊎_elim}
use binary_kernel_code_mappi.Krg.Closure.{Walk, push, scan_edges}

abbrev pub IsMarked : Walk → ℕ → Type 0
IsMarked w v = get_elem? w.seen v ≡ some true

-- The flags that are still 0.
abbrev pub unseen : List Bool → ℕ
unseen [] = 0
unseen (false ∷ flags) = suc (unseen flags)
unseen (true ∷ flags) = unseen flags

unseen-set :
    (flags : List Bool) (i : ℕ)
    → get_elem? flags i ≡ some false
    → suc (unseen (set flags i true)) ≡ unseen flags
unseen-set [] i h = cc
unseen-set (b ∷ flags) zero h = ground arith
unseen-set (false ∷ flags) (suc i) h = ap suc (unseen-set flags i h)
unseen-set (true ∷ flags) (suc i) h = unseen-set flags i h

-- The edges `[i, i + k)` lead from `w` to `t`.
pub record Scanned (col_idx : List ℕ) (k i : ℕ) (w t : Walk) : Type 0 where
  pub size : length t.seen ≡ length w.seen
  pub work : unseen t.seen + length t.stack ≡ unseen w.seen + length w.stack
  pub kept : (v : ℕ) → IsMarked w v → IsMarked t v
  pub waiting : (v : ℕ) → In v w.stack → In v t.stack
  pub stacked : (v : ℕ) → In v t.stack → In v w.stack ⊎ IsMarked t v
  pub fresh :
      (v : ℕ)
      → IsMarked t v
      → IsMarked w v
        ⊎ In v t.stack × ((j : ℕ) × (i ≤ j) × (j < i + k) × (get_elem? col_idx j ≡ some v))
  pub reached : (j v : ℕ) → i ≤ j → j < i + k → get_elem? col_idx j ≡ some v → IsMarked t v

pub Scanned-nil : (col_idx : List ℕ) (i : ℕ) (w : Walk) → Scanned col_idx 0 i w w
Scanned-nil col_idx i w = record {
  size = refl;
  work = refl;
  kept = λ v m. m;
  waiting = λ v s. s;
  stacked = λ v s. inl s;
  fresh = λ v m. inl m;
  reached = λ j v lo hi e. absurd (omega arith);
}

-- One edge, whose target was marked before or is pushed now.
module _ (col_idx : List ℕ) (i target : ℕ) (w : Walk) (at : get_elem? col_idx i ≡ some target) where
  Scanned-old : IsMarked w target → Scanned col_idx 1 i w w
  Scanned-old old = record {
    size = refl;
    work = refl;
    kept = λ v m. m;
    waiting = λ v s. s;
    stacked = λ v s. inl s;
    fresh = λ v m. inl m;
    reached = λ j v lo hi e. let same : j ≡ i = omega arith in cc;
  }

  Scanned-new :
      target < length w.seen
      → get_elem? w.seen target ≡ some false
      → Scanned col_idx 1 i w (push w target)
  unfolding push
  Scanned-new lt new = record {
    size = length-set w.seen target true;
    work = omega (arith, unseen-set w.seen target new);
    kept = λ v m. ground (arith, get_elem?-set w.seen target v true);
    waiting = λ v s. inr s;
    stacked = λ v s. ⊎_elim (λ e. inr (ground (arith, get_elem?-set w.seen target v true))) inl s;
    fresh = λ v m. elim (Bool-cases (target == v)) [
      | inl same ↦ inr (inl (ground arith), (i, omega arith, omega arith, ground arith))
      | inr other ↦ inl (ground (arith, get_elem?-set w.seen target v true))
    ];
    reached = λ j v lo hi e.
        let same : j ≡ i = omega arith in
        let target_is : target ≡ v = cc in ground (arith, get_elem?-set w.seen target v true);
  }

  Scanned-edge :
      target < length w.seen
      → (flag : Bool) → get_elem? w.seen target ≡ some flag
      → Scanned col_idx 1 i w (if flag then w else push w target)
  Scanned-edge lt true was = Scanned-old was
  Scanned-edge lt false was = Scanned-new lt was

-- One range of edges behind another.
Scanned-trans :
    (col_idx : List ℕ) (k i : ℕ) (w u t : Walk)
    → Scanned col_idx 1 i w u
    → Scanned col_idx k (suc i) u t
    → Scanned col_idx (suc k) i w t
Scanned-trans col_idx k i w u t a b = record {
  size = b.size ∙ a.size;
  work = b.work ∙ a.work;
  kept = λ v m. b.kept v (a.kept v m);
  waiting = λ v s. b.waiting v (a.waiting v s);
  stacked = λ v s. elim (b.stacked v s) [
    | inr m ↦ inr m
    | inl s' ↦ ⊎_elim inl (λ m. inr (b.kept v m)) (a.stacked v s')
  ];
  fresh = λ v m. elim (b.fresh v m) [
    | inr (s, (j, lo, hi, e)) ↦ inr (s, (j, omega arith, omega arith, e))
    | inl m' ↦ ⊎_elim inl (λ new. inr (b.waiting v new.0, widen v new.1)) (a.fresh v m')
  ];
  reached = λ j v lo hi e. elim (Bool-cases (j == i)) [
    | inl same ↦ b.kept v (a.reached j v lo (ground arith) e)
    | inr other ↦ b.reached j v (ground arith) (omega arith) e
  ];
}
  where
    widen :
        (v : ℕ)
        → (j : ℕ) × (i ≤ j) × (j < i + 1) × (get_elem? col_idx j ≡ some v)
        → (j : ℕ) × (i ≤ j) × (j < i + suc k) × (get_elem? col_idx j ≡ some v)
    widen v (j, lo, hi, e) = (j, lo, omega arith, e)

-- In a table whose entries are in range the loop raises nothing.
pub scan_edges_lem :
    (col_idx : List ℕ) (k i : ℕ) (w : Walk)
    → i + k ≤ length col_idx
    → ((j v : ℕ) → get_elem? col_idx j ≡ some v → v < length w.seen)
    → (t : Walk) × (scan_edges col_idx k i w ≡ ok t) × Scanned col_idx k i w t
unfolding scan_edges
scan_edges_lem col_idx zero i w fits targets = (w, refl, Scanned-nil col_idx i w)
scan_edges_lem col_idx (suc k) i w fits targets =
    let (target, at) = get_elem?-lt col_idx i (omega arith) in
    let lt = targets i target at in
    let (flag, was) = get_elem?-lt w.seen target lt in
    let u = if flag then w else push w target in
    let first : Scanned col_idx 1 i w u = Scanned-edge col_idx i target w at lt flag was in
    let size = first.size in
    let (t, ends, rest) =
      scan_edges_lem col_idx k (suc i) u (omega arith) (λ j v e. rw size (targets j v e)) in
    (t, rw (at, was) ends, Scanned-trans col_idx k i w u t first rest)
