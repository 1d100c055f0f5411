-- ===== src/Krg/Closure/Loop.antt =====
-- The outer loop: its invariant, one round, and the end after at most `node_count` rounds.
use binary_kernel_code_mappi.Prelude.{
  ℕ, zero, suc, ◌+◌, ◌-◌, ◌≤◌, ◌<◌, ◌≡◌, refl, ap, ◌∙◌, ◌⊎◌, inl, inr, true, List, [], ◌∷◌, some,
  Text, length, In, get_elem?, get_elem?-lt, lt_of_get_elem?, List-cases, Bool-cases, contains, ok,
  arith,
}
use mathlib.Core.Logic.{⊎_elim}
use mathlib.Core.Path.{subst}
use binary_kernel_code_mappi.Krg.{KrgResolvedSymbol, KrgGraph}
use binary_kernel_code_mappi.Krg.Closure.{Walk, is_stopped, expand, walk}
use binary_kernel_code_mappi.Krg.Closure.Spec.{Edge, edge, Reach, step, IsGraph}
use binary_kernel_code_mappi.Krg.Closure.Scan.{
  IsMarked, unseen, Scanned, Scanned-nil, scan_edges_lem,
}

module _ (g : KrgGraph) (stop_names : List Text) (node : ℕ) where
  no-Edge :
      {v : ℕ} (sym : KrgResolvedSymbol)
      → get_elem? g.nodes node ≡ some sym
      → contains stop_names sym.name ≡ true
      → ¬ Edge g stop_names node v
  no-Edge sym named stops (edge sym' _ _ _ named' goes _ _ _ _ _) =
      let same : sym ≡ sym' = cc in
      let stops' = ap (λ (s : KrgResolvedSymbol). contains stop_names s.name) same in cc

  Edge-within :
      (row_start row_end : ℕ)
      → get_elem? g.row_ptr node ≡ some row_start
      → get_elem? g.row_ptr (suc node) ≡ some row_end
      → (v : ℕ) → Edge g stop_names node v
      → (i : ℕ) × (row_start ≤ i) × (i < row_end) × (get_elem? g.col_idx i ≡ some v)
  Edge-within row_start row_end starts ends v (edge _ s e i _ _ starts' ends' lo hi at) =
      let same_start : s ≡ row_start = cc in
      let same_end : e ≡ row_end = cc in (i, omega arith, omega arith, at)

is_stopped-at :
    (g : KrgGraph) (stop_names : List Text) (node : ℕ) (sym : KrgResolvedSymbol)
    → get_elem? g.nodes node ≡ some sym
    → is_stopped g stop_names node ≡ ok (contains stop_names sym.name)
unfolding is_stopped contains
is_stopped-at g [] node sym named = refl
is_stopped-at g (name ∷ names) node sym named = rw named refl

module _ (g : KrgGraph) (stop_names : List Text) (root : ℕ) where
  pub record Inv (w : Walk) : Type 0 where
    pub size : length w.seen ≡ g.node_count
    pub rooted : IsMarked w root
    pub stacked : (v : ℕ) → In v w.stack → IsMarked w v
    pub sound : (v : ℕ) → IsMarked w v → Reach g stop_names root v
    pub closed : (u v : ℕ) → IsMarked w u → Edge g stop_names u v → In u w.stack ⊎ IsMarked w v

  abbrev pub work : Walk → ℕ
  work w = unseen w.seen + length w.stack

  module _ (graph : IsGraph g) (w : Walk) (node : ℕ) (rest : List ℕ) where
    abbrev popped : Walk
    popped = record w { stack = rest }

    scan_lem :
        (row_start row_end : ℕ) (t : Walk)
        → Inv w
        → w.stack ≡ node ∷ rest
        → ((i v : ℕ)
            → row_start ≤ i
            → i < row_end
            → get_elem? g.col_idx i ≡ some v
            → Edge g stop_names node v)
        → ((v : ℕ)
            → Edge g stop_names node v
            → (i : ℕ) × (row_start ≤ i) × (i < row_end) × (get_elem? g.col_idx i ≡ some v))
        → Scanned g.col_idx (row_end - row_start) row_start popped t
        → Inv t
    scan_lem row_start row_end t inv top is_edge edge_is sc = record {
      size = sc.size ∙ inv.size;
      rooted = sc.kept root inv.rooted;
      stacked = λ v s.
          ⊎_elim (λ s'. sc.kept v (inv.stacked v (rw top (inr s')))) (λ m. m) (sc.stacked v s);
      sound = λ v m. elim (sc.fresh v m) [
        | inl m' ↦ inv.sound v m'
        | inr (s, (j, lo, hi, e)) ↦
            step (inv.sound node (inv.stacked node (rw top (inl refl))))
              (is_edge j v lo (omega arith) e)
      ];
      closed = λ u v m e. elim (sc.fresh u m) [
        | inr (s, _) ↦ inl s
        | inl m' ↦ elim (inv.closed u v m' e) [
          | inr mv ↦ inr (sc.kept v mv)
          | inl s ↦
              ⊎_elim
                (λ same.
                  let (i, lo, hi, at) = edge_is v (subst (λ x. Edge g stop_names x v) same e) in
                  inr (sc.reached i v lo (omega arith) at))
                (λ s'. inl (sc.waiting u s')) (let s' : In u (node ∷ rest) = rw top at s in s')
        ]
      ];
    }

    -- One round raises nothing, keeps the invariant and leaves one unit of work less.
    expand_lem :
        Inv w
        → w.stack ≡ node ∷ rest
        → (t : Walk) × (expand g stop_names node popped ≡ ok t) × Inv t × (suc (work t) ≡ work w)
    unfolding expand
    expand_lem inv top =
        let lt : node < g.node_count =
          omega
            (arith, inv.size, lt_of_get_elem? w.seen node (inv.stacked node (rw top (inl refl)))) in
        let (sym, named) = get_elem?-lt g.nodes node (omega (arith, graph.nodes_size)) in
        let (row_start, starts) = get_elem?-lt g.row_ptr node (omega (arith, graph.rows_size)) in
        let (row_end, ends) = get_elem?-lt g.row_ptr (suc node) (omega (arith, graph.rows_size)) in
        let size = inv.size in
        let popped_work : suc (work popped) ≡ work w = omega (arith, ap length top) in
        elim (Bool-cases (contains stop_names sym.name)) [
          | inl stops ↦ (
            popped,
            rw (is_stopped-at g stop_names node sym named, stops) refl,
            scan_lem 0 0 popped inv top (λ i v lo hi e. absurd (omega arith))
                (λ v e. absurd (no-Edge g stop_names node sym named stops e))
                (Scanned-nil g.col_idx 0 popped),
            popped_work,
          )
          | inr goes ↦
              let (t, eq, sc) =
                scan_edges_lem g.col_idx (row_end - row_start) row_start popped
                  (omega
                    (arith, graph.rows node row_start starts, graph.rows (suc node) row_end ends))
                  (λ j v e. rw size (graph.targets j v e)) in
              (
                t,
                rw (is_stopped-at g stop_names node sym named, goes, starts, ends) eq,
                scan_lem row_start row_end t inv top
                    (λ i v lo hi e. edge sym row_start row_end i named goes starts ends lo hi e)
                    (Edge-within g stop_names node row_start row_end starts ends) sc,
                omega (arith, popped_work, sc.work),
              )
        ]

  -- With enough rounds the walk ends with an empty stack, and the invariant holds.
  pub walk_lem :
      IsGraph g
      → (fuel : ℕ) (w : Walk) → work w ≤ fuel
      → Inv w
      → (t : Walk) × (walk g stop_names fuel w ≡ ok t) × Inv t × (t.stack ≡ [])
  unfolding walk
  walk_lem graph zero w h inv = elim (List-cases w.stack) [
    | inl empty ↦ (w, simp (empty, walk), inv, empty)
    | inr (node, rest, top) ↦ absurd (omega (arith, ap length top))
  ]
  walk_lem graph (suc fuel) w h inv = elim (List-cases w.stack) [
    | inl empty ↦ (w, simp (empty, walk), inv, empty)
    | inr (node, rest, top) ↦
        let (u, round, kept, less) = expand_lem graph w node rest inv top in
        let (t, ends, kept', empty) = walk_lem graph fuel u (omega arith) kept in
        (t, simp (top, walk) (rw round ends), kept', empty)
  ]
