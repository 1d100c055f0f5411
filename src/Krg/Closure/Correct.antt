-- ===== src/Krg/Closure/Correct.antt =====
-- The flags of `closure_flags` are the reachable nodes, and `closure` returns those nodes in order.
use binary_kernel_code_mappi.Prelude.{
  ℕ, zero, suc, ◌≤◌, ◌<◌, ◌≡◌, refl, sym, ap, ◌∙◌, ◌↔◌, ◌≢◌, inl, inr, Bool, true, false, List, [],
  ◌∷◌, some, Text, length, In, get_elem?, set, replicate, get_elem?-set, length-set,
  length-replicate, lookup, Bool-cases, ◌==◌, ok, arith,
}
use binary_kernel_code_mappi.Krg.{KrgResolvedSymbol, KrgGraph}
use binary_kernel_code_mappi.Krg.Closure.{Walk, start, closure, flagged}
use binary_kernel_code_mappi.Krg.Closure.Spec.{Reach, here, step, IsGraph}
use binary_kernel_code_mappi.Krg.Closure.Scan.{IsMarked, unseen}
use binary_kernel_code_mappi.Krg.Closure.Loop.{Inv, work, walk_lem}

get_elem?-replicate : (n v : ℕ) → get_elem? (replicate n false) v ≢ some true
get_elem?-replicate zero v h = cc
get_elem?-replicate (suc n) zero h = cc
get_elem?-replicate (suc n) (suc v) h = get_elem?-replicate n v h

unseen-replicate : (n : ℕ) → unseen (replicate n false) ≡ n
unseen-replicate zero = refl
unseen-replicate (suc n) = ap suc (unseen-replicate n)

unseen-set-replicate : (n i : ℕ) → i < n → suc (unseen (set (replicate n false) i true)) ≡ n
unseen-set-replicate zero i h = absurd (omega arith)
unseen-set-replicate (suc n) zero h = ap suc (unseen-replicate n)
unseen-set-replicate (suc n) (suc i) h = ap suc (unseen-set-replicate n i (omega arith))

module _ (g : KrgGraph) (stop_names : List Text) (root : ℕ) (lt : root < g.node_count) where
  marked-start : (v : ℕ) → IsMarked (start g root) v → v ≡ root
  unfolding start
  marked-start v m = elim (Bool-cases (root == v)) [
    | inl same ↦ ground arith
    | inr other ↦ absurd (
        get_elem?-replicate g.node_count v (
          ground (
            arith,
            get_elem?-set (replicate g.node_count false) root v true,
            length-replicate g.node_count false,
          )))
  ]

  root-IsMarked : IsMarked (start g root) root
  unfolding start
  root-IsMarked = ground (
    arith,
    get_elem?-set (replicate g.node_count false) root root true,
    length-replicate g.node_count false,
  )

  Inv-start : Inv g stop_names root (start g root)
  unfolding start
  Inv-start = record {
    size =
        length-set (replicate g.node_count false) root true ∙ length-replicate g.node_count false;
    rooted = root-IsMarked;
    stacked = λ v s. elim s [ inl same ↦ rw same root-IsMarked | inr none_left ↦ absurd none_left ];
    sound = λ v m. rw (marked-start v m) here;
    closed = λ u v m e. inl (inl (marked-start u m));
  }

  start_work : work g stop_names root (start g root) ≤ g.node_count
  unfolding start
  start_work = omega (arith, unseen-set-replicate g.node_count root lt)

-- With an empty stack the marked nodes are closed under edges.
complete :
    (g : KrgGraph) (stop_names : List Text) (root : ℕ) (t : Walk)
    → Inv g stop_names root t
    → t.stack ≡ []
    → {v : ℕ} → Reach g stop_names root v
    → IsMarked t v
complete g stop_names root t inv empty here = inv.rooted
complete g stop_names root t inv empty (step {u} {v} r e) =
    elim (inv.closed u v (complete g stop_names root t inv empty r) e) [
      | inl waiting ↦ absurd (let none_left : In u [] = rw empty at waiting in none_left)
      | inr m ↦ m
    ]

-- In a graph whose indices are in range, from a name that it has, the walk raises nothing and does not run
-- out of rounds; a flag is set exactly at the nodes that the root reaches over edges that leave no stop name;
-- and `closure` returns the flagged nodes.
pub closure_correct :
    (g : KrgGraph) (symbol_name : Text) (stop_names : List Text) (root : ℕ)
    → IsGraph g
    → lookup symbol_name g.name_to_id ≡ some root
    → (seen : List Bool) × (closure g symbol_name stop_names ≡ ok (flagged g.nodes seen))
      × (length seen ≡ g.node_count)
      × ((v : ℕ) → (get_elem? seen v ≡ some true) ↔ Reach g stop_names root v)
unfolding closure
closure_correct g symbol_name stop_names root graph found =
    let lt = graph.names symbol_name root found in
    let (t, ends, inv, empty) =
      walk_lem g stop_names root graph g.node_count (start g root) (start_work g stop_names root lt)
        (Inv-start g stop_names root lt) in
    (
      t.seen,
      rw found (rw ends refl),
      inv.size,
      λ v. (inv.sound v, complete g stop_names root t inv empty),
    )

In-flagged :
    (s : KrgResolvedSymbol) (nodes : List KrgResolvedSymbol) (flags : List Bool)
    → In s (flagged nodes flags)
    → (v : ℕ) × (get_elem? nodes v ≡ some s) × (get_elem? flags v ≡ some true)
unfolding flagged
In-flagged s [] flags h = absurd h
In-flagged s (n ∷ nodes) [] h = absurd h
In-flagged s (n ∷ nodes) (true ∷ flags) (inl e) = (0, ap some (sym e), refl)
In-flagged s (n ∷ nodes) (true ∷ flags) (inr h) =
    let (v, at, on) = In-flagged s nodes flags h in (suc v, at, on)
In-flagged s (n ∷ nodes) (false ∷ flags) h =
    let (v, at, on) = In-flagged s nodes flags h in (suc v, at, on)

flagged-In :
    (s : KrgResolvedSymbol) (nodes : List KrgResolvedSymbol) (flags : List Bool) (v : ℕ)
    → get_elem? nodes v ≡ some s
    → get_elem? flags v ≡ some true
    → In s (flagged nodes flags)
unfolding flagged
flagged-In s [] flags v at on = cc
flagged-In s (n ∷ nodes) [] v at on = cc
flagged-In s (n ∷ nodes) (true ∷ flags) zero at on = inl (cc)
flagged-In s (n ∷ nodes) (true ∷ flags) (suc v) at on = inr (flagged-In s nodes flags v at on)
flagged-In s (n ∷ nodes) (false ∷ flags) zero at on = cc
flagged-In s (n ∷ nodes) (false ∷ flags) (suc v) at on = flagged-In s nodes flags v at on

-- A symbol is in the returned list exactly if it is the symbol of a node that the root reaches.
pub closure_members :
    (g : KrgGraph) (symbol_name : Text) (stop_names : List Text) (root : ℕ)
    (result : List KrgResolvedSymbol) (s : KrgResolvedSymbol)
    → IsGraph g
    → lookup symbol_name g.name_to_id ≡ some root
    → closure g symbol_name stop_names ≡ ok result
    → In s result ↔ ((v : ℕ) × (get_elem? g.nodes v ≡ some s) × Reach g stop_names root v)
closure_members g symbol_name stop_names root result s graph found h =
    let (seen, is, _, flags) = closure_correct g symbol_name stop_names root graph found in
    let e : result ≡ flagged g.nodes seen = cc in
    rw e (
      (λ m. let (v, at, on) = In-flagged s g.nodes seen m in (v, at, (flags v).0 on)),
      (λ (v, at, r). flagged-In s g.nodes seen v at ((flags v).1 r)),
    )
