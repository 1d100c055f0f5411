-- ===== src/Checker/Termination.antt =====
-- The rounds of the queue end: each visits another name of the symbol tables.
use mathlib.Core.Path.{subst}
use binary_kernel_code_mappi.Prelude.{
  ℕ, zero, suc, ◌≤◌, ◌<◌, ◌≡◌, ◌≢◌, refl, sym, ap, ◌⊎◌, inl, inr, true, false, List, [], ◌∷◌, Text,
  length, In, contains, contains_iff, text_eq, text_eq_iff, Bool-cases, List-cases, Result, ok, err,
  arith,
}
use binary_kernel_code_mappi.Checker.SymbolNames.{IsSymtab, engine_names}
use binary_kernel_code_mappi.Checker.Names.{CallReach-named}
use binary_kernel_code_mappi.Checker.State.{State, Engine, initial_state}
use binary_kernel_code_mappi.Checker.Insns.{CheckError}
use binary_kernel_code_mappi.Checker.Insns.{key_error, type_error}
use binary_kernel_code_mappi.Checker.Analyze.{
  AnalysisError, raised, out_of_fuel, analyze_name, analyze_queue, analyze,
}
use binary_kernel_code_mappi.Checker.Enqueueing.{
  IsFresh, enqueue_all-only, enqueue_all-IsFresh, unvisited, unvisited-lt,
}
use binary_kernel_code_mappi.Checker.Callees.{callees, CallReach, here, step}
use binary_kernel_code_mappi.Checker.Rounds.{analyze_name-Gives}

contains-head :
    (name : Text) (names : List Text) (n : Text)
    → contains (name ∷ names) n ≡ false
    → (text_eq name n ≡ false) × (contains names n ≡ false)
unfolding contains
contains-head name names n h = ground arith

-- Every name that waits was not visited, waits once, and is reached from the target.
pub record IsPending (e : Engine) (target : Text) (s : State) : Type 0 where
  pub fresh : IsFresh s.visited s.queue
  pub reached : (n : Text) → In n s.queue → CallReach e target n

module _ (e : Engine) (target : Text) where
  -- What is known of the front of the queue.
  pub front-unvisited :
      (s : State) (name : Text) (queue : List Text)
      → s.queue ≡ name ∷ queue
      → IsPending e target s
      → contains s.visited name ≡ false
  front-unvisited s name queue top p = p.fresh.1 name (rw top (inl refl))

  IsFresh-visit :
      (name : Text) (visited queue : List Text)
      → IsFresh visited (name ∷ queue)
      → IsFresh (name ∷ visited) queue
  unfolding contains
  IsFresh-visit name visited queue ((alone, distinct), unseen) = (
    distinct,
    λ n h. elim (Bool-cases (text_eq name n)) [
      | inr other ↦ rw other (unseen n (inr h))
      | inl same ↦
          let e : name ≡ n = (text_eq_iff name n).0 same in
          let again : contains queue name ≡ true = (contains_iff queue name).1 (rw e h) in cc
    ],
  )

  -- A round keeps that.
  pub analyze_name-IsPending :
      (s t : State) (name : Text) (queue : List Text)
      → s.queue ≡ name ∷ queue
      → IsPending e target s
      → analyze_name e name (record s { queue = queue }) ≡ ok t
      → IsPending e target t
  analyze_name-IsPending s t name queue top p h =
      let eff =
        analyze_name-Gives e name (record s { queue = queue }) (front-unvisited s name queue top p)
          t h in
      let before : IsFresh s.visited (name ∷ queue) = rw top at (p.fresh) in
      record {
        fresh =
            rw (eff.visited, eff.queue)
              (enqueue_all-IsFresh (name ∷ s.visited) (callees e name) queue
                (IsFresh-visit name s.visited queue before));
        reached = λ n m.
            let waits = rw eff.queue at m in
            elim (enqueue_all-only (name ∷ s.visited) n (callees e name) queue waits) [
              | inl old ↦ p.reached n (rw top (inr old))
              | inr (called, named) ↦ step (p.reached name (rw top (inl refl))) called named
            ];
      }

  -- With a round for each name that can still be visited, the fuel does not run out.
  analyze_queue-ends :
      (names : List Text)
      → ((n : Text) → CallReach e target n → In n names)
      → (fuel : ℕ) (s : State) → IsPending e target s
      → unvisited names s.visited ≤ fuel
      → analyze_queue e fuel s ≢ err out_of_fuel
  unfolding analyze_queue
  analyze_queue-ends names all zero s p le h = elim (List-cases s.queue) [
    | inl empty ↦ let last = rw (empty, analyze_queue) at h in cc
    | inr (name, queue, top) ↦
        let less =
          unvisited-lt name names s.visited (all name (p.reached name (rw top (inl refl))))
            (front-unvisited s name queue top p) in
        absurd (omega arith)
  ]
  analyze_queue-ends names all (suc fuel) s p le h = elim (List-cases s.queue) [
    | inl empty ↦ let last = rw (empty, analyze_queue) at h in cc
    | inr (name, queue, top) ↦
        let less =
          unvisited-lt name names s.visited (all name (p.reached name (rw top (inl refl))))
            (front-unvisited s name queue top p) in
        go name queue top less (λ t next le'. analyze_queue-ends names all fuel t next le')
          (analyze_name e name (record s { queue = queue })) refl (rw (top, analyze_queue) at h)
  ]
    where
      go :
          (name : Text) (queue : List Text)
          → s.queue ≡ name ∷ queue
          → unvisited names (name ∷ s.visited) < unvisited names s.visited
          → ((t : State)
              → IsPending e target t
              → unvisited names t.visited ≤ fuel
              → analyze_queue e fuel t ≢ err out_of_fuel)
          → (r : Result CheckError State) → analyze_name e name (record s { queue = queue }) ≡ r
          → elim r as (λ _. Result AnalysisError State) [
            | err x ↦ err (raised x)
            | ok t ↦ analyze_queue e fuel t
          ]
            ≡ err out_of_fuel
          → ⊥
      go name queue top less rest (err x) round last = cc
      go name queue top less rest (ok t) round last =
          let eff =
            analyze_name-Gives e name (record s { queue = queue })
              (front-unvisited s name queue top p) t round in
          rest t (analyze_name-IsPending s t name queue top p round) (rw eff.visited (omega arith))
            last

-- At the start the target waits.
pub initial_state-IsPending :
    (e : Engine) (target : Text) → IsPending e target (initial_state target)
unfolding initial_state contains
initial_state-IsPending e target = record {
  fresh = ((refl, tt), λ n h. refl);
  reached = λ n h. elim h [
    | inl same ↦ subst (CallReach e target) (sym same) here
    | inr bad ↦ absurd bad
  ];
}

unvisited-nil : (names : List Text) → unvisited names [] ≡ length names
unfolding contains
unvisited-nil [] = refl
unvisited-nil (n ∷ names) = ap suc (unvisited-nil names)

result-cases :
    (r : Result AnalysisError State)
    → r ≢ err out_of_fuel
    → ((t : State) × (r ≡ ok t)) ⊎ ((r ≡ err (raised key_error)) ⊎ (r ≡ err (raised type_error)))
result-cases (ok t) ends = inl (t, refl)
result-cases (err (raised key_error)) ends = inr (inl refl)
result-cases (err (raised type_error)) ends = inr (inr refl)
result-cases (err out_of_fuel) ends = absurd (ends refl)

-- With a round for each name of a symbol table and one for the target, the analysis returns, or a relocation
-- without an addend raises a KeyError, or a symbol with a reserved section index a TypeError. A symbol that is
-- found by its number is in the symbol table.
pub analyze-ends :
    (e : Engine) (target : Text) (fuel : ℕ)
    → IsSymtab e
    → suc (length (engine_names e)) ≤ fuel
    → ((t : State) × (analyze e fuel target ≡ ok t))
      ⊎ ((analyze e fuel target ≡ err (raised key_error))
          ⊎ (analyze e fuel target ≡ err (raised type_error)))
unfolding analyze initial_state
analyze-ends e target fuel symtab enough = result-cases (analyze e fuel target) (
    analyze_queue-ends e target (target ∷ engine_names e)
      (λ n reach. CallReach-named e target symtab n reach) fuel (initial_state target)
      (initial_state-IsPending e target) (omega (arith, unvisited-nil (target ∷ engine_names e))))
