-- ===== src/Checker/Verdict.antt =====
-- What the analysis visits, and what the exit code of the report means.
use mathlib.Core.Path.{subst}
use binary_kernel_code_mappi.Prelude.{
  ℕ, zero, suc, ◌≡◌, ◌↔◌, refl, sym, ◌⊎◌, inl, inr, true, List, [], ◌∷◌, Text, In, List-cases,
  Result, ok, err, arith,
}
use binary_kernel_code_mappi.Checker.{is_named}
use binary_kernel_code_mappi.Checker.State.{State, Engine, initial_state}
use binary_kernel_code_mappi.Checker.Insns.{CheckError}
use binary_kernel_code_mappi.Checker.Analyze.{
  AnalysisError, raised, analyze_name, analyze_queue, analyze, exit_code,
}
use binary_kernel_code_mappi.Checker.Enqueueing.{enqueue_all-kept, enqueue_all-added}
use binary_kernel_code_mappi.Checker.Callees.{callees, CallReach, here, step}
use binary_kernel_code_mappi.Checker.Rounds.{analyze_name-Gives}
use binary_kernel_code_mappi.Checker.Cleanliness.{
  NoFindings, IsClean, Effect-NoFindings, analyze_name-IsClean,
}
use binary_kernel_code_mappi.Checker.Termination.{
  IsPending, front-unvisited, analyze_name-IsPending, initial_state-IsPending,
}

-- The name was visited, or waits.
abbrev IsKnown : State → Text → Type 0
IsKnown s n = In n s.visited ⊎ In n s.queue

record Inv (e : Engine) (target : Text) (s : State) : Type 0 where
  pending : IsPending e target s
  rooted : IsKnown s target
  sound : (n : Text) → In n s.visited → CallReach e target n
  closed : (n m : Text) → In n s.visited → In m (callees e n) → is_named m ≡ true → IsKnown s m
  clean : NoFindings s → (n : Text) → In n s.visited → IsClean e n

module _ (e : Engine) (target : Text) where
  analyze_name-Inv :
      (s t : State) (name : Text) (queue : List Text)
      → s.queue ≡ name ∷ queue
      → Inv e target s
      → analyze_name e name (record s { queue = queue }) ≡ ok t
      → Inv e target t
  analyze_name-Inv s t name queue top inv h =
      let popped : State = record s { queue = queue } in
      let new = front-unvisited e target s name queue top inv.pending in
      let eff = analyze_name-Gives e name popped new t h in
      let known : (n : Text) → IsKnown s n → IsKnown t n = λ n k. elim k [
        | inl seen ↦ inl (rw eff.visited (inr seen))
        | inr waits ↦
            let at : In n (name ∷ queue) = rw top at waits in
            elim at [
              | inl same ↦ inl (rw eff.visited (inl same))
              | inr later ↦ inr (
                  rw eff.queue (enqueue_all-kept (name ∷ s.visited) n (callees e name) queue later))
            ]
      ] in
      record {
        pending = analyze_name-IsPending e target s t name queue top inv.pending h;
        rooted = known target inv.rooted;
        sound = λ n m.
            let at : In n (name ∷ s.visited) = rw eff.visited at m in
            elim at [
              | inl same ↦ inv.pending.reached n (rw top (inl same))
              | inr seen ↦ inv.sound n seen
            ];
        closed = λ n m seen called named.
            let at : In n (name ∷ s.visited) = rw eff.visited at seen in
            elim at [
              | inr before ↦ known m (inv.closed n m before called named)
              | inl same ↦
                  let called' = subst (λ x. In m (callees e x)) same called in
                  elim (enqueue_all-added (name ∷ s.visited) m (callees e name) queue called'
                    named) [
                      | inl visited ↦ inl (rw eff.visited visited)
                      | inr waits ↦ inr (rw eff.queue waits)
                    ]
            ];
        clean = λ findings n seen.
            let at : In n (name ∷ s.visited) = rw eff.visited at seen in
            elim at [
              | inl same ↦
                  subst (IsClean e) (sym same) (analyze_name-IsClean e name popped t new h findings)
              | inr before ↦ inv.clean (Effect-NoFindings _ eff findings) n before
            ];
      }

  analyze_queue-Inv :
      (fuel : ℕ) (s t : State)
      → Inv e target s
      → analyze_queue e fuel s ≡ ok t
      → Inv e target t × (t.queue ≡ [])
  unfolding analyze_queue
  analyze_queue-Inv zero s t inv h = elim (List-cases s.queue) [
    | inr (name, queue, top) ↦ let last = rw (top, analyze_queue) at h in cc
    | inl empty ↦
        let last = rw (empty, analyze_queue) at h in
        let same : s ≡ t = cc in subst (λ u. Inv e target u × (u.queue ≡ [])) same (inv, empty)
  ]
  analyze_queue-Inv (suc fuel) s t inv h = elim (List-cases s.queue) [
    | inl empty ↦
        let last = rw (empty, analyze_queue) at h in
        let same : s ≡ t = cc in subst (λ u. Inv e target u × (u.queue ≡ [])) same (inv, empty)
    | inr (name, queue, top) ↦
        go name queue top (λ u next last. analyze_queue-Inv fuel u t next last)
          (analyze_name e name (record s { queue = queue })) refl (rw (top, analyze_queue) at h)
  ]
    where
      go :
          (name : Text) (queue : List Text)
          → s.queue ≡ name ∷ queue
          → ((u : State)
              → Inv e target u
              → analyze_queue e fuel u ≡ ok t
              → Inv e target t × (t.queue ≡ []))
          → (r : Result CheckError State) → analyze_name e name (record s { queue = queue }) ≡ r
          → elim r as (λ _. Result AnalysisError State) [
            | err x ↦ err (raised x)
            | ok u ↦ analyze_queue e fuel u
          ]
            ≡ ok t
          → Inv e target t × (t.queue ≡ [])
      go name queue top rest (err x) round last = cc
      go name queue top rest (ok u) round last =
          rest u (analyze_name-Inv s u name queue top inv round) last

  analyze-Inv :
      (fuel : ℕ) (t : State) → analyze e fuel target ≡ ok t → Inv e target t × (t.queue ≡ [])
  unfolding analyze initial_state
  analyze-Inv fuel t h =
      analyze_queue-Inv fuel (initial_state target) t
        (record {
          pending = initial_state-IsPending e target;
          rooted = inr (inl refl);
          sound = λ n bad. absurd bad;
          closed = λ n m bad called named. absurd bad;
          clean = λ findings n bad. absurd bad;
        })
        h

  visited-all :
      (t : State)
      → Inv e target t
      → t.queue ≡ []
      → (n : Text) → CallReach e target n
      → In n t.visited
  visited-all t inv empty n here = elim (inv.rooted) [
    | inl seen ↦ seen
    | inr waits ↦ absurd (rw empty at waits)
  ]
  visited-all t inv empty n (step {caller} reach called named) =
      elim (inv.closed caller n (visited-all t inv empty caller reach) called named) [
        | inl seen ↦ seen
        | inr waits ↦ absurd (rw empty at waits)
      ]

-- Where the analysis ends, it has visited exactly the functions that the code of the target leads to.
pub analyze-visited :
    (e : Engine) (target : Text) (fuel : ℕ) (t : State)
    → analyze e fuel target ≡ ok t
    → (n : Text) → In n t.visited ↔ CallReach e target n
analyze-visited e target fuel t h n =
    let (inv, empty) = analyze-Inv e target fuel t h in
    (inv.sound n, visited-all e target t inv empty n)

exit_code-NoFindings : (t : State) → exit_code t ≡ 0 → NoFindings t
unfolding exit_code
exit_code-NoFindings t h = elim (List-cases t.hard_fails) [
  | inr (fail, fails, some_fails) ↦
      let bad = rw (some_fails, exit_code) at h in absurd (omega arith)
  | inl no_fails ↦ elim (List-cases t.missing_deps) [
    | inr (dep, deps, some_missing) ↦
        let bad = rw (no_fails, some_missing, exit_code) at h in absurd (omega arith)
    | inl no_missing ↦ elim (List-cases t.unanalyzable_funcs) [
      | inr (entry, entries, some_entries) ↦
          let bad = rw (no_fails, no_missing, some_entries, exit_code) at h in absurd (omega arith)
      | inl no_entries ↦ (no_fails, no_missing, no_entries)
    ]
  ]
]

-- Where the analysis returns and the exit code of the report is 0, every function that the code of the target
-- leads to is defined in a loaded file; its code disassembles to at least one instruction; no instruction is
-- privileged or names a control register; and the first relocation within the bytes of each instruction, where
-- there is one, has a known target and is not absolute.
pub exit_code-IsClean :
    (e : Engine) (target : Text) (fuel : ℕ) (t : State)
    → analyze e fuel target ≡ ok t
    → exit_code t ≡ 0
    → (n : Text) → CallReach e target n
    → IsClean e n
exit_code-IsClean e target fuel t h pass n reach =
    let (inv, empty) = analyze-Inv e target fuel t h in
    inv.clean (exit_code-NoFindings t pass) n (visited-all e target t inv empty n reach)
