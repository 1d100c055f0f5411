-- ===== src/Btf/Closure/Correct.antt =====
-- `add_type_closure` marks what the type leads to.
use mathlib.Core.Path.{subst}
use binary_kernel_code_mappi.Prelude.{
  ℕ, zero, suc, ◌≡◌, refl, sym, ◌∙◌, inl, inr, List, [], ◌∷◌, Option, none, some, Bool-cases,
  Option-cases,
}
use binary_kernel_code_mappi.Btf.Closure.{
  SourcePlace, base, Sources, get_type, Node, is_marked, in_base, mentioned, add_type_closure,
}
use binary_kernel_code_mappi.Btf.Closure.Reach.{
  IsMarked, IsMarked-cons, target, Mentions, TypeReach, here, step, target_self, target-missing,
  target-in_base,
}
use binary_kernel_code_mappi.Btf.Closure.Visits.{
  Visits, Visits-skip, Visits-old, Visits-new, Visits-missing, IsSettled, follow_all-Visits,
}

module _ (src : Sources) where
  -- A call that is passed on to the base.
  Visits-in_base :
      (place : SourcePlace) (i : ℕ) (a b : List Node)
      → target src place (suc i) ≡ target src base (suc i)
      → Visits src base (some (suc i) ∷ []) a b
      → Visits src place (some (suc i) ∷ []) a b
  Visits-in_base place i a b same x = record {
    kept = x.kept;
    done = λ j at. elim at [
      | inl e ↦ (let k : j ≡ i = cc in rw (k, same) (x.done i (inl refl)))
      | inr bad ↦ absurd bad
    ];
    closed = x.closed;
    sound = λ n m. elim (x.sound n m) [
      | inl old ↦ inl old
      | inr (j, inl e, r) ↦
          (let k : j ≡ i = cc in
            inr (i, inl refl, over n (subst (λ (y : ℕ). TypeReach src base (suc y) n) k r)))
      | inr (j, inr bad, r) ↦ absurd bad
    ];
  }
    where
      over : (n : Node) → TypeReach src base (suc i) n → TypeReach src place (suc i) n
      over n (here _ e) = here n (e ∙ sym same)
      over n (step {u} r edge) = step (over u r) edge

  pub add_type_closure-Visits :
      (depth : ℕ) (place : SourcePlace) (o : Option ℕ) (a b : List Node)
      → IsSettled src a
      → add_type_closure src depth place o a ≡ some b
      → Visits src place (o ∷ []) a b
  unfolding add_type_closure
  add_type_closure-Visits zero place o a b settled h = cc
  add_type_closure-Visits (suc depth) place none a b settled h =
      let same : a ≡ b = cc in
      subst (Visits src place (none ∷ []) a) same (Visits-skip src place none a (λ i bad. cc))
  add_type_closure-Visits (suc depth) place (some zero) a b settled h =
      let same : a ≡ b = cc in
      subst (Visits src place (some zero ∷ []) a) same
        (Visits-skip src place (some zero) a (λ i bad. absurd (zero-ne bad)))
    where
      zero-ne : {i : ℕ} → ◌≡◌ {A = Option ℕ} (some zero) (some (suc i)) → ⊥
      zero-ne bad = cc
  add_type_closure-Visits (suc depth) place (some (suc i)) a b settled h =
      elim (Bool-cases (is_marked a (place, suc i))) [
        | inl old ↦
            let last = rw old at h in
            let same : a ≡ b = cc in
            subst (Visits src place (some (suc i) ∷ []) a) same
              (Visits-old src place i a (settled (place, suc i) old) old)
        | inr new ↦ elim (Option-cases (get_type src place (suc i))) [
          | inr (o, found) ↦
              let at = target_self src place (suc i) o found in
              let inner = rw (new, found, add_type_closure) at h in
              Visits-new src place i a o b found at (
                follow_all-Visits src (add_type_closure src depth place) place
                  (add_type_closure-Visits depth place) (mentioned o.kind o) ((place, suc i) ∷ a) b
                  (settle at) inner)
          | inl missing ↦ elim (Bool-cases (in_base src place (suc i))) [
            | inl there ↦
                Visits-in_base place i a b (target-in_base src place (suc i) missing there) (
                  add_type_closure-Visits depth base (some (suc i)) a b settled
                    (rw (new, missing, there, add_type_closure) at h))
            | inr neither ↦
                let last = rw (new, missing, neither, add_type_closure) at h in
                let same : (place, suc i) ∷ a ≡ b = cc in
                subst (Visits src place (some (suc i) ∷ []) a) same (
                  Visits-missing src place i a missing
                    (target-missing src place (suc i) missing neither))
          ]
        ]
      ]
    where
      settle : target src place (suc i) ≡ (place, suc i) → IsSettled src ((place, suc i) ∷ a)
      settle at n m = elim (IsMarked-cons (place, suc i) n a m) [
        | inr old ↦ settled n old
        | inl it ↦ rw it at
      ]

  -- The marks hold what every marked type mentions.
  abbrev pub IsClosed : List Node → Type 0
  IsClosed marks = (n v : Node) → IsMarked marks n → Mentions src n v → IsMarked marks v

  pub TypeReach-marked :
      (place : SourcePlace) (i : ℕ) (a b : List Node)
      → IsClosed a
      → Visits src place (some (suc i) ∷ []) a b
      → (n : Node) → TypeReach src place (suc i) n
      → IsMarked b n
  TypeReach-marked place i a b closed x n (here _ e) = rw e (x.done i (inl refl))
  TypeReach-marked place i a b closed x n (step {u} r edge) =
      elim (x.closed u n (TypeReach-marked place i a b closed x u r) edge) [
        | inr now ↦ now
        | inl old ↦ x.kept n (closed u n old edge)
      ]
