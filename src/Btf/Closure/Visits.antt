-- ===== src/Btf/Closure/Visits.antt =====
-- What one call of `add_type_closure` marks, if it returns.
use mathlib.Core.Path.{subst}
use binary_kernel_code_mappi.Prelude.{
  ℕ, suc, ◌≡◌, ◌≢◌, refl, sym, ◌∙◌, ◌⊎◌, inl, inr, List, [], ◌∷◌, Option, none, some, In,
  Option-cases,
}
use binary_kernel_code_mappi.Btf.{BtfType}
use binary_kernel_code_mappi.Btf.Closure.{
  SourcePlace, Sources, get_type, Node, mentioned, follow_all,
}
use binary_kernel_code_mappi.Btf.Closure.Reach.{
  IsMarked, IsMarked-cons, IsMarked-head, IsMarked-tail, target, Mentions, mentions, TypeReach,
  here, step, TypeReach-trans, TypeReach-settled,
}

module _ (src : Sources) where
  -- Where the calls for `tids` lead from `marks` to `marks'`.
  pub record Visits (place : SourcePlace) (tids : List (Option ℕ)) (marks marks' : List Node)
      : Type 0 where
    pub kept : (n : Node) → IsMarked marks n → IsMarked marks' n
    pub done : (i : ℕ) → In (some (suc i)) tids → IsMarked marks' (target src place (suc i))
    pub closed :
        (n v : Node) → IsMarked marks' n → Mentions src n v → IsMarked marks n ⊎ IsMarked marks' v
    pub sound :
        (n : Node)
        → IsMarked marks' n
        → IsMarked marks n ⊎ ((i : ℕ) × In (some (suc i)) tids × TypeReach src place (suc i) n)

  Visits-nil : (place : SourcePlace) (marks : List Node) → Visits place [] marks marks
  Visits-nil place marks = record {
    kept = λ n m. m;
    done = λ i bad. absurd bad;
    closed = λ n v m e. inl m;
    sound = λ n m. inl m;
  }

  -- Nothing is marked for a number that is missing or 0.
  pub Visits-skip :
      (place : SourcePlace) (o : Option ℕ) (marks : List Node)
      → ((i : ℕ) → o ≢ some (suc i))
      → Visits place (o ∷ []) marks marks
  Visits-skip place o marks trivial = record {
    kept = λ n m. m;
    done = λ i at. elim at [ inl same ↦ absurd (trivial i (sym same)) | inr bad ↦ absurd bad ];
    closed = λ n v m e. inl m;
    sound = λ n m. inl m;
  }

  Visits-cons :
      (place : SourcePlace) (o : Option ℕ) (tids : List (Option ℕ)) (a b c : List Node)
      → Visits place (o ∷ []) a b
      → Visits place tids b c
      → Visits place (o ∷ tids) a c
  Visits-cons place o tids a b c x y = record {
    kept = λ n m. y.kept n (x.kept n m);
    done = λ i at. elim at [
      | inl same ↦ y.kept (target src place (suc i)) (x.done i (inl same))
      | inr later ↦ y.done i later
    ];
    closed = λ n v m e. elim (y.closed n v m e) [
      | inr now ↦ inr now
      | inl before ↦ elim (x.closed n v before e) [
        | inl old ↦ inl old
        | inr now ↦ inr (y.kept v now)
      ]
    ];
    sound = λ n m. elim (y.sound n m) [
      | inr (i, at, r) ↦ inr (i, inr at, r)
      | inl before ↦ elim (x.sound n before) [
        | inl old ↦ inl old
        | inr (i, inl same, r) ↦ inr (i, inl same, r)
        | inr (i, inr bad, r) ↦ absurd bad
      ]
    ];
  }

  -- Every node that is marked stands in the source that has it.
  abbrev pub IsSettled : List Node → Type 0
  IsSettled marks = (n : Node) → IsMarked marks n → target src n.0 n.1 ≡ n

  pub Visits-IsSettled :
      (place : SourcePlace) (tids : List (Option ℕ)) (a b : List Node)
      → IsSettled a
      → Visits place tids a b
      → IsSettled b
  Visits-IsSettled place tids a b settled x n m = elim (x.sound n m) [
    | inl old ↦ settled n old
    | inr (i, at, r) ↦ TypeReach-settled src place (suc i) n r
  ]

  pub follow_all-Visits :
      (follow : Option ℕ → List Node → Option (List Node)) (place : SourcePlace)
      → ((o : Option ℕ) (a b : List Node)
          → IsSettled a
          → follow o a ≡ some b
          → Visits place (o ∷ []) a b)
      → (tids : List (Option ℕ)) (a c : List Node) → IsSettled a
      → follow_all follow tids a ≡ some c
      → Visits place tids a c
  unfolding follow_all
  follow_all-Visits follow place each [] a c settled h =
      let same : a ≡ c = cc in subst (Visits place [] a) same (Visits-nil place a)
  follow_all-Visits follow place each (o ∷ tids) a c settled h = elim (Option-cases (follow o a)) [
    | inl deep ↦ let bad = rw (deep, follow_all) at h in cc
    | inr (b, first) ↦
        let now = each o a b settled first in
        Visits-cons place o tids a b c now (
          follow_all-Visits follow place each tids b c
            (Visits-IsSettled place (o ∷ []) a b settled now) (rw (first, follow_all) at h))
  ]

  module _ (place : SourcePlace) (i : ℕ) (marks : List Node) where
    -- The type was marked before.
    pub Visits-old :
        target src place (suc i) ≡ (place, suc i)
        → IsMarked marks (place, suc i)
        → Visits place (some (suc i) ∷ []) marks marks
    Visits-old same old = record {
      kept = λ n m. m;
      done = λ j at. elim at [
        | inl e ↦ (let k : j ≡ i = cc in rw (k, same) old)
        | inr bad ↦ absurd bad
      ];
      closed = λ n v m e. inl m;
      sound = λ n m. inl m;
    }

    -- The type is marked, and what it mentions is followed.
    pub Visits-new :
        (o : BtfType) (marks' : List Node)
        → get_type src place (suc i) ≡ some o
        → target src place (suc i) ≡ (place, suc i)
        → Visits place (mentioned o.kind o) ((place, suc i) ∷ marks) marks'
        → Visits place (some (suc i) ∷ []) marks marks'
    Visits-new o marks' found same x = record {
      kept = λ n m. x.kept n (IsMarked-tail (place, suc i) n marks m);
      done = λ j at. elim at [
        | inl e ↦
            (let k : j ≡ i = cc in
              rw (k, same) (x.kept (place, suc i) (IsMarked-head (place, suc i) marks)))
        | inr bad ↦ absurd bad
      ];
      closed = λ n v m e. elim (x.closed n v m e) [
        | inr now ↦ inr now
        | inl before ↦ elim (IsMarked-cons (place, suc i) n marks before) [
          | inr old ↦ inl old
          | inl it ↦ inr (edges v (subst (λ (y : Node). Mentions src y v) it e))
        ]
      ];
      sound = λ n m. elim (x.sound n m) [
        | inl before ↦ elim (IsMarked-cons (place, suc i) n marks before) [
          | inr old ↦ inl old
          | inl it ↦ inr (i, inl refl, here n (it ∙ sym same))
        ]
        | inr (j, at, r) ↦ inr (
          i,
          inl refl,
          TypeReach-trans src place (suc i) place (suc j) n
              (step (here (place, suc i) (sym same))
                (mentions place (suc i) o j (target src place (suc j)) found at refl))
              r,
        )
      ];
    }
      where
        edges : (v : Node) → Mentions src (place, suc i) v → IsMarked marks' v
        edges v (mentions _ _ o' j _ found' at e) =
            let oo : o' ≡ o = cc in
            rw e (x.done j (subst (λ (y : BtfType). In (some (suc j)) (mentioned y.kind y)) oo at))

    -- A type that neither source has is marked, and mentions nothing.
    pub Visits-missing :
        get_type src place (suc i) ≡ none
        → target src place (suc i) ≡ (place, suc i)
        → Visits place (some (suc i) ∷ []) marks ((place, suc i) ∷ marks)
    Visits-missing missing same = record {
      kept = λ n m. IsMarked-tail (place, suc i) n marks m;
      done = λ j at. elim at [
        | inl e ↦ (let k : j ≡ i = cc in rw (k, same) (IsMarked-head (place, suc i) marks))
        | inr bad ↦ absurd bad
      ];
      closed = λ n v m e. elim (IsMarked-cons (place, suc i) n marks m) [
        | inr old ↦ inl old
        | inl it ↦ absurd (edges v (subst (λ (y : Node). Mentions src y v) it e))
      ];
      sound = λ n m. elim (IsMarked-cons (place, suc i) n marks m) [
        | inr old ↦ inl old
        | inl it ↦ inr (i, inl refl, here n (it ∙ sym same))
      ];
    }
      where
        edges : (v : Node) → Mentions src (place, suc i) v → ⊥
        edges v (mentions _ _ o' j _ found' at e) = cc
