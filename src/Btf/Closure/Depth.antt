-- ===== src/Btf/Closure/Depth.antt =====
-- How deep the calls of `add_type_closure` nest, and what they mark in all.
use binary_kernel_code_mappi.Prelude.{
  ℕ, zero, suc, ◌+◌, ◌*◌, ◌≤◌, ◌<◌, ◌≡◌, refl, sym, ◌⊎◌, ◌↔◌, inl, inr, true, false, List, [], ◌∷◌,
  Option, none, some, In, length, Bool-cases, Option-cases, if◌then◌else◌, arith,
}
use mathlib.Core.Path.{subst}
use binary_kernel_code_mappi.Btf.Closure.{
  SourcePlace, own, base, Sources, get_type, Node, is_marked, in_base, mentioned, follow_all,
  add_type_closure,
}
use binary_kernel_code_mappi.Btf.Closure.Reach.{
  IsMarked, IsMarked-cons, IsMarked-head, IsMarked-tail, target, mentions, TypeReach, here, step,
  TypeReach-trans, target_self, target-in_base,
}
use binary_kernel_code_mappi.Btf.Closure.Visits.{IsSettled, Visits-IsSettled}
use binary_kernel_code_mappi.Btf.Closure.Correct.{
  add_type_closure-Visits, IsClosed, TypeReach-marked,
}

-- The nodes of `nodes` that are not marked.
abbrev pub unmarked : List Node → List Node → ℕ
unmarked [] marks = 0
unmarked (n ∷ nodes) marks =
    let rest = unmarked nodes marks in if is_marked marks n then rest else suc rest

unmarked-le :
    (nodes a b : List Node)
    → ((n : Node) → IsMarked a n → IsMarked b n)
    → unmarked nodes b ≤ unmarked nodes a
unmarked-le [] a b kept = omega arith
unmarked-le (n ∷ nodes) a b kept = elim (Bool-cases (is_marked a n)) [
  | inl old ↦ rw (old, kept n old) (unmarked-le nodes a b kept)
  | inr new ↦ let le = unmarked-le nodes a b kept in ground arith
]

unmarked-lt :
    (nodes marks : List Node) (n : Node)
    → In n nodes
    → is_marked marks n ≡ false
    → unmarked nodes (n ∷ marks) < unmarked nodes marks
unmarked-lt [] marks n h new = absurd h
unmarked-lt (m ∷ nodes) marks n (inl same) new =
    let le = unmarked-le nodes marks (n ∷ marks) (λ v k. IsMarked-tail n v marks k) in
    let at : is_marked marks m ≡ false = rw same at new in
    let now : is_marked (n ∷ marks) m ≡ true =
      subst (λ (y : Node). is_marked (n ∷ marks) y ≡ true) same (IsMarked-head n marks) in
    rw (at, now) (omega arith)
unmarked-lt (m ∷ nodes) marks n (inr h) new = elim (Bool-cases (is_marked marks m)) [
  | inl old ↦ rw (old, IsMarked-tail n m marks old) (unmarked-lt nodes marks n h new)
  | inr other ↦ let lt = unmarked-lt nodes marks n h new in ground arith
]

-- A call for a type of the source can be passed on to the base once.
abbrev pub levels : SourcePlace → ℕ
levels own = 2
levels base = 1

module _ (src : Sources) (nodes : List Node) where
  -- What the type leads to is among the nodes.
  abbrev pub Within : SourcePlace → Option ℕ → Type 0
  Within place o =
      (i : ℕ) → o ≡ some (suc i) → (n : Node) → TypeReach src place (suc i) n → In n nodes

  abbrev Returns : ℕ → SourcePlace → Type 0
  Returns depth place =
      (o : Option ℕ) (a : List Node)
      → IsSettled src a
      → Within place o
      → 2 * unmarked nodes a + levels place ≤ depth
      → (b : List Node) × (add_type_closure src depth place o a ≡ some b)

  follow_all-some :
      (depth : ℕ) (place : SourcePlace)
      → Returns depth place
      → (tids : List (Option ℕ)) (a : List Node) → IsSettled src a
      → ((o : Option ℕ) → In o tids → Within place o)
      → 2 * unmarked nodes a + levels place ≤ depth
      → (c : List Node) × (follow_all (add_type_closure src depth place) tids a ≡ some c)
  unfolding follow_all
  follow_all-some depth place each [] a settled within enough = (a, refl)
  follow_all-some depth place each (o ∷ tids) a settled within enough =
      let (b, first) = each o a settled (within o (inl refl)) enough in
      let x = add_type_closure-Visits src depth place o a b settled first in
      let le = unmarked-le nodes a b x.kept in
      let (c, later) =
        follow_all-some depth place each tids b (Visits-IsSettled src place (o ∷ []) a b settled x)
          (λ p at. within p (inr at)) (omega arith) in
      (c, rw (first, follow_all) later)

  pub add_type_closure-some : (depth : ℕ) (place : SourcePlace) → Returns depth place
  unfolding add_type_closure
  add_type_closure-some zero own o a settled within enough = absurd (omega arith)
  add_type_closure-some zero base o a settled within enough = absurd (omega arith)
  add_type_closure-some (suc depth) place none a settled within enough = (a, refl)
  add_type_closure-some (suc depth) place (some zero) a settled within enough = (a, refl)
  add_type_closure-some (suc depth) place (some (suc i)) a settled within enough =
      elim (Bool-cases (is_marked a (place, suc i))) [
        | inl old ↦ (a, rw old refl)
        | inr new ↦ elim (Option-cases (get_type src place (suc i))) [
          | inr (o, found) ↦
              let at = target_self src place (suc i) o found in
              let lt =
                unmarked-lt nodes a (place, suc i) (within i refl (place, suc i) (here _ (sym at)))
                  new in
              let (b, all) =
                follow_all-some depth place (add_type_closure-some depth place) (mentioned o.kind o)
                  ((place, suc i) ∷ a) (settle at)
                  (λ p m j e n r. within i refl n (
                    TypeReach-trans src place (suc i) place (suc j) n
                      (step (here (place, suc i) (sym at)) (
                        mentions place (suc i) o j (target src place (suc j)) found (rw e at m)
                          refl))
                      r))
                  (omega arith) in
              (b, rw (new, found, add_type_closure) all)
          | inl missing ↦ elim (Bool-cases (in_base src place (suc i))) [
            | inr neither ↦ ((place, suc i) ∷ a, rw (new, missing, neither, add_type_closure) refl)
            | inl there ↦
                let (b, passed) =
                  add_type_closure-some depth base (some (suc i)) a settled
                    (λ j e n r. over j e n (target-in_base src place (suc i) missing there) r)
                    (fewer place there enough) in
                (b, rw (new, missing, there, add_type_closure) passed)
          ]
        ]
      ]
    where
      settle : target src place (suc i) ≡ (place, suc i) → IsSettled src ((place, suc i) ∷ a)
      settle at n m = elim (IsMarked-cons (place, suc i) n a m) [
        | inr old ↦ settled n old
        | inl it ↦ rw it at
      ]

      over :
          (j : ℕ)
          → ◌≡◌ {A = Option ℕ} (some (suc i)) (some (suc j))
          → (n : Node) → target src place (suc i) ≡ target src base (suc i)
          → TypeReach src base (suc j) n
          → In n nodes
      over j e n same r =
          let k : suc j ≡ suc i = cc in
          within i refl n
            (TypeReach-trans src place (suc i) base (suc j) n (here _ (rw (k, same) refl)) r)

      fewer :
          (p : SourcePlace)
          → in_base src p (suc i) ≡ true
          → 2 * unmarked nodes a + levels p ≤ suc depth
          → 2 * unmarked nodes a + 1 ≤ depth
      fewer own there le = omega arith
      fewer base there le = absurd (base-ne there)
        where
          base-ne : in_base src base (suc i) ≡ true → ⊥
          base-ne bad = cc

unmarked-le-length : (nodes marks : List Node) → unmarked nodes marks ≤ length nodes
unmarked-le-length [] marks = omega arith
unmarked-le-length (n ∷ nodes) marks = let le = unmarked-le-length nodes marks in ground arith

-- With two levels of calls for each type that `root_id` leads to, `add_type_closure` returns, and marks exactly
-- these types besides those that were marked; where the marked types were in the source that has them, and all
-- that they mention was marked, that holds again.
pub add_type_closure-marks :
    (src : Sources) (nodes : List Node) (depth : ℕ) (place : SourcePlace) (i : ℕ)
    (marks : List Node)
    → IsSettled src marks
    → IsClosed src marks
    → Within src nodes place (some (suc i))
    → 2 * length nodes + 2 ≤ depth
    → (marks' : List Node) × (add_type_closure src depth place (some (suc i)) marks ≡ some marks')
      × ((n : Node) → IsMarked marks' n ↔ (IsMarked marks n ⊎ TypeReach src place (suc i) n))
      × IsSettled src marks'
      × IsClosed src marks'
add_type_closure-marks src nodes depth place i marks settled closed within enough =
    let le = unmarked-le-length nodes marks in
    let (marks', returns) =
      add_type_closure-some src nodes depth place (some (suc i)) marks settled within
        (deep place) in
    let x = add_type_closure-Visits src depth place (some (suc i)) marks marks' settled returns in
    (
      marks',
      returns,
      λ n. (
        λ m. elim (x.sound n m) [
          | inl old ↦ inl old
          | inr (j, inl e, r) ↦
              (let k : j ≡ i = cc in inr (subst (λ (y : ℕ). TypeReach src place (suc y) n) k r))
          | inr (j, inr bad, r) ↦ absurd bad
        ],
        λ h. elim h [
          | inl old ↦ x.kept n old
          | inr r ↦ TypeReach-marked src place i marks marks' closed x n r
        ],
      ),
      Visits-IsSettled src place (some (suc i) ∷ []) marks marks' settled x,
      λ n v m e. elim (x.closed n v m e) [ inr now ↦ now | inl old ↦ x.kept v (closed n v old e) ],
    )
  where
    deep : (p : SourcePlace) → 2 * unmarked nodes marks + levels p ≤ depth
    deep own = omega (arith, unmarked-le-length nodes marks)
    deep base = omega (arith, unmarked-le-length nodes marks)
