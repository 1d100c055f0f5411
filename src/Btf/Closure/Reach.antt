-- ===== src/Btf/Closure/Reach.antt =====
-- Which types a type of a source leads to.
use mathlib.Core.Path.{subst}
use binary_kernel_code_mappi.Prelude.{
  ℕ, suc, ◌≡◌, refl, sym, ap, ◌∙◌, ◌⊎◌, inl, inr, ==_iff, true, false, List, ◌∷◌, none, some, In,
  Bool-cases, Option-cases, if◌then◌else◌, arith,
}
use binary_kernel_code_mappi.Btf.{BtfType}
use binary_kernel_code_mappi.Btf.Closure.{
  SourcePlace, own, base, Sources, get_type, Node, same_node, is_marked, in_base, mentioned,
}

abbrev pub IsMarked : List Node → Node → Type 0
IsMarked marks n = is_marked marks n ≡ true

pub same_node_sound : (m n : Node) → same_node m n ≡ true → m ≡ n
unfolding same_node
same_node_sound (own, i) (own, j) h = ap (λ (k : ℕ). (own, k)) ((==_iff i j).0 h)
same_node_sound (base, i) (base, j) h = ap (λ (k : ℕ). (base, k)) ((==_iff i j).0 h)
same_node_sound (own, i) (base, j) h = cc
same_node_sound (base, i) (own, j) h = cc

pub same_node_refl : (n : Node) → same_node n n ≡ true
unfolding same_node
same_node_refl (own, i) = (==_iff i i).1 refl
same_node_refl (base, i) = (==_iff i i).1 refl

pub IsMarked-cons :
    (m n : Node) (marks : List Node) → IsMarked (m ∷ marks) n → (n ≡ m) ⊎ IsMarked marks n
unfolding is_marked
IsMarked-cons m n marks h = elim (Bool-cases (same_node m n)) [
  | inl same ↦ inl (sym (same_node_sound m n same))
  | inr other ↦ inr (rw other at h)
]

pub IsMarked-head : (n : Node) (marks : List Node) → IsMarked (n ∷ marks) n
unfolding is_marked
IsMarked-head n marks = rw (same_node_refl n) refl

pub IsMarked-tail : (m n : Node) (marks : List Node) → IsMarked marks n → IsMarked (m ∷ marks) n
unfolding is_marked
IsMarked-tail m n marks h = ground arith

module _ (src : Sources) where
  -- The source that has the type: the base where only it has it.
  unfoldable pub target : SourcePlace → ℕ → Node
  target place tid = elim (get_type src place tid) [
    | some o ↦ (place, tid)
    | none ↦ if in_base src place tid then (base, tid) else (place, tid)
  ]

  -- A type mentions another; the number 0 stands for void.
  pub data Mentions : Node → Node → Type 0 where
    mentions :
        (place : SourcePlace) (tid : ℕ) (o : BtfType) (i : ℕ) (v : Node)
        → get_type src place tid ≡ some o
        → In (some (suc i)) (mentioned o.kind o)
        → v ≡ target place (suc i)
        → Mentions (place, tid) v

  -- The types that the type `tid` of a source leads to.
  pub data TypeReach (place : SourcePlace) (tid : ℕ) : Node → Type 0 where
    here : (n : Node) → n ≡ target place tid → TypeReach place tid n
    step : {u v : Node} → TypeReach place tid u → Mentions u v → TypeReach place tid v

  pub TypeReach-trans :
      (place : SourcePlace) (tid : ℕ) (place' : SourcePlace) (tid' : ℕ) (n : Node)
      → TypeReach place tid (target place' tid')
      → TypeReach place' tid' n
      → TypeReach place tid n
  TypeReach-trans place tid place' tid' n r (here _ e) = subst (TypeReach place tid) (sym e) r
  TypeReach-trans place tid place' tid' n r (step {u} {v} r' edge) =
      step (TypeReach-trans place tid place' tid' u r r') edge

  pub target-base : (tid : ℕ) → target base tid ≡ (base, tid)
  unfolding target in_base
  target-base tid = elim (Option-cases (get_type src base tid)) [
    | inl missing ↦ rw (missing, target) refl
    | inr (o, found) ↦ rw (found, target) refl
  ]

  pub target_self :
      (place : SourcePlace) (tid : ℕ) (o : BtfType)
      → get_type src place tid ≡ some o
      → target place tid ≡ (place, tid)
  unfolding target
  target_self place tid o found = rw (found, target) refl

  pub target-missing :
      (place : SourcePlace) (tid : ℕ)
      → get_type src place tid ≡ none
      → in_base src place tid ≡ false
      → target place tid ≡ (place, tid)
  unfolding target
  target-missing place tid missing neither = rw (missing, target) (rw neither refl)

  pub target-in_base :
      (place : SourcePlace) (tid : ℕ)
      → get_type src place tid ≡ none
      → in_base src place tid ≡ true
      → target place tid ≡ target base tid
  unfolding target
  target-in_base place tid missing there = rw (missing, target) (rw there (sym (target-base tid)))

  pub target-target :
      (place : SourcePlace) (tid : ℕ) (n : Node) → n ≡ target place tid → target n.0 n.1 ≡ n
  target-target place tid n e = elim (Option-cases (get_type src place tid)) [
    | inr (o, found) ↦
        let at = e ∙ target_self place tid o found in rw at (target_self place tid o found)
    | inl missing ↦ elim (Bool-cases (in_base src place tid)) [
      | inl there ↦
          let at = e ∙ target-in_base place tid missing there ∙ target-base tid in
          rw at (target-base tid)
      | inr neither ↦
          let at = e ∙ target-missing place tid missing neither in
          rw at (target-missing place tid missing neither)
    ]
  ]

  pub TypeReach-settled :
      (place : SourcePlace) (tid : ℕ) (n : Node) → TypeReach place tid n → target n.0 n.1 ≡ n
  TypeReach-settled place tid n (here _ e) = target-target place tid n e
  TypeReach-settled place tid n (step r (mentions p _ o j v found at e)) =
      target-target p (suc j) v e
