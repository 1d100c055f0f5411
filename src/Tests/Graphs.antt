-- ===== src/Tests/Graphs.antt =====
-- A walk over a graph of three nodes in which `a` calls `b`, and `b` calls `a` and `c`.
use binary_kernel_code_mappi.Prelude.{
  ℕ, zero, suc, ◌≤◌, ◌<◌, ◌≡◌, ◌↔◌, refl, Bool, true, List, [], ◌∷◌, Text, In, codes, text_eq, some,
  length, get_elem?, lookup, contains, Bool-cases, inl, inr, ok, arith,
}
use binary_kernel_code_mappi.Krg.{KrgResolvedSymbol, KrgGraph, kernel}
use binary_kernel_code_mappi.Krg.Closure.{flagged, closure, is_stopped, expand, scan_edges}
use binary_kernel_code_mappi.Krg.Closure.Spec.{Reach, IsGraph}
use binary_kernel_code_mappi.Krg.Closure.Correct.{closure_correct, closure_members}

abbrev function_at : Text → ℕ → KrgResolvedSymbol
function_at name address = record {
  name = name;
  address = address;
  size = 16;
  kind = 0;
  module_id = 0;
  module_name = kernel;
}

abbrev calls : KrgGraph
calls = record {
  nodes = function_at (codes "a") 16 ∷ function_at (codes "b") 32 ∷ function_at (codes "c") 48 ∷ [];
  name_to_id = (codes "a", 0) ∷ (codes "b", 1) ∷ (codes "c", 2) ∷ [];
  node_count = 3;
  row_ptr = 0 ∷ 1 ∷ 3 ∷ 3 ∷ [];
  col_idx = 1 ∷ 0 ∷ 2 ∷ [];
  modules = kernel ∷ [];
}

calls_rows : (u k : ℕ) → get_elem? calls.row_ptr u ≡ some k → k ≤ 3
calls_rows zero k h = let e : 0 ≡ k = cc in omega arith
calls_rows (suc zero) k h = let e : 1 ≡ k = cc in omega arith
calls_rows (suc (suc zero)) k h = let e : 3 ≡ k = cc in omega arith
calls_rows (suc (suc (suc zero))) k h = let e : 3 ≡ k = cc in omega arith
calls_rows (suc (suc (suc (suc u)))) k h = cc

calls_targets : (i v : ℕ) → get_elem? calls.col_idx i ≡ some v → v < 3
calls_targets zero v h = let e : 1 ≡ v = cc in omega arith
calls_targets (suc zero) v h = let e : 0 ≡ v = cc in omega arith
calls_targets (suc (suc zero)) v h = let e : 2 ≡ v = cc in omega arith
calls_targets (suc (suc (suc u))) k h = cc

calls_names : (name : Text) (idx : ℕ) → lookup name calls.name_to_id ≡ some idx → idx < 3
unfolding lookup
calls_names name idx h = elim (Bool-cases (text_eq (codes "a") name)) [
  | inl a ↦ let z : 0 ≡ idx = let k = rw a at h in cc in omega arith
  | inr na ↦ elim (Bool-cases (text_eq (codes "b") name)) [
    | inl b ↦ let z : 1 ≡ idx = let k = rw (na, b) at h in cc in omega arith
    | inr nb ↦ elim (Bool-cases (text_eq (codes "c") name)) [
      | inl c ↦ let z : 2 ≡ idx = let k = rw (na, nb, c) at h in cc in omega arith
      | inr nc ↦ absurd (let k = rw (na, nb, nc) at h in cc)
    ]
  ]
]

calls-IsGraph : IsGraph calls
calls-IsGraph = record {
  nodes_size = refl;
  rows_size = refl;
  rows = calls_rows;
  targets = calls_targets;
  names = calls_names;
}

abbrev stop_at_b : List Text
stop_at_b = codes "b" ∷ []

found_a : lookup (codes "a") calls.name_to_id ≡ some 0
unfolding lookup text_eq
found_a = refl

closure_correct_example :
    (seen : List Bool) × (closure calls (codes "a") stop_at_b ≡ ok (flagged calls.nodes seen))
    × (length seen ≡ 3)
    × ((v : ℕ) → (get_elem? seen v ≡ some true) ↔ Reach calls stop_at_b 0 v)
closure_correct_example = closure_correct calls (codes "a") stop_at_b 0 calls-IsGraph found_a

-- The walk returns the stop node itself, and does not leave it.
closure_run :
    closure calls (codes "a") stop_at_b
    ≡ ok (function_at (codes "a") 16 ∷ function_at (codes "b") 32 ∷ [])
unfolding closure lookup text_eq expand is_stopped contains scan_edges
closure_run = refl

closure_members_example :
    In (function_at (codes "b") 32) (function_at (codes "a") 16 ∷ function_at (codes "b") 32 ∷ [])
    ↔ ((v : ℕ) × (get_elem? calls.nodes v ≡ some (function_at (codes "b") 32))
        × Reach calls stop_at_b 0 v)
closure_members_example =
    closure_members calls (codes "a") stop_at_b 0
      (function_at (codes "a") 16 ∷ function_at (codes "b") 32 ∷ []) (function_at (codes "b") 32)
      calls-IsGraph found_a closure_run
