-- ===== src/Krg/Closure/Spec.antt =====
-- What `closure` has to return: the nodes that can be reached along edges of the graph, where no edge
-- leaves a node whose name is in `stop_names`.
use binary_kernel_code_mappi.Prelude.{
  ℕ, suc, ◌≤◌, ◌<◌, ◌≡◌, false, List, Text, some, length, get_elem?, contains, lookup,
}
use binary_kernel_code_mappi.Krg.{KrgResolvedSymbol, KrgGraph}

-- `col_idx[i]` is `v`, for an index `i` of the row of `u`.
pub data Edge (g : KrgGraph) (stop_names : List Text) (u v : ℕ) : Type 0 where
  edge :
      (sym : KrgResolvedSymbol) (row_start row_end i : ℕ)
      → get_elem? g.nodes u ≡ some sym
      → contains stop_names sym.name ≡ false
      → get_elem? g.row_ptr u ≡ some row_start
      → get_elem? g.row_ptr (suc u) ≡ some row_end
      → row_start ≤ i
      → i < row_end
      → get_elem? g.col_idx i ≡ some v
      → Edge g stop_names u v

pub data Reach (g : KrgGraph) (stop_names : List Text) (root : ℕ) : ℕ → Type 0 where
  here : Reach g stop_names root root
  step : {u v : ℕ} → Reach g stop_names root u → Edge g stop_names u v → Reach g stop_names root v

-- The indices in the tables are in range. The loader does not check this.
pub record IsGraph (g : KrgGraph) : Type 0 where
  pub nodes_size : length g.nodes ≡ g.node_count
  pub rows_size : length g.row_ptr ≡ suc g.node_count
  pub rows : (u k : ℕ) → get_elem? g.row_ptr u ≡ some k → k ≤ length g.col_idx
  pub targets : (i v : ℕ) → get_elem? g.col_idx i ≡ some v → v < g.node_count
  pub names : (name : Text) (idx : ℕ) → lookup name g.name_to_id ≡ some idx → idx < g.node_count
