-- ===== src/Krg/Closure.antt =====
-- `KrgGraph.closure`: the depth-first walk with a flag array and a stack. The top of the stack is the
-- head of the list. A subscript out of range raises `index_error`: the loader checks the sizes of the
-- tables, and not the indices in them.
pub mod Spec
pub mod Scan
pub mod Loop
pub mod Correct
use binary_kernel_code_mappi.Prelude.{
  ℕ, zero, suc, ◌-◌, Bool, true, false, List, [], ◌∷◌, Text, length, get_elem?, set, replicate,
  contains, lookup, if◌then◌else◌, Result, ok, err, ◌>>=◌, or_raise,
}
use binary_kernel_code_mappi.Krg.{KrgResolvedSymbol, KrgGraph}

pub data WalkError : Type 0 where
  key_error index_error out_of_fuel : WalkError

pub record Walk : Type 0 where
  pub seen : List Bool
  pub stack : List ℕ

-- `seen[v] = 1; stack.append(v)`
unfoldable pub push : Walk → ℕ → Walk
push w v = record { seen = set w.seen v true; stack = v ∷ w.stack }

-- `for edge_idx in range(i, i + k)`
unfoldable pub scan_edges : List ℕ → ℕ → ℕ → Walk → Result WalkError Walk
unfolding push
scan_edges col_idx zero i w = ok w
scan_edges col_idx (suc k) i w = do
  target ← or_raise index_error (get_elem? col_idx i)
  flag ← or_raise index_error (get_elem? w.seen target)
  scan_edges col_idx k (suc i) (if flag then w else push w target)

-- `stop_names and self.nodes[node].name in stop_names`: without stop names no name is read.
unfoldable pub is_stopped : KrgGraph → List Text → ℕ → Result WalkError Bool
is_stopped g [] node = ok false
is_stopped g (name ∷ names) node = do
  sym ← or_raise index_error (get_elem? g.nodes node)
  ok (contains (name ∷ names) sym.name)

-- The body of the `while` loop, after `node` was popped.
unfoldable pub expand : KrgGraph → List Text → ℕ → Walk → Result WalkError Walk
unfolding is_stopped
expand g stop_names node w = do
  stopped ← is_stopped g stop_names node
  if stopped then ok w else (do
    row_start ← or_raise index_error (get_elem? g.row_ptr node)
    row_end ← or_raise index_error (get_elem? g.row_ptr (suc node))
    scan_edges g.col_idx (row_end - row_start) row_start w)

unfoldable pub walk : KrgGraph → List Text → ℕ → Walk → Result WalkError Walk
walk g stop_names zero w = elim w.stack [ [] ↦ ok w | _ ∷ _ ↦ err out_of_fuel ]
walk g stop_names (suc fuel) w = elim w.stack [
  | [] ↦ ok w
  | node ∷ rest ↦
      expand g stop_names node (record w { stack = rest }) >>= λ next. walk g stop_names fuel next
]

-- `[self.nodes[idx] for idx, flag in enumerate(seen) if flag]`
unfoldable pub flagged : List KrgResolvedSymbol → List Bool → List KrgResolvedSymbol
flagged (s ∷ ss) (true ∷ flags) = s ∷ flagged ss flags
flagged (s ∷ ss) (false ∷ flags) = flagged ss flags
flagged _ _ = []

unfoldable pub start : KrgGraph → ℕ → Walk
unfolding push
start g root = push (record { seen = replicate g.node_count false; stack = [] }) root

-- The walk pushes each node at most once, so `node_count` rounds are enough.
unfoldable pub closure_flags : KrgGraph → Text → List Text → Result WalkError (List Bool)
unfolding start walk
closure_flags g symbol_name stop_names = do
  root ← or_raise key_error (lookup symbol_name g.name_to_id)
  w ← walk g stop_names g.node_count (start g root)
  ok w.seen

unfoldable pub closure : KrgGraph → Text → List Text → Result WalkError (List KrgResolvedSymbol)
unfolding closure_flags flagged
closure g symbol_name stop_names = do
  seen ← closure_flags g symbol_name stop_names
  ok (flagged g.nodes seen)
