-- ===== src/Krg.antt =====
-- make_dll/build_PIC_so.py, class `KrgGraph`: the dependency graph that krg.cpp saves.
pub mod Load
pub mod Closure
use binary_kernel_code_mappi.Prelude.{
  ℕ, List, Text, Dict, Option, none, some, get_elem?, lookup, codes,
}

pub record KrgResolvedSymbol : Type 0 where
  pub name : Text
  pub address : ℕ
  pub size : ℕ
  pub kind : ℕ
  pub module_id : ℕ
  pub module_name : Text

pub record KrgGraph : Type 0 where
  pub nodes : List KrgResolvedSymbol
  pub name_to_id : Dict ℕ
  pub node_count : ℕ
  pub row_ptr : List ℕ
  pub col_idx : List ℕ
  pub modules : List Text

abbrev pub kernel : Text
kernel = codes "kernel"

-- `KrgGraph.lookup`. The identifiers of `name_to_id` are indices of `nodes`.
unfoldable pub find : KrgGraph → Text → Option KrgResolvedSymbol
find g symbol_name = elim (lookup symbol_name g.name_to_id) [
  | none ↦ none
  | some idx ↦ get_elem? g.nodes idx
]
