-- ===== src/Btf/Sources.antt =====
-- Which source a function is taken from: the candidates that have it, and the owners that the kernel names.
use binary_kernel_code_mappi.Prelude.{
  Bool, true, false, List, [], ◌∷◌, Option, none, some, Text, Dict, text_eq, lookup, select,
}
use binary_kernel_code_mappi.Btf.{Index, find_func_proto_id}

pub record BtfSource : Type 0 where
  pub source_id : Text
  pub label : Text
  pub by_id : Index

unfoldable pub has_func : Text → BtfSource → Bool
has_func name src = elim (find_func_proto_id src.by_id name) [ none ↦ false | some proto ↦ true ]

-- The base first, and then the modules in order.
unfoldable pub discover_sources_for_func : Text → BtfSource → List BtfSource → List BtfSource
unfolding has_func
discover_sources_for_func name base_source modules = select (has_func name) (base_source ∷ modules)

abbrev pub labelled : Text → BtfSource → Bool
labelled owner src = text_eq src.label owner

unfoldable pub filter_by_owner : Option Text → List BtfSource → List BtfSource
filter_by_owner none matches = []
filter_by_owner (some owner) matches = select (labelled owner) matches

unfoldable pub or_else : List BtfSource → List BtfSource → List BtfSource
or_else [] others = others
or_else (m ∷ ms) others = m ∷ ms

-- The first kind of hint for which a source is left, or else all.
unfoldable pub filter_matches_by_owner_hints :
    Text → List BtfSource → Dict Text → Dict Text → List BtfSource
unfolding filter_by_owner or_else
filter_matches_by_owner_hints name matches global_text_owners exported_symbol_owners =
    or_else (filter_by_owner (lookup name global_text_owners) matches)
      (or_else (filter_by_owner (lookup name exported_symbol_owners) matches) matches)
