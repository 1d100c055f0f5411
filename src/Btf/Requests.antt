-- ===== src/Btf/Requests.antt =====
-- The loop of `main` over the requests: which source each function is taken from, and which are declared.
pub mod Chosen
pub mod Resolved
use binary_kernel_code_mappi.Prelude.{
  ℕ, suc, ◌+◌, ◌&&◌, ◌||◌, Bool, true, false, List, [], ◌∷◌, ◌++◌, Option, none, some, Text, Dict,
  text_eq, if◌then◌else◌,
}
use binary_kernel_code_mappi.Btf.{find_func_proto_id}
use binary_kernel_code_mappi.Btf.Sources.{
  BtfSource, discover_sources_for_func, filter_matches_by_owner_hints,
}

-- The base, the modules, and the owners that /proc/kallsyms names.
pub record Candidates : Type 0 where
  pub base_source : BtfSource
  pub modules : List BtfSource
  pub global_text_owners : Dict Text
  pub exported_symbol_owners : Dict Text

unfoldable pub matches_for : Candidates → Text → List BtfSource
matches_for cs name =
    filter_matches_by_owner_hints name (discover_sources_for_func name cs.base_source cs.modules)
      cs.global_text_owners cs.exported_symbol_owners

abbrev pub DeclKey : Type 0
DeclKey = Text × Text

unfoldable pub same_decl : DeclKey → DeclKey → Bool
same_decl (a, f) (b, g) = text_eq a b && text_eq f g

unfoldable pub has_decl : List DeclKey → DeclKey → Bool
unfolding same_decl
has_decl [] key = false
has_decl (k ∷ keys) key = same_decl k key || has_decl keys key

-- `roots` has the calls of `add_type_closure`, with the source.
pub record RequestState : Type 0 where
  pub missing_required : List Text
  pub matched_count : ℕ
  pub decl_order : List DeclKey
  pub roots : List (Text × Option ℕ)

unfoldable pub take_from : BtfSource → Text → RequestState → RequestState
unfolding has_decl
take_from src name r = record r {
  matched_count = r.matched_count + 1;
  decl_order =
      if has_decl r.decl_order (src.source_id, name)
      then r.decl_order
      else r.decl_order ++ (src.source_id, name) ∷ [];
  roots = r.roots ++ (src.source_id, find_func_proto_id src.by_id name) ∷ [];
}

unfoldable pub add_missing : Text → RequestState → RequestState
add_missing name r = record r { missing_required = r.missing_required ++ name ∷ [] }

-- A required function without a source of its own: found nowhere, in one source, or in several.
unfoldable pub resolve_match : Text → List BtfSource → RequestState → RequestState
unfolding take_from add_missing
resolve_match name [] r = add_missing name r
resolve_match name (src ∷ []) r = take_from src name r
resolve_match name (src ∷ other ∷ more) r = add_missing name r

unfoldable pub resolve_requests : Candidates → List Text → RequestState → RequestState
unfolding matches_for resolve_match
resolve_requests cs [] r = r
resolve_requests cs (name ∷ names) r =
    resolve_requests cs names (resolve_match name (matches_for cs name) r)

abbrev pub nothing_resolved : RequestState
nothing_resolved = record { missing_required = []; matched_count = 0; decl_order = []; roots = [] }
