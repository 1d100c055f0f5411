-- ===== src/Resolve.antt =====
-- make_dll/build_PIC_so.py: `resolve_requested_symbols`. From the requested names and the graph: the symbols of the
-- shared object in the order in which the closures meet them, the libraries it needs, and the modules it depends on.
pub mod Symbols
use binary_kernel_code_mappi.Prelude.{
  ℕ, zero, suc, ◌+◌, ◌-◌, Bool, true, false, not, ◌&&◌, ◌||◌, List, [], ◌∷◌, ◌++◌, map, Option,
  none, some, Text, Dict, codes, length, take, select, contains, text_eq, lookup, insert, ◌==◌,
  if◌then◌else◌, Result, ok, err, ◌>>=◌, ◌>>◌, raise_if, or_raise,
}
use binary_kernel_code_mappi.TextOps.{ends_with}
use binary_kernel_code_mappi.Krg.{KrgResolvedSymbol, KrgGraph, kernel, find}
use binary_kernel_code_mappi.Krg.Closure.{WalkError, key_error, index_error, out_of_fuel, closure}
use binary_kernel_code_mappi.Symbols.{
  ResolvedSymbol, resolved_symbol, lib_shim, stt_func, stt_object,
}

abbrev pub shim : Text
shim = codes "shim"

-- The components of a path; `cur` is the component so far.
components : Text → Text → List Text
components cur [] = cur ∷ []
components cur (c ∷ s) =
    let cut = cur ∷ components [] s in
    let go = components (cur ++ c ∷ []) s in if c == b'/' then cut else go

last_or : Text → List Text → Text
last_or d [] = d
last_or d (x ∷ xs) = last_or x xs

-- `Path(module).name`: empty components and `.` do not count.
unfoldable pub path_name : Text → Text
unfolding components last_or
path_name path =
    last_or [] (select (λ c. not (text_eq c [] || text_eq c (codes "."))) (components [] path))

-- The base without the first of the suffixes that it has.
unfoldable pub cut_suffix : List Text → Text → Text
cut_suffix [] base = base
cut_suffix (ext ∷ exts) base =
    let rest = cut_suffix exts base in
    if ends_with base ext then take (length base - length ext) base else rest

unfoldable pub module_to_lib : Text → Text
unfolding path_name cut_suffix
module_to_lib owner =
    if text_eq owner shim
    then lib_shim
    else codes "lib"
      ++ (cut_suffix (codes ".ko.xz" ∷ codes ".ko.gz" ∷ codes ".ko.zst" ∷ codes ".ko" ∷ [])
            (path_name owner)
          ++ codes ".so")

or_else_kernel : Text → Text
or_else_kernel [] = kernel
or_else_kernel (c ∷ s) = c ∷ s

unfoldable pub module_for_entry : List Text → KrgResolvedSymbol → Text
unfolding or_else_kernel
module_for_entry dependency_shims entry =
    if contains dependency_shims entry.name then shim else or_else_kernel entry.module_name

-- `{name: idx for idx, name in enumerate(requested_names)}`
unfoldable pub export_orders : ℕ → List Text → Dict ℕ → Dict ℕ
export_orders idx [] d = d
export_orders idx (name ∷ names) d = export_orders (suc idx) names (insert name idx d)

-- `shim_symbols - set(export_order)`
unfoldable pub dependency_shim_symbols : List Text → List Text → List Text
dependency_shim_symbols requested_names shim_symbols =
    select (λ name. not (contains requested_names name)) shim_symbols

pub data ResolveError : Type 0 where
  no_request none_found : ResolveError
  not_in_graph crosses_modules empty_dependency_set : Text → ResolveError
  walk_error : WalkError → ResolveError

-- The requested names that the graph has belong to one module.
unfoldable pub check_owner :
    KrgGraph → List Text → Text → List Text → Result ResolveError (Unit {0})
unfolding module_for_entry
check_owner g shims owner_module [] = ok tt
check_owner g shims owner_module (name ∷ names) = elim (find g name) [
  | none ↦ check_owner g shims owner_module names
  | some entry ↦
      raise_if (not (text_eq (module_for_entry shims entry) owner_module)) (crosses_modules name)
      >> check_owner g shims owner_module names
]

-- `ordered` is also the values of `resolved`, since the two grow together.
pub record Resolving : Type 0 where
  pub ordered : List ResolvedSymbol
  pub missing : List Text
  pub needed_libs : List Text
  pub dep_modules : List Text

abbrev pub resolved_names : List ResolvedSymbol → List Text
resolved_names = map (λ s. s.name)

-- What does not change during the loops.
pub record Request : Type 0 where
  pub requested_names : List Text
  pub shims : List Text
  pub owner_module : Text

-- `value if key is not in the list`
unfoldable pub append_new : Text → List Text → List Text
append_new x xs = if contains xs x then xs else xs ++ x ∷ []

unfoldable pub get_order : Option ℕ → ℕ → ℕ
get_order none d = d
get_order (some n) d = n

-- The symbol that is made for an entry, as the `count`-th.
unfoldable pub symbol_for : Request → ℕ → KrgResolvedSymbol → ResolvedSymbol
unfolding module_for_entry module_to_lib export_orders get_order
symbol_for r count entry =
    let module_name = module_for_entry r.shims entry in
    record (resolved_symbol entry.name (module_to_lib r.owner_module)
      (not (text_eq module_name shim)) (if entry.kind == 0 then stt_func else stt_object)) {
        exported = contains r.requested_names entry.name;
        size = entry.size;
        address = entry.address;
        export_order = get_order (lookup entry.name (export_orders 0 r.requested_names [])) count;
        original_order = count;
        module_id = entry.module_id;
        module_name = module_name;
      }

-- The body of the loop over a closure.
unfoldable pub add_entry : Request → KrgResolvedSymbol → Resolving → Resolving
unfolding symbol_for append_new module_for_entry
add_entry r entry s =
    let is_shim = text_eq (module_for_entry r.shims entry) shim in
    record s {
      ordered =
          if contains (resolved_names s.ordered) entry.name
          then s.ordered
          else s.ordered ++ symbol_for r (length s.ordered) entry ∷ [];
      needed_libs = if is_shim then append_new lib_shim s.needed_libs else s.needed_libs;
      dep_modules =
          if is_shim
          then append_new (module_for_entry r.shims entry) s.dep_modules
          else s.dep_modules;
    }

unfoldable pub add_entries : Request → List KrgResolvedSymbol → Resolving → Resolving
unfolding add_entry
add_entries r [] s = s
add_entries r (entry ∷ entries) s = add_entries r entries (add_entry r entry s)

unfoldable pub miss : Text → Resolving → Resolving
miss name s = record s { missing = s.missing ++ name ∷ [] }

unfoldable pub check_resolved : Text → Resolving → Resolving
unfolding miss
check_resolved name s = if contains (resolved_names s.ordered) name then s else miss name s

-- The body of the loop over the requested names, on what `closure` did: a `KeyError` is caught.
unfoldable pub add_closure :
    Request
    → Text
    → Result WalkError (List KrgResolvedSymbol)
    → Resolving
    → Result ResolveError Resolving
unfolding add_entries miss check_resolved
add_closure r name (err key_error) s = ok (miss name s)
add_closure r name (err index_error) s = err (walk_error index_error)
add_closure r name (err out_of_fuel) s = err (walk_error out_of_fuel)
add_closure r name (ok []) s = err (empty_dependency_set name)
add_closure r name (ok (entry ∷ entries)) s =
    ok (check_resolved name (add_entries r (entry ∷ entries) s))

unfoldable pub add_requested :
    KrgGraph → Request → List Text → Resolving → Result ResolveError Resolving
unfolding add_closure
add_requested g r [] s = ok s
add_requested g r (name ∷ names) s = do
  s' ← add_closure r name (closure g name r.shims) s
  add_requested g r names s'

pub record Resolution : Type 0 where
  pub ordered : List ResolvedSymbol
  pub needed_libs : List Text
  pub owner_module : Text
  pub owner_lib : Text
  pub dep_modules : List Text

-- The checks before the loops, the loops, and the check after them; `first` is the first requested name.
unfoldable pub resolve_from :
    KrgGraph → List Text → Text → List Text → Result ResolveError Resolution
unfolding check_owner add_requested module_to_lib module_for_entry
resolve_from g shims first names = do
  entry ← or_raise (not_in_graph first) (find g first)
  let owner_module = module_for_entry shims entry
  check_owner g shims owner_module (first ∷ names)
  let r : Request = record {
    requested_names = first ∷ names;
    shims = shims;
    owner_module = owner_module;
  }
  s ←
      add_requested g r (first ∷ names)
        (record { ordered = []; missing = []; needed_libs = []; dep_modules = [] })
  raise_if (not (length s.missing == 0) && length s.missing == length (first ∷ names)) none_found
  ok (record {
    ordered = s.ordered;
    needed_libs = s.needed_libs;
    owner_module = owner_module;
    owner_lib = module_to_lib owner_module;
    dep_modules = s.dep_modules;
  })

unfoldable pub resolve_requested_symbols :
    List Text → KrgGraph → List Text → Result ResolveError Resolution
unfolding resolve_from dependency_shim_symbols
resolve_requested_symbols [] g shim_symbols = err no_request
resolve_requested_symbols (first ∷ names) g shim_symbols =
    resolve_from g (dependency_shim_symbols (first ∷ names) shim_symbols) first names
