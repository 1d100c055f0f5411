-- ===== src/Lkm/Nodes.antt =====
-- make_dll/build_LKM_so.py, in `build_lkm_so`: the nodes that are resolved, and the anchor of the module's layout.
use binary_kernel_code_mappi.Prelude.{
  ℕ, ◌+◌, Bool, true, false, not, ◌&&◌, ◌||◌, ◌==◌, ltb, List, [], ◌∷◌, ◌++◌, Option, none, some,
  Text, Dict, codes, length, get_elem?, select, contains, text_eq, lookup, insert, map,
  if◌then◌else◌, Result, ok, err, ◌>>=◌, ◌>>◌, raise_if, or_raise,
}
use binary_kernel_code_mappi.Prelude.Int.{ℤ, pos, sub_ℕ, pos_part, ◌+ℤ◌}
use binary_kernel_code_mappi.Krg.{KrgResolvedSymbol, KrgGraph, find}
use binary_kernel_code_mappi.Krg.Closure.{closure}
use binary_kernel_code_mappi.Resolve.{append_new}
use binary_kernel_code_mappi.Ko.{
  KoSection, KoFile, is_alloc, is_write, is_exec, is_undef, find_symbol,
}
use binary_kernel_code_mappi.Ko.CoreLayout.{KoDataReloc, KoCoreLayout, offset_in}
use binary_kernel_code_mappi.Lkm.{
  LkmNode, LkmError, kernel_owner, unanchored, not_found, unexpected_modules, walk_error,
  is_non_core_section_name, minus,
}
use binary_kernel_code_mappi.Lkm.Targets.{describe_reloc_target, base_stop_names}

abbrev pub bracketed_kernel : Text
bracketed_kernel = codes "[kernel]"

node_of : KrgResolvedSymbol → LkmNode
node_of node = record {
  name = node.name;
  address = pos node.address;
  size = node.size;
  kind = node.kind;
  module_name = node.module_name;
}

-- The loop over the requested names: the owner, once a node is not the kernel's, and the nodes.
unfoldable pub request_nodes :
    KrgGraph → List Text → Option Text → Dict LkmNode → Result LkmError (Option Text × Dict LkmNode)
unfolding node_of
request_nodes g [] owner nodes = ok (owner, nodes)
request_nodes g (name ∷ names) owner nodes = do
  node ← or_raise (not_found name) (find g name)
  request_nodes g names
      (elim owner [
        | some o ↦ some o
        | none ↦ if text_eq node.module_name bracketed_kernel then none else some node.module_name
      ])
      (insert name (node_of node) nodes)

add_new : KrgResolvedSymbol → Dict LkmNode → Dict LkmNode
unfolding node_of
add_new node nodes = elim (lookup node.name nodes) [
  | some there ↦ nodes
  | none ↦ insert node.name (node_of node) nodes
]

add_all : List KrgResolvedSymbol → List Text × Dict LkmNode → List Text × Dict LkmNode
unfolding add_new
add_all [] s = s
add_all (node ∷ rest) (seen, nodes) =
    add_all rest (append_new node.module_name seen, add_new node nodes)

-- The modules that the closures of the requested names meet, and the nodes with theirs.
unfoldable pub closure_modules :
    KrgGraph
    → List Text
    → List Text
    → List Text × Dict LkmNode
    → Result LkmError (List Text × Dict LkmNode)
unfolding add_all append_new
closure_modules g stop_names [] s = ok s
closure_modules g stop_names (root ∷ roots) s = elim (closure g root stop_names) [
  | err e ↦ err (walk_error e)
  | ok found ↦ closure_modules g stop_names roots (add_all found s)
]

abbrev pub is_owned : Text → Text → Bool
is_owned owner m = text_eq m owner || text_eq m bracketed_kernel || text_eq m (codes "kernel")

-- `owner_module_path` and `resolved_nodes`, after the check for modules that are neither the owner nor the kernel.
unfoldable pub collect_nodes :
    KrgGraph → List Text → List Text → Result LkmError (Text × Dict LkmNode)
unfolding request_nodes closure_modules
collect_nodes g requested shim_targets = do
  (found, nodes) ← request_nodes g requested none []
  owner ← or_raise kernel_owner found
  (seen, all) ← closure_modules g (base_stop_names ++ shim_targets) requested ([], nodes)
  let extra = select (λ m. not (is_owned owner m)) seen
  raise_if (not (length extra == 0)) (unexpected_modules extra)
  ok (owner, all)

-- `module_label`
unfoldable pub module_label : Text → Text → Text
module_label shim_label m =
    if text_eq m bracketed_kernel || text_eq m (codes "kernel")
    then codes "kernel"
    else if text_eq m (codes "shim")
    then shim_label
    else m

-- `x <= y` for strings
text_le : Text → Text → Bool
text_le [] y = true
text_le (a ∷ x) [] = false
text_le (a ∷ x) (b ∷ y) = let rest = text_le x y in if a == b then rest else ltb a b

insert_node : LkmNode → List LkmNode → List LkmNode
unfolding text_le
insert_node n [] = n ∷ []
insert_node n (m ∷ ms) =
    let rest = m ∷ insert_node n ms in if text_le n.name m.name then n ∷ m ∷ ms else rest

-- `sorted(resolved_nodes.values(), key=lambda x: x[0])`
unfoldable pub sorted_nodes : Dict LkmNode → List LkmNode
unfolding insert_node
sorted_nodes [] = []
sorted_nodes ((key, n) ∷ nodes) = insert_node n (sorted_nodes nodes)

label_node : List Text → Text → LkmNode → LkmNode
unfolding module_label
label_node shim_targets shim_label n = record n {
  module_name =
      if contains shim_targets n.name then shim_label else module_label shim_label n.module_name;
}

-- `resolved_ordered`
unfoldable pub resolved_ordered : List Text → Text → Dict LkmNode → List LkmNode
unfolding sorted_nodes label_node
resolved_ordered shim_targets shim_label nodes =
    map (label_node shim_targets shim_label) (sorted_nodes nodes)

-- `layout.section_offsets.get(index)`
abbrev pub section_offset : KoCoreLayout → ℕ → Option ℕ
section_offset layout index = offset_in index (layout.text ++ layout.ro ++ layout.data_slots)

-- Where the module starts, if the node is a symbol that the layout places.
unfoldable pub anchor_of : KoFile → KoCoreLayout → LkmNode → Option ℤ
anchor_of ko layout n = elim (find_symbol ko n.name) [
  | none ↦ none
  | some (idx, sym) ↦ if is_undef sym then none else elim (section_offset layout sym.st_shndx) [
    | none ↦ none
    | some sec_off ↦ some (n.address +ℤ sub_ℕ 0 (sec_off + sym.st_value))
  ]
]

unfoldable pub infer_module_core_base :
    KoFile → KoCoreLayout → Text → List LkmNode → Result LkmError ℤ
infer_module_core_base ko layout owner [] = err unanchored
infer_module_core_base ko layout owner (n ∷ ns) =
    let rest = infer_module_core_base ko layout owner ns in
    if text_eq n.module_name owner
    then elim (anchor_of ko layout n) [ some base ↦ ok base | none ↦ rest ]
    else rest

-- What `build_lkm_so` has found out when it makes the symbols.
pub record Setting : Type 0 where
  pub ko : KoFile
  pub graph : KrgGraph
  pub layout : KoCoreLayout
  pub requested : List Text
  pub shim_targets : List Text
  pub shim_label : Text
  pub owner : Text
  pub base : ℤ

-- `max(0, end - addr)`, for the end of a part of the layout.
abbrev pub room : Setting → ℕ → ℤ → ℕ
room c end addr = pos_part (minus (c.base +ℤ pos end) addr)

-- A section that can hold a target that no node names: allocated, neither written nor executed.
abbrev pub is_read_only : KoSection → Bool
is_read_only sec = is_alloc sec && not (is_write sec) && not (is_exec sec)

-- The loop that adds the targets in read-only sections.
unfoldable pub add_ro_nodes : Setting → List KoDataReloc → Dict LkmNode → Dict LkmNode
unfolding is_non_core_section_name describe_reloc_target offset_in minus
add_ro_nodes c [] nodes = nodes
add_ro_nodes c (r ∷ rs) nodes = add_ro_nodes c rs (
    if r.undef then nodes else elim (get_elem? c.ko.sections r.sym_shndx) [
      | none ↦ nodes
      | some sec ↦
          if is_non_core_section_name sec.name || not (is_read_only sec)
          then nodes
          else elim (lookup (describe_reloc_target c.ko r).name nodes) [
            | some there ↦ nodes
            | none ↦ elim (section_offset c.layout r.sym_shndx) [
              | none ↦ nodes
              | some sec_off ↦
                  let t = describe_reloc_target c.ko r in
                  let addr = c.base +ℤ pos sec_off +ℤ t.value in
                  insert t.name
                    (record {
                      name = t.name;
                      address = addr;
                      size = room c c.layout.ro_end addr;
                      kind = 1;
                      module_name = c.owner;
                    })
                    nodes
            ]
          ]
    ])
