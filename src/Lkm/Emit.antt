-- ===== src/Lkm/Emit.antt =====
-- make_dll/build_LKM_so.py, in `build_lkm_so`: the relocations that the shared object gets, and the symbols made for them.
pub mod Rounds
pub mod Emitted
use binary_kernel_code_mappi.Prelude.{
  ℕ, Bool, true, false, not, ◌||◌, ◌&&◌, ◌==◌, ltb, List, [], ◌∷◌, ◌++◌, Option, none, some, Text,
  Dict, codes, length, get_elem?, contains, text_eq, starts_with, lookup, insert, if◌then◌else◌,
  Result, ok, err, ◌>>=◌, ◌>>◌, raise_if, or_raise,
}
use binary_kernel_code_mappi.Prelude.Int.{ℤ, pos, ◌+ℤ◌}
use binary_kernel_code_mappi.Krg.{KrgResolvedSymbol, find}
use binary_kernel_code_mappi.Symbols.{lib_shim, stt_func, stt_object}
use binary_kernel_code_mappi.Ko.{KoSection, KoFile}
use binary_kernel_code_mappi.Ko.CoreLayout.{KoDataReloc}
use binary_kernel_code_mappi.Lkm.{
  LkmSymbol, LkmError, not_in_graph, unexpected_module, unsupported_type, empty_name,
  is_non_core_section_name, lkm_lib,
}
use binary_kernel_code_mappi.Lkm.Targets.{Target, describe_reloc_target}
use binary_kernel_code_mappi.Lkm.Nodes.{Setting, section_offset, module_label, is_owned, room}
use binary_kernel_code_mappi.Lkm.Table.{Table, append_symbol, need_shim}

-- `DataRelocation`; the symbol is given by its index in `resolved_syms`.
pub record LkmReloc : Type 0 where
  pub offset : ℕ
  pub symbol : ℕ
  pub addend : ℤ
  pub r_type : ℕ

-- `p in s`
unfoldable pub has_substring : Text → Text → Bool
has_substring p [] = starts_with [] p
has_substring p (c ∷ s) = starts_with (c ∷ s) p || has_substring p s

-- The name, the kind, the value, the size and the addend that the loop starts from.
unfoldable pub reloc_target : KoFile → KoDataReloc → Target
unfolding describe_reloc_target
reloc_target ko r =
    if r.undef
    then record {
      name = r.symbol_name;
      kind = 1;
      value = pos r.sym_value;
      size = 0;
      addend = r.addend;
    }
    else describe_reloc_target ko r

-- `size_extra`
unfoldable pub extra_size : Setting → Target → ℤ → ℕ
unfolding has_substring
extra_size c t addr =
    if ltb 0 t.size
    then t.size
    else if has_substring (codes ".rodata") t.name
    then room c c.layout.ro_end addr
    else if has_substring (codes ".data") t.name || has_substring (codes ".bss") t.name
    then room c c.layout.data_end addr
    else if has_substring (codes ".text") t.name || t.kind == 0
    then room c c.layout.text_end addr
    else 0

-- The symbol for a name that the module leaves undefined; whether it is a shim's is asked of the name in the relocation.
unfoldable pub graph_symbol : Setting → ℕ → Bool → KrgResolvedSymbol → LkmSymbol
unfolding lkm_lib module_label
graph_symbol c count is_shim node = record {
  name = node.name;
  source = if is_shim then lib_shim else lkm_lib c.owner;
  defined = not is_shim;
  exported = false;
  st_type = if node.kind == 0 then stt_func else stt_object;
  size = node.size;
  address = if is_shim then pos 0 else pos node.address;
  export_order = count;
  original_order = count;
  module_id = node.module_id;
  module_name = if is_shim then c.shim_label else module_label c.shim_label node.module_name;
}

unfoldable pub find_undefined : Setting → ℕ → Text → Result LkmError LkmSymbol
unfolding graph_symbol
find_undefined c count name = do
  node ← or_raise (not_in_graph name) (find c.graph name)
  raise_if (not (is_owned c.owner node.module_name)) (unexpected_module node.name)
  ok (graph_symbol c count (contains c.shim_targets name) node)

unfoldable pub place_symbol : Setting → ℕ → Target → Option KoSection → Option ℕ → Option LkmSymbol
unfolding is_non_core_section_name extra_size lkm_lib
place_symbol c count t sec none = none
place_symbol c count t sec (some sec_off) =
    let is_shim = contains c.shim_targets t.name in
    let addr = c.base +ℤ pos sec_off +ℤ t.value in
    if (elim sec [ some s ↦ is_non_core_section_name s.name | none ↦ false ])
    then none
    else some (record {
      name = t.name;
      source = if is_shim then lib_shim else lkm_lib c.owner;
      defined = not is_shim;
      exported = false;
      st_type = if t.kind == 0 then stt_func else stt_object;
      size = extra_size c t addr;
      address = if is_shim then pos 0 else addr;
      export_order = count;
      original_order = count;
      module_id = 0;
      module_name = if is_shim then c.shim_label else c.owner;
    })

-- The symbol for a target that has none yet; none where the relocation is skipped.
unfoldable pub new_symbol : Setting → ℕ → KoDataReloc → Target → Result LkmError (Option LkmSymbol)
unfolding find_undefined place_symbol
new_symbol c count r t =
    if r.undef
    then (find_undefined c count t.name >>= λ sym. ok (some sym))
    else ok (
        place_symbol c count t (get_elem? c.ko.sections r.sym_shndx)
          (section_offset c.layout r.sym_shndx))

reloc_for : KoDataReloc → Target → ℕ → LkmReloc
reloc_for r t symbol = record { offset = r.offset; symbol = symbol; addend = t.addend; r_type = 1 }

use_new : Setting → KoDataReloc → Target → Option LkmSymbol → Table → Option LkmReloc × Table
unfolding reloc_for need_shim append_symbol
use_new c r t none tab = (none, tab)
use_new c r t (some sym) tab = (
  some (reloc_for r t (length tab.symbols)),
  need_shim (contains c.shim_targets t.name) (append_symbol sym tab),
)

use_target :
    Setting → KoDataReloc → Target → Option ℕ → Table → Result LkmError (Option LkmReloc × Table)
unfolding reloc_for need_shim use_new new_symbol
use_target c r t (some idx) tab =
    ok (some (reloc_for r t idx), need_shim (contains c.shim_targets t.name) tab)
use_target c r t none tab = do
  sym ← new_symbol c (length tab.symbols) r t
  ok (use_new c r t sym tab)

-- The body of the loop over `layout.data_relocs`.
unfoldable pub emit : Setting → KoDataReloc → Table → Result LkmError (Option LkmReloc × Table)
unfolding use_target reloc_target
emit c r tab = do
  raise_if (not (r.r_type == 1)) (unsupported_type r.r_type)
  raise_if (text_eq (reloc_target c.ko r).name []) (empty_name r.sym_idx)
  use_target c r (reloc_target c.ko r) (lookup (reloc_target c.ko r).name tab.by_name) tab

or_skip : Option LkmReloc → List LkmReloc → List LkmReloc
or_skip none out = out
or_skip (some e) out = e ∷ out

-- The loop: the relocations that are not skipped, and the table in the end.
unfoldable pub emit_all :
    Setting → List KoDataReloc → Table → Result LkmError (List LkmReloc × Table)
unfolding emit or_skip
emit_all c [] tab = ok ([], tab)
emit_all c (r ∷ rs) tab = do
  (emitted, tab') ← emit c r tab
  (out, last) ← emit_all c rs tab'
  ok (or_skip emitted out, last)
