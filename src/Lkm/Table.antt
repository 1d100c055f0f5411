-- ===== src/Lkm/Table.antt =====
-- make_dll/build_LKM_so.py, in `build_lkm_so`: the table of symbols, and the symbols of the nodes.
use binary_kernel_code_mappi.Prelude.{
  ℕ, Bool, true, false, not, ◌==◌, List, [], ◌∷◌, ◌++◌, none, some, Text, Dict, codes, length,
  get_elem?, contains, starts_with, lookup, insert, if◌then◌else◌, Result, ok, ◌>>=◌, or_raise,
}
use binary_kernel_code_mappi.Prelude.Int.{pos}
use binary_kernel_code_mappi.Symbols.{lib_shim, stt_func, stt_object}
use binary_kernel_code_mappi.Resolve.{append_new, export_orders, get_order}
use binary_kernel_code_mappi.Ko.{KoFile, is_undef, find_symbol}
use binary_kernel_code_mappi.Lkm.{LkmNode, LkmSymbol, LkmError, index_error, lkm_lib}
use binary_kernel_code_mappi.Lkm.Nodes.{module_label, Setting, is_read_only}

-- `is_ro_symbol`
unfoldable pub is_ro_symbol : KoFile → Text → Result LkmError Bool
unfolding find_symbol
is_ro_symbol ko name =
    if starts_with name (codes ".rodata") then ok true else elim (find_symbol ko name) [
      | none ↦ ok false
      | some (idx, sym) ↦
          if is_undef sym
          then ok false
          else (or_raise index_error (get_elem? ko.sections sym.st_shndx) >>= λ sec.
              ok (is_read_only sec))
    ]

-- `kind == 1 and not is_ro_symbol(name)`
unfoldable pub is_left_out : KoFile → LkmNode → Result LkmError Bool
unfolding is_ro_symbol
is_left_out ko n =
    if n.kind == 1 then (is_ro_symbol ko n.name >>= λ read_only. ok (not read_only)) else ok false

-- `resolved_syms`, `by_name` with an index in them for each name, and `needed_libs`.
pub record Table : Type 0 where
  pub symbols : List LkmSymbol
  pub by_name : Dict ℕ
  pub needed_libs : List Text

abbrev pub fresh_table : Table
fresh_table = record { symbols = []; by_name = []; needed_libs = [] }

-- `resolved_syms.append(sym); by_name[sym.name] = sym`
unfoldable pub append_symbol : LkmSymbol → Table → Table
unfolding insert
append_symbol sym t = record t {
  symbols = t.symbols ++ sym ∷ [];
  by_name = insert sym.name (length t.symbols) t.by_name;
}

-- `if is_shim and LIB_SHIM not in needed_libs: needed_libs.append(LIB_SHIM)`
unfoldable pub need_shim : Bool → Table → Table
unfolding append_new
need_shim is_shim t = record t {
  needed_libs = if is_shim then append_new lib_shim t.needed_libs else t.needed_libs;
}

unfoldable pub symbol_of_node : Setting → ℕ → LkmNode → LkmSymbol
unfolding lkm_lib module_label export_orders get_order
symbol_of_node c count n =
    let is_shim = contains c.shim_targets n.name in
    record {
      name = n.name;
      source = if is_shim then lib_shim else lkm_lib c.owner;
      defined = not is_shim;
      exported = contains c.requested n.name;
      st_type = if n.kind == 0 then stt_func else stt_object;
      size = n.size;
      address = if is_shim then pos 0 else n.address;
      export_order = get_order (lookup n.name (export_orders 0 c.requested [])) count;
      original_order = count;
      module_id = 0;
      module_name = if is_shim then c.shim_label else module_label c.shim_label n.module_name;
    }

-- The loop that makes a symbol for every node, but for data that is not read-only.
unfoldable pub node_symbols : Setting → List LkmNode → Table → Result LkmError Table
unfolding is_left_out append_symbol need_shim symbol_of_node
node_symbols c [] t = ok t
node_symbols c (n ∷ ns) t = do
  let t' = need_shim (contains c.shim_targets n.name) t
  left_out ← is_left_out c.ko n
  node_symbols c ns
      (if left_out then t' else append_symbol (symbol_of_node c (length t'.symbols) n) t')
