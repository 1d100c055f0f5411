-- ===== src/Krg/Load/Roundtrip.antt =====
-- `KrgGraph._load` reads back what krg.cpp saves.
use binary_kernel_code_mappi.Prelude.{
  ℕ, ◌+◌, ◌*◌, ◌≡◌, ◌≢◌, refl, List, [], ◌∷◌, ◌++◌, Bytes, Text, All, length, ok, ◌>>=◌, arith,
}
use mathlib.Core.List.{append-nil}
use binary_kernel_code_mappi.Words.{words}
use binary_kernel_code_mappi.Words.Layout.{At, At-start, At-append, AreU32, length-words}
use binary_kernel_code_mappi.Krg.Load.{
  Header, read_modules, read_tables, or_kernel, module_strings, index_names, assemble, load,
  truncated_row_ptr, truncated_col_idx, truncated_name_offsets, truncated_name_blob,
  truncated_module_offsets, truncated_module_blob,
}
use binary_kernel_code_mappi.Krg.Load.Save.{
  KrgFile, Source, header_words, pack_nodes, save, lay_out,
}
use binary_kernel_code_mappi.Krg.Load.Packed.{
  FitsNode, length-pack_nodes, read_nodes-pack, read_table-words, read_blob-append,
  read_header-words,
}
use binary_kernel_code_mappi.Krg.Load.Strings.{IsName, named, module_strings-layout, symbols-layout}

-- The tables belong together, and every number fits its field.
pub record IsKrgFile (f : KrgFile) : Type 0 where
  pub rows : length f.row_ptr ≡ length f.raw_nodes + 1
  pub offsets : length f.name_off ≡ length f.raw_nodes
  pub header_fits : AreU32 (header_words f)
  pub nodes_fit : All FitsNode f.raw_nodes
  pub rows_fit : AreU32 f.row_ptr
  pub cols_fit : AreU32 f.col_idx
  pub offs_fit : AreU32 f.name_off
  pub module_offs_fit : AreU32 f.module_off

abbrev header_of : KrgFile → Header
header_of f = record {
  version = 2;
  n_nodes = length f.raw_nodes;
  n_edges = length f.col_idx;
  name_blob_bytes = length f.name_blob;
  n_modules = length f.module_off;
  module_blob_bytes = length f.module_blob;
  cursor = 40;
}

-- The body of the file, behind its header.
abbrev body : KrgFile → Bytes
body f =
    pack_nodes f.raw_nodes
    ++ (words f.row_ptr
        ++ (words f.col_idx
            ++ (words f.name_off ++ (f.name_blob ++ (words f.module_off ++ f.module_blob)))))

At-next :
    (blob : Bytes) (off n : ℕ) (front rest : Bytes)
    → At blob off (front ++ rest)
    → length front ≡ n
    → At blob (off + n) rest
At-next blob off n front rest h e = rw e at (At-append blob off front rest h)

module _ (f : KrgFile) (is : IsKrgFile f) where
  read_tables-body :
      (blob : Bytes)
      → At blob 40 (body f)
      → read_tables (header_of f) blob ≡ (
          module_strings f.module_blob f.module_off >>= λ ms. ok (record {
            raw_nodes = f.raw_nodes;
            row_ptr = f.row_ptr;
            col_idx = f.col_idx;
            name_offsets = f.name_off;
            name_blob = f.name_blob;
            modules = or_kernel ms;
          }))
  unfolding read_tables read_modules
  read_tables-body blob at_nodes =
      let n = length f.raw_nodes in
      let rows = is.rows in
      let offsets = is.offsets in
      let at_rows =
        At-next blob 40 (n * 16) (pack_nodes f.raw_nodes) _ at_nodes
          (length-pack_nodes f.raw_nodes) in
      let at_edges =
        At-next blob _ ((n + 1) * 4) (words f.row_ptr) _ at_rows
          (omega (arith, length-words f.row_ptr)) in
      let at_offsets =
        At-next blob _ (length f.col_idx * 4) (words f.col_idx) _ at_edges
          (omega (arith, length-words f.col_idx)) in
      let at_names =
        At-next blob _ (n * 4) (words f.name_off) _ at_offsets
          (omega (arith, length-words f.name_off)) in
      let at_modules = At-next blob _ (length f.name_blob) f.name_blob _ at_names refl in
      let at_strings =
        At-next blob _ (length f.module_off * 4) (words f.module_off) f.module_blob at_modules
          (omega (arith, length-words f.module_off)) in
      let whole : f.module_blob ++ [] ≡ f.module_blob = append-nil f.module_blob in
      rw
        (
          read_nodes-pack f.raw_nodes 40 blob _ is.nodes_fit at_nodes,
          rw rows at (read_table-words truncated_row_ptr f.row_ptr _ blob _ is.rows_fit at_rows),
          read_table-words truncated_col_idx f.col_idx _ blob _ is.cols_fit at_edges,
          rw offsets at
              (read_table-words truncated_name_offsets f.name_off _ blob _ is.offs_fit at_offsets),
          read_blob-append truncated_name_blob f.name_blob _ blob _ at_names,
          read_table-words truncated_module_offsets f.module_off _ blob _ is.module_offs_fit
              at_modules,
          read_blob-append truncated_module_blob f.module_blob _ blob []
              (rw (← whole) at at_strings),
        )
        (ground arith)

  -- The loader reads back every table, and then resolves the names of the modules and of the nodes.
  load-save : load (save f) ≡ (
      module_strings f.module_blob f.module_off >>= λ ms. assemble (record {
        raw_nodes = f.raw_nodes;
        row_ptr = f.row_ptr;
        col_idx = f.col_idx;
        name_offsets = f.name_off;
        name_blob = f.name_blob;
        modules = or_kernel ms;
      }))
  unfolding load save header_words
  load-save =
      let vs = header_words f in
      let blob = words vs ++ body f in
      let at_body = At-next blob 0 40 (words vs) (body f) (At-start blob) (length-words vs) in
      let header =
        read_header-words (length f.raw_nodes) (length f.col_idx) (length f.name_blob)
          (length f.module_off) (length f.module_blob) (body f) is.header_fits in
      rw (header, read_tables-body blob at_body) (ground arith)

-- The arrays of a graph have the sizes of its node list, it has a module, its numbers fit their fields, and its
-- names are ASCII without NUL.
pub record IsSource (s : Source) : Type 0 where
  pub file : IsKrgFile (lay_out s)
  pub has_module : s.modules ≢ []
  pub names_fit : All IsName s.names
  pub modules_fit : All IsName s.modules

or_kernel_lem : (modules : List Text) → modules ≢ [] → or_kernel modules ≡ modules
unfolding or_kernel
or_kernel_lem [] h = absurd (h refl)
or_kernel_lem (m ∷ ms) h = refl

-- What krg.cpp saves, `KrgGraph` loads: the nodes with their names and the names of their modules, the edges,
-- the modules, and the index of the names.
pub load-save-lay_out :
    (s : Source)
    → IsSource s
    → load (save (lay_out s))
      ≡ ok (record {
        nodes = named s.modules s.raw_nodes s.names;
        name_to_id = index_names 0 (named s.modules s.raw_nodes s.names) [];
        node_count = length s.raw_nodes;
        row_ptr = s.row_ptr;
        col_idx = s.col_idx;
        modules = s.modules;
      })
unfolding lay_out assemble
load-save-lay_out s is =
    rw
      (
        load-save (lay_out s) is.file,
        module_strings-layout s.modules [] is.modules_fit,
        or_kernel_lem s.modules is.has_module,
        symbols-layout s.modules s.raw_nodes s.names [] is.names_fit,
      )
      refl
