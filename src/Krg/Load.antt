-- ===== src/Krg/Load.antt =====
-- `KrgGraph._load`: the tables of the file in order, each behind its size check.
pub mod Save
pub mod Packed
pub mod Strings
pub mod Roundtrip
use binary_kernel_code_mappi.Prelude.{
  ℕ, zero, suc, ◌+◌, ◌*◌, Bool, true, false, not, ◌&&◌, ◌||◌, List, [], ◌∷◌, ◌++◌, Option, none,
  some, Bytes, Text, Dict, length, get_elem?, get_or, drop, codes, insert, ltb, leb, ◌==◌,
  if◌then◌else◌, Result, ok, err, ◌>>=◌, ◌>>◌, raise_if, or_raise,
}
use binary_kernel_code_mappi.Words.{field, read_u32s, slice, until_nul}
use binary_kernel_code_mappi.Words.Utf8.{decode}
use binary_kernel_code_mappi.Krg.{KrgResolvedSymbol, KrgGraph, kernel}

-- The `ValueError`s, in the order in which they can be raised.
pub data LoadError : Type 0 where
  too_small_for_header too_small_for_v2_header unsupported_header : LoadError
  truncated_node_table truncated_row_ptr truncated_col_idx truncated_name_offsets : LoadError
  truncated_name_blob truncated_module_offsets truncated_module_blob : LoadError
  invalid_module_offset unterminated_module_string : ℕ → LoadError
  invalid_name_offset unterminated_string : ℕ → LoadError

pub record Header : Type 0 where
  pub version : ℕ
  pub n_nodes : ℕ
  pub n_edges : ℕ
  pub name_blob_bytes : ℕ
  pub n_modules : ℕ
  pub module_blob_bytes : ℕ
  pub cursor : ℕ

abbrev pub magic : ℕ
magic = 0x3147524b

pub header_v2 : Bytes → Header
header_v2 blob = record {
  version = field blob 4 4;
  n_nodes = field blob 8 4;
  n_edges = field blob 12 4;
  name_blob_bytes = field blob 16 4;
  n_modules = field blob 32 4;
  module_blob_bytes = field blob 36 4;
  cursor = 40;
}

pub header_v1 : Bytes → Header
header_v1 blob = record (header_v2 blob) { n_modules = 1; module_blob_bytes = 0; cursor = 32 }

-- The size checks come before the check of the magic number.
pub read_header : Bytes → Result LoadError Header
unfolding header_v1 header_v2
read_header blob = do
  raise_if (ltb (length blob) 32) too_small_for_header
  let version = field blob 4 4
  raise_if (leb 2 version && ltb (length blob) 40) too_small_for_v2_header
  raise_if (not (field blob 0 4 == magic) || not (version == 1 || version == 2)) unsupported_header
  ok (if leb 2 version then header_v2 blob else header_v1 blob)

pub record RawNode : Type 0 where
  pub address : ℕ
  pub size : ℕ
  pub module_id : ℕ
  pub kind : ℕ

-- `<QIHBx` from version 2 on, `<QIB3x` before it.
pub read_node : ℕ → Bytes → ℕ → RawNode
read_node version blob c = record {
  address = field blob c 8;
  size = field blob (c + 8) 4;
  module_id = if leb 2 version then field blob (c + 12) 2 else 0;
  kind = if leb 2 version then field blob (c + 14) 1 else field blob (c + 12) 1;
}

pub read_nodes : ℕ → ℕ → Bytes → ℕ → Result LoadError (List RawNode)
unfolding read_node
read_nodes zero version blob c = ok []
read_nodes (suc n) version blob c = do
  raise_if (ltb (length blob) (c + 16)) truncated_node_table
  rest ← read_nodes n version blob (c + 16)
  ok (read_node version blob c ∷ rest)

-- One table of 32-bit words, with the error for a file that ends in it.
pub read_table : LoadError → ℕ → Bytes → ℕ → Result LoadError (List ℕ)
read_table e n blob c = do raise_if (ltb (length blob) (c + n * 4)) e; ok (read_u32s n blob c)

pub read_blob : LoadError → ℕ → Bytes → ℕ → Result LoadError Bytes
read_blob e n blob c = do raise_if (ltb (length blob) (c + n)) e; ok (slice blob c n)

-- The string at `off`: `invalid` past the end, `unterminated` where no NUL follows.
pub string_at : (ℕ → LoadError) → (ℕ → LoadError) → Bytes → ℕ → Result LoadError Text
string_at invalid unterminated blob off = do
  raise_if (leb (length blob) off) (invalid off)
  s ← or_raise (unterminated off) (until_nul (drop off blob))
  ok (decode s)

pub module_strings : Bytes → List ℕ → Result LoadError (List Text)
unfolding string_at
module_strings blob [] = ok []
module_strings blob (off ∷ offs) = do
  name ← string_at invalid_module_offset unterminated_module_string blob off
  rest ← module_strings blob offs
  ok (name ∷ rest)

pub or_kernel : List Text → List Text
or_kernel [] = kernel ∷ []
or_kernel modules = modules

pub read_modules : Header → Bytes → ℕ → Result LoadError (List Text)
unfolding or_kernel module_strings read_table read_blob
read_modules h blob c =
    if leb 2 h.version
    then (do
      offs ← read_table truncated_module_offsets h.n_modules blob c
      names ← read_blob truncated_module_blob h.module_blob_bytes blob (c + h.n_modules * 4)
      modules ← module_strings names offs
      ok (or_kernel modules))
    else ok (kernel ∷ [])

pub record Tables : Type 0 where
  pub raw_nodes : List RawNode
  pub row_ptr : List ℕ
  pub col_idx : List ℕ
  pub name_offsets : List ℕ
  pub name_blob : Bytes
  pub modules : List Text

-- The cursor after each table is the sum of the sizes before it.
pub read_tables : Header → Bytes → Result LoadError Tables
unfolding read_nodes read_table read_blob read_modules
read_tables h blob = do
  let at_nodes = h.cursor
  raw ← read_nodes h.n_nodes h.version blob at_nodes
  let at_rows = at_nodes + h.n_nodes * 16
  row_ptr ← read_table truncated_row_ptr (h.n_nodes + 1) blob at_rows
  let at_edges = at_rows + (h.n_nodes + 1) * 4
  col_idx ← read_table truncated_col_idx h.n_edges blob at_edges
  let at_offsets = at_edges + h.n_edges * 4
  offs ← read_table truncated_name_offsets h.n_nodes blob at_offsets
  let at_names = at_offsets + h.n_nodes * 4
  names ← read_blob truncated_name_blob h.name_blob_bytes blob at_names
  modules ← read_modules h blob (at_names + h.name_blob_bytes)
  ok (record {
    raw_nodes = raw;
    row_ptr = row_ptr;
    col_idx = col_idx;
    name_offsets = offs;
    name_blob = names;
    modules = modules;
  })

pub symbol : List Text → RawNode → Text → KrgResolvedSymbol
symbol modules r name = record {
  name = name;
  address = r.address;
  size = r.size;
  kind = r.kind;
  module_id = r.module_id;
  module_name = get_or modules r.module_id kernel;
}

-- The loop over `enumerate(name_offsets)`, which pairs each offset with the node of its index.
pub symbols : List Text → Bytes → List RawNode → List ℕ → Result LoadError (List KrgResolvedSymbol)
unfolding symbol string_at
symbols modules blob (r ∷ rs) (off ∷ offs) = do
  name ← string_at invalid_name_offset unterminated_string blob off
  rest ← symbols modules blob rs offs
  ok (symbol modules r name ∷ rest)
symbols modules blob _ _ = ok []

-- `name_to_id[name] = idx`: a later node of the same name replaces the index.
pub index_names : ℕ → List KrgResolvedSymbol → Dict ℕ → Dict ℕ
index_names i [] d = d
index_names i (s ∷ ss) d = index_names (suc i) ss (insert s.name i d)

pub assemble : Tables → Result LoadError KrgGraph
unfolding symbols index_names
assemble t = do
  nodes ← symbols t.modules t.name_blob t.raw_nodes t.name_offsets
  ok (record {
    nodes = nodes;
    name_to_id = index_names 0 nodes [];
    node_count = length t.raw_nodes;
    row_ptr = t.row_ptr;
    col_idx = t.col_idx;
    modules = t.modules;
  })

unfoldable pub load : Bytes → Result LoadError KrgGraph
unfolding read_header read_tables assemble
load blob = do h ← read_header blob; t ← read_tables h blob; assemble t
