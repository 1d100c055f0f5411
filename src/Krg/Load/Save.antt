-- ===== src/Krg/Load/Save.antt =====
-- kernel_cgd/src/krg.cpp, the end of `save`: how the file of version 2 is written, and how the string
-- tables are laid out.
use binary_kernel_code_mappi.Prelude.{ℕ, ◌+◌, List, [], ◌∷◌, ◌++◌, Bytes, Text, length}
use binary_kernel_code_mappi.Words.{to_le, words}
use binary_kernel_code_mappi.Krg.Load.{RawNode, magic}

pub record KrgFile : Type 0 where
  pub raw_nodes : List RawNode
  pub row_ptr : List ℕ
  pub col_idx : List ℕ
  pub name_off : List ℕ
  pub name_blob : Bytes
  pub module_off : List ℕ
  pub module_blob : Bytes

-- `struct FileHeader`, with its defaults; `is_runtime_address` and `reserved` are 0.
unfoldable pub header_words : KrgFile → List ℕ
header_words f =
    magic
    ∷ 2
    ∷ length f.raw_nodes
    ∷ length f.col_idx
    ∷ length f.name_blob
    ∷ 0
    ∷ 0
    ∷ 0
    ∷ length f.module_off
    ∷ length f.module_blob
    ∷ []

-- `struct Node { u64 addr; u32 size; u16 module; u8 kind; u8 pad{0}; }`
unfoldable pub pack_node : RawNode → Bytes
pack_node r =
    to_le 8 r.address ++ (to_le 4 r.size ++ (to_le 2 r.module_id ++ (to_le 1 r.kind ++ 0 ∷ [])))

unfoldable pub pack_nodes : List RawNode → Bytes
pack_nodes [] = []
pack_nodes (r ∷ rs) = pack_node r ++ pack_nodes rs

unfoldable pub save : KrgFile → Bytes
save f =
    words (header_words f)
    ++ (pack_nodes f.raw_nodes
        ++ (words f.row_ptr
            ++ (words f.col_idx
                ++ (words f.name_off ++ (f.name_blob ++ (words f.module_off ++ f.module_blob))))))

-- `name_off.push_back(blob.size()); blob.append(name); blob.push_back('\0')`
unfoldable pub string_offsets : ℕ → List Text → List ℕ
string_offsets size [] = []
string_offsets size (s ∷ ss) = size ∷ string_offsets (size + (length s + 1)) ss

unfoldable pub string_blob : List Text → Bytes
string_blob [] = []
string_blob (s ∷ ss) = s ++ 0 ∷ string_blob ss

-- The graph in memory, before its names are laid out.
pub record Source : Type 0 where
  pub raw_nodes : List RawNode
  pub names : List Text
  pub row_ptr : List ℕ
  pub col_idx : List ℕ
  pub modules : List Text

unfoldable pub lay_out : Source → KrgFile
unfolding string_offsets string_blob
lay_out s = record {
  raw_nodes = s.raw_nodes;
  row_ptr = s.row_ptr;
  col_idx = s.col_idx;
  name_off = string_offsets 0 s.names;
  name_blob = string_blob s.names;
  module_off = string_offsets 0 s.modules;
  module_blob = string_blob s.modules;
}
