-- ===== src/StringTables.antt =====
-- make_dll/build_PIC_so.py: the string tables `.dynstr`, `.strtab` and `.shstrtab`, and the offsets of the names in them.
pub mod Readback
pub mod Needed
pub mod Sections
use binary_kernel_code_mappi.Prelude.{
  ℕ, Bool, true, false, List, [], ◌∷◌, ◌++◌, Option, none, some, Bytes, Text, Dict, length, lookup,
  insert, ltb, if◌then◌else◌, Result, ok, err, ◌>>=◌, ◌>>◌, raise_if, or_raise,
}

-- `UnicodeEncodeError` and `KeyError`.
pub data TableError : Type 0 where
  not_ascii missing_offset : Text → TableError

has_wide : Text → Bool
has_wide [] = false
has_wide (c ∷ s) = if ltb c 128 then has_wide s else true

-- `name.encode("ascii")`
unfoldable pub encode_ascii : Text → Result TableError Bytes
unfolding has_wide
encode_ascii name = do raise_if (has_wide name) (not_ascii name); ok name

-- The bytes of a table so far, with the offsets of its names.
pub record StringTable : Type 0 where
  pub offsets : Dict ℕ
  pub content : Bytes

-- A name that has an offset is not written again.
unfoldable pub add_string : Text → StringTable → Result TableError StringTable
unfolding encode_ascii
add_string name t = elim (lookup name t.offsets) [
  | some off ↦ ok t
  | none ↦ encode_ascii name >>= λ bytes. ok (record {
    offsets = insert name (length t.content) t.offsets;
    content = t.content ++ (bytes ++ 0 ∷ []);
  })
]

unfoldable pub add_strings : List Text → StringTable → Result TableError StringTable
unfolding add_string
add_strings [] t = ok t
add_strings (name ∷ names) t = do t' ← add_string name t; add_strings names t'

-- `bytearray(b"\x00")`
abbrev pub empty_table : StringTable
empty_table = record { offsets = []; content = 0 ∷ [] }

-- `_build_strtab`, on the names of `self.symbols`.
unfoldable pub build_strtab : List Text → Result TableError StringTable
unfolding add_strings
build_strtab names = add_strings names empty_table

-- `.dynstr` with `dynstr_needed_offsets`.
pub record DynStr : Type 0 where
  pub table : StringTable
  pub needed_offsets : Dict ℕ

-- The loop over the libraries.
unfoldable pub add_needed : List Text → DynStr → Result TableError DynStr
unfolding add_string
add_needed [] d = ok d
add_needed (lib ∷ libs) d = do
  table ← add_string lib d.table
  off ← or_raise (missing_offset lib) (lookup lib table.offsets)
  add_needed libs (record { table = table; needed_offsets = insert lib off d.needed_offsets })

-- `_build_dynstr`, on the names of the dynamic symbols and the needed libraries.
unfoldable pub build_dynstr : List Text → List Text → Result TableError DynStr
unfolding add_strings add_needed
build_dynstr names needed_libraries = do
  table ← add_strings names empty_table
  add_needed needed_libraries (record { table = table; needed_offsets = [] })

-- The loop of `_build_shstrtab`, which writes every name and does not look for it first.
unfoldable pub append_names : List Text → StringTable → Result TableError StringTable
unfolding encode_ascii
append_names [] t = ok t
append_names (name ∷ names) t = do
  bytes ← encode_ascii name
  append_names names (record {
    offsets = insert name (length t.content) t.offsets;
    content = t.content ++ (bytes ++ 0 ∷ []);
  })

-- `_build_shstrtab`, on the section order; the empty name comes first.
unfoldable pub build_shstrtab : List Text → Result TableError StringTable
unfolding append_names
build_shstrtab section_order =
    append_names ([] ∷ section_order) (record { offsets = []; content = [] })
