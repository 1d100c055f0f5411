-- ===== src/Symbols.antt =====
-- make_dll/build_PIC_so.py: `ResolvedSymbol`, the record that the resolver fills and the later stages update.
-- Where the program shares a symbol object, the model names it by its index in the list of all symbols.
use binary_kernel_code_mappi.Prelude.{
  ℕ, Bool, true, false, not, Option, none, Text, codes, if◌then◌else◌,
}
use binary_kernel_code_mappi.Prelude.Int.{ℤ, pos}
use binary_kernel_code_mappi.Krg.{kernel}

abbrev pub stt_object : ℕ
stt_object = 1

abbrev pub stt_func : ℕ
stt_func = 2

abbrev pub lib_shim : Text
lib_shim = codes "libshim.so"

pub record ResolvedSymbol : Type 0 where
  pub name : Text
  pub source : Text
  pub defined : Bool
  pub st_type : ℕ
  pub module_id : ℕ
  pub module_name : Text
  pub exported : Bool
  pub size : ℕ
  pub address : ℕ
  pub virtual_address : ℤ
  pub section_name : Option Text
  pub export_order : ℕ
  pub original_order : ℕ
  pub dynsym_index : ℕ
  pub got_offset : ℕ
  pub gnu_hash_value : ℕ
  pub gnu_bucket : ℕ
  pub replace_from_kernel : Bool
  pub reuse_kind : Option Text

-- The constructor's defaults.
abbrev pub resolved_symbol : Text → Text → Bool → ℕ → ResolvedSymbol
resolved_symbol name source defined st_type = record {
  name = name;
  source = source;
  defined = defined;
  st_type = st_type;
  module_id = 0;
  module_name = kernel;
  exported = false;
  size = 0;
  address = 0;
  virtual_address = pos 0;
  section_name = none;
  export_order = 0;
  original_order = 0;
  dynsym_index = 0;
  got_offset = 0;
  gnu_hash_value = 0;
  gnu_bucket = 0;
  replace_from_kernel = true;
  reuse_kind = none;
}

unfoldable pub is_import : ResolvedSymbol → Bool
is_import sym = not sym.defined

unfoldable pub role_for_symbol : ResolvedSymbol → Text
role_for_symbol sym =
    if not sym.replace_from_kernel
    then codes "synthetic"
    else if not sym.defined
    then codes "import"
    else if sym.exported
    then codes "export"
    else codes "internal"
