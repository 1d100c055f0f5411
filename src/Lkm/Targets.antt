-- ===== src/Lkm/Targets.antt =====
-- make_dll/build_LKM_so.py, in `build_lkm_so`: what a relocation points at, and the names that the shim library gives.
use binary_kernel_code_mappi.Prelude.{
  ℕ, zero, suc, ◌+◌, ◌/◌, ◌^◌, Bool, false, not, ◌&&◌, ◌||◌, ◌==◌, ltb, List, [], ◌∷◌, ◌++◌, Option,
  none, some, Bytes, Text, codes, length, get_elem?, select, contains, text_eq, starts_with,
  if◌then◌else◌, Result, ok, ◌>>=◌, ◌>>◌, raise_if,
}
use binary_kernel_code_mappi.Prelude.Int.{ℤ, pos, negsuc, sub_ℕ, ◌+ℤ◌}
use binary_kernel_code_mappi.Words.{field}
use binary_kernel_code_mappi.Symbols.{stt_func, stt_object}
use binary_kernel_code_mappi.Ko.{
  KoSection, KoSymbol, KoFile, is_exec, is_undef, symbol_type, step_count,
}
use binary_kernel_code_mappi.Ko.CoreLayout.{KoDataReloc}
use binary_kernel_code_mappi.Lkm.{
  LkmError, struct_error, unexpected_entsize, truncated_relocations, is_core_exec, hex,
}

unfoldable pub is_number : ℤ → ℕ → Bool
is_number (pos m) n = m == n
is_number (negsuc m) n = false

-- `lookup_exact_local_symbol`, from the symbols that are left.
unfoldable pub lookup_exact_local_symbol : ℕ → ℤ → List KoSymbol → Option KoSymbol
unfolding is_number
lookup_exact_local_symbol sec_idx target_value [] = none
lookup_exact_local_symbol sec_idx target_value (sym ∷ syms) =
    let rest = lookup_exact_local_symbol sec_idx target_value syms in
    if is_undef sym || not (sym.st_shndx == sec_idx) || text_eq sym.name []
    then rest
    else if not (is_number target_value sym.st_value)
    then rest
    else if symbol_type sym == stt_func || symbol_type sym == stt_object
    then some sym
    else rest

pub record Target : Type 0 where
  pub name : Text
  pub kind : ℕ
  pub value : ℤ
  pub size : ℕ
  pub addend : ℤ

-- `name or default`, followed by the place of the target.
place_name : Text → Text → ℤ → Text
place_name [] default target_value = default ++ (codes "+0x" ++ hex target_value)
place_name (c ∷ name) default target_value = (c ∷ name) ++ (codes "+0x" ++ hex target_value)

symbol_or_place : Text → ℤ → Text
symbol_or_place [] target_value = codes ".internal+0x" ++ hex target_value
symbol_or_place (c ∷ name) target_value = c ∷ name

unfoldable pub target_value_of : KoDataReloc → ℤ
target_value_of reloc = pos reloc.sym_value +ℤ reloc.addend

local_target : KoSection → ℤ → Option KoSymbol → Target
unfolding place_name
local_target sec target_value (some matched) = record {
  name = matched.name;
  kind = if symbol_type matched == stt_func then 0 else 1;
  value = pos matched.st_value;
  size = matched.st_size;
  addend = target_value +ℤ sub_ℕ 0 matched.st_value;
}
local_target sec target_value none = record {
  name = place_name sec.name (codes ".internal") target_value;
  kind = if is_exec sec then 0 else 1;
  value = target_value;
  size = 0;
  addend = pos 0;
}

target_in : List KoSymbol → KoDataReloc → Option KoSection → Target
unfolding local_target symbol_or_place target_value_of lookup_exact_local_symbol
target_in symbols reloc (some sec) =
    local_target sec (target_value_of reloc)
      (lookup_exact_local_symbol reloc.sym_shndx (target_value_of reloc) symbols)
target_in symbols reloc none = record {
  name = symbol_or_place reloc.symbol_name (target_value_of reloc);
  kind = 1;
  value = target_value_of reloc;
  size = 0;
  addend = pos 0;
}

unfoldable pub describe_reloc_target : KoFile → KoDataReloc → Target
unfolding target_in
describe_reloc_target ko reloc = target_in ko.symbols reloc (get_elem? ko.sections reloc.sym_shndx)

-- `sec_idx in core_exec_indices`
unfoldable pub in_core_exec : List KoSection → ℕ → Bool
in_core_exec [] sec_idx = false
in_core_exec (sec ∷ secs) sec_idx =
    (is_core_exec sec && sec.index == sec_idx) || in_core_exec secs sec_idx

-- The name that one relocation adds to `exec_reloc_targets`.
unfoldable pub undefined_name : Option KoSymbol → List Text
undefined_name none = []
undefined_name (some sym) = if is_undef sym && not (text_eq sym.name []) then sym.name ∷ [] else []

-- The symbol of the entry at an offset.
abbrev pub entry_symbol : Bytes → List KoSymbol → ℕ → Option KoSymbol
entry_symbol blob symbols off = get_elem? symbols (field blob (off + 8) 8 / 2 ^ 32)

unfoldable pub entry_names : Bytes → List KoSymbol → ℕ → ℕ → Result LkmError (List Text)
unfolding undefined_name
entry_names blob symbols off zero = ok []
entry_names blob symbols off (suc count) = do
  raise_if (ltb (length blob) (off + 24)) struct_error
  rest ← entry_names blob symbols (off + 24) count
  ok (undefined_name (entry_symbol blob symbols off) ++ rest)

abbrev pub is_exec_rela : List KoSection → KoSection → Bool
is_exec_rela sections sec =
    sec.sh_type == 4 && starts_with sec.name (codes ".rela.") && in_core_exec sections sec.sh_info

unfoldable pub section_names : KoFile → KoSection → Result LkmError (List Text)
unfolding entry_names in_core_exec
section_names ko sec =
    if is_exec_rela ko.sections sec
    then (do
      raise_if (not (sec.sh_entsize == 24)) (unexpected_entsize sec.name)
      raise_if (ltb (length ko.blob) (sec.sh_offset + sec.sh_size)) (truncated_relocations sec.name)
      entry_names ko.blob ko.symbols sec.sh_offset (step_count sec.sh_size))
    else ok []

unfoldable pub sections_names : KoFile → List KoSection → Result LkmError (List Text)
unfolding section_names
sections_names ko [] = ok []
sections_names ko (sec ∷ secs) = do
  names ← section_names ko sec
  rest ← sections_names ko secs
  ok (names ++ rest)

abbrev pub exec_reloc_targets : KoFile → Result LkmError (List Text)
exec_reloc_targets ko = sections_names ko ko.sections

-- The name that a relocation of the data points at directly.
unfoldable pub pointed_name : KoFile → KoDataReloc → List Text
unfolding describe_reloc_target is_number
pointed_name ko r =
    if r.undef
    then (if text_eq r.symbol_name [] then [] else r.symbol_name ∷ [])
    else if is_number (describe_reloc_target ko r).addend 0
    then (describe_reloc_target ko r).name ∷ []
    else []

unfoldable pub pointed_names : KoFile → List KoDataReloc → List Text
unfolding pointed_name
pointed_names ko [] = []
pointed_names ko (r ∷ rs) = pointed_name ko r ++ pointed_names ko rs

-- `(forced_shim_symbols | shim_reloc_targets) - exec_shim_conflicts`
unfoldable pub shim_targets : List Text → List Text → List Text → List Text → List Text
shim_targets shim_symbols requested pointed exec_targets =
    let forced = select (λ n. not (contains requested n)) shim_symbols in
    let relocated = select (contains shim_symbols) pointed in
    let conflicts = select (contains shim_symbols) exec_targets in
    select (λ n. not (contains conflicts n)) (forced ++ relocated)

-- `base_stop_names`
abbrev pub base_stop_names : List Text
base_stop_names =
    codes "__kmalloc"
    ∷ codes "kmalloc"
    ∷ codes "kfree"
    ∷ codes "printk"
    ∷ codes "vprintk"
    ∷ codes "kstrdup"
    ∷ codes "ktime_get"
    ∷ codes "ktime_get_ns"
    ∷ codes "ktime_get_real_ts64"
    ∷ codes "do_gettimeofday"
    ∷ []
