-- ===== src/Lkm.antt =====
-- make_dll/build_LKM_so.py: the shared object for one loadable module. The records of `build_lkm_so`, its errors, and
-- the names of modules and sections.
pub mod Targets
pub mod ExecTargets
pub mod Shims
pub mod Nodes
pub mod Table
pub mod Anchor
pub mod Emit
use binary_kernel_code_mappi.Prelude.{
  ℕ, zero, suc, ◌+◌, ◌/◌, ◌%◌, ltb, Bool, ◌&&◌, ◌||◌, not, ◌==◌, List, [], ◌∷◌, ◌++◌, Text, codes,
  starts_with, text_eq, if◌then◌else◌,
}
use binary_kernel_code_mappi.Prelude.Int.{ℤ, pos, negsuc, pos_part, neg_part, sub_ℕ}
use binary_kernel_code_mappi.Ko.{KoSection, is_alloc, is_exec}
use binary_kernel_code_mappi.Ko.CoreLayout.{has_prefix}
use binary_kernel_code_mappi.Krg.Closure.{WalkError}
use binary_kernel_code_mappi.Resolve.{path_name, cut_suffix}

-- An entry of `resolved_nodes`. Addresses are computed from the anchor, and can be negative.
pub record LkmNode : Type 0 where
  pub name : Text
  pub address : ℤ
  pub size : ℕ
  pub kind : ℕ
  pub module_name : Text

-- The fields that `build_lkm_so` passes to `ResolvedSymbol`.
pub record LkmSymbol : Type 0 where
  pub name : Text
  pub source : Text
  pub defined : Bool
  pub exported : Bool
  pub st_type : ℕ
  pub size : ℕ
  pub address : ℤ
  pub export_order : ℕ
  pub original_order : ℕ
  pub module_id : ℕ
  pub module_name : Text

-- `index_error` for a section index out of range, `struct_error` for a relocation that the file cuts off.
pub data LkmError : Type 0 where
  no_symbols kernel_owner unanchored struct_error index_error : LkmError
  not_found unexpected_entsize truncated_relocations not_in_graph unexpected_module :
      Text → LkmError
  unexpected_modules : List Text → LkmError
  unsupported_type empty_name : ℕ → LkmError
  walk_error : WalkError → LkmError

-- `_is_non_core_section_name`
unfoldable pub is_non_core_section_name : Text → Bool
unfolding has_prefix
is_non_core_section_name =
    has_prefix (codes ".modinfo" ∷ codes ".return_sites" ∷ codes ".retpoline_sites" ∷ [])

unfoldable pub is_core_exec : KoSection → Bool
unfolding is_non_core_section_name
is_core_exec sec =
    is_alloc sec
    && is_exec sec
    && not (is_non_core_section_name sec.name)
    && not (starts_with sec.name (codes ".init"))
    && not (starts_with sec.name (codes ".exit"))

unfoldable pub module_name_from_path : Text → Text
unfolding path_name cut_suffix
module_name_from_path module_path =
    if text_eq module_path (codes "[kernel]")
    then codes "kernel"
    else cut_suffix (codes ".ko.xz" ∷ codes ".ko.gz" ∷ codes ".ko.zst" ∷ codes ".ko" ∷ [])
        (path_name module_path)

unfoldable pub lkm_lib : Text → Text
unfolding module_name_from_path
lkm_lib module_path = codes "lib" ++ (module_name_from_path module_path ++ codes ".so")

-- a - b
unfoldable pub minus : ℤ → ℤ → ℤ
minus a b = sub_ℕ (pos_part a + neg_part b) (neg_part a + pos_part b)

hex_digit : ℕ → ℕ
hex_digit n = if ltb n 10 then 48 + n else 87 + n

-- The hexadecimal digits of `n`, before `acc`; `n + 1` rounds are enough.
hex_onto : ℕ → ℕ → Text → Text
unfolding hex_digit
hex_onto zero n acc = acc
hex_onto (suc fuel) n acc =
    let rest = hex_onto fuel (n / 16) (hex_digit (n % 16) ∷ acc) in
    if ltb n 16 then hex_digit n ∷ acc else rest

-- `f"{v:x}"`
unfoldable pub hex : ℤ → Text
unfolding hex_onto
hex (pos n) = hex_onto (suc n) n []
hex (negsuc n) = b'-' ∷ hex_onto (suc (suc n)) (suc n) []
