-- ===== src/Builder/Prepared.antt =====
-- The preparation of the symbols always succeeds, and the dynamic symbols are those that are exported, imported or
-- relocated against.
use binary_kernel_code_mappi.Prelude.{
  ℕ, ◌≡◌, refl, ◌↔◌, ◌⊎◌, inl, inr, true, false, ◌&&◌, ◌||◌, List, [], ◌∷◌, ◌++◌, map, In, select,
  codes, Bool-cases, ok, arith,
}
use binary_kernel_code_mappi.Symbols.{is_import}
use binary_kernel_code_mappi.Regions.{build_regions}
use binary_kernel_code_mappi.Regions.Layout.{assign_symbol_sections-build_regions}
use binary_kernel_code_mappi.Placement.{text_base_vaddr}
use binary_kernel_code_mappi.Builder.{
  Config, has_id, take_new, indices_of, dynamic_symbols, is_code, is_ro, fill_symbols,
  text_min_page, set_virtual, set_section, PreparedSymbols, prepare_symbol_virtual_addresses,
}

-- No symbol is left without a region, whatever the symbols and the ranges are: the preparation raises nothing. The
-- regions are built from the code and the read-only symbols at their final addresses.
pub prepare_symbol_virtual_addresses-total :
    (c : Config)
    → (p : PreparedSymbols) × (prepare_symbol_virtual_addresses c ≡ ok p)
      × (let symbols =
            map
              (set_virtual p.min_page)
              (fill_symbols c.export_stub_size text_base_vaddr c.symbols) in
          (p.text_regions
            ≡ build_regions
                (select (is_code c.owner_module_name) symbols)
                (codes ".text")
                c.extra_text_ranges)
          × (p.ro_regions
              ≡ build_regions
                  (select (is_ro c.owner_module_name) symbols)
                  (codes ".rodata")
                  c.extra_ro_ranges))
unfolding prepare_symbol_virtual_addresses
prepare_symbol_virtual_addresses-total c =
    let filled = fill_symbols c.export_stub_size text_base_vaddr c.symbols in
    let symbols = map (set_virtual (text_min_page c filled)) filled in
    let (_, code, _) =
      assign_symbol_sections-build_regions (select (is_code c.owner_module_name) symbols)
        (codes ".text") c.extra_text_ranges in
    let (_, ro, _) =
      assign_symbol_sections-build_regions (select (is_ro c.owner_module_name) symbols)
        (codes ".rodata") c.extra_ro_ranges in
    let p : PreparedSymbols = record {
      symbols =
          map
            (set_section c.owner_module_name
              (build_regions (select (is_code c.owner_module_name) symbols) (codes ".text")
                c.extra_text_ranges)
              (build_regions (select (is_ro c.owner_module_name) symbols) (codes ".rodata")
                c.extra_ro_ranges))
            symbols;
      min_page = text_min_page c filled;
      text_regions =
          build_regions (select (is_code c.owner_module_name) symbols) (codes ".text")
            c.extra_text_ranges;
      ro_regions =
          build_regions (select (is_ro c.owner_module_name) symbols) (codes ".rodata")
            c.extra_ro_ranges;
    } in
    (p, rw (code, ro) refl, (refl, refl))

has_id_iff : (i : ℕ) (is : List ℕ) → (has_id i is ≡ true) ↔ In i is
unfolding has_id
has_id_iff i [] = ((λ h. cc), (λ h. absurd h))
has_id_iff i (j ∷ js) = ground (arith, has_id_iff i js)

In-append : (i : ℕ) (is js : List ℕ) → In i (is ++ js) ↔ (In i is ⊎ In i js)
In-append i [] js = ground arith
In-append i (k ∷ is) js = ground (arith, In-append i is js)

-- No index stands twice.
abbrev pub IsUnique : List ℕ → Type 0
IsUnique [] = Unit
IsUnique (i ∷ is) = (has_id i is ≡ false) × IsUnique is

has_id-append : (i : ℕ) (is js : List ℕ) → has_id i (is ++ js) ≡ (has_id i is || has_id i js)
unfolding has_id
has_id-append i [] js = refl
has_id-append i (k ∷ is) js = ground (arith, has_id-append i is js)

IsUnique-concat :
    (is : List ℕ) (i : ℕ) → IsUnique is → has_id i is ≡ false → IsUnique (is ++ i ∷ [])
unfolding has_id
IsUnique-concat [] i h new = (refl, tt)
IsUnique-concat (k ∷ is) i (h, hs) new =
    (ground (arith, has_id-append k is (i ∷ [])), IsUnique-concat is i hs (ground arith))

take_new-members : (is taken : List ℕ) (i : ℕ) → In i (take_new is taken) ↔ (In i is ⊎ In i taken)
unfolding take_new
take_new-members [] taken i = ground arith
take_new-members (k ∷ is) taken i = elim (Bool-cases (has_id k taken)) [
  | inl old ↦
      let member = (has_id_iff k taken).0 old in
      rw old (ground (arith, take_new-members is taken i, member))
  | inr new ↦
      rw new (ground (arith, take_new-members is (taken ++ k ∷ []) i, In-append i taken (k ∷ [])))
]

take_new-IsUnique : (is taken : List ℕ) → IsUnique taken → IsUnique (take_new is taken)
unfolding take_new
take_new-IsUnique [] taken h = h
take_new-IsUnique (k ∷ is) taken h = elim (Bool-cases (has_id k taken)) [
  | inl old ↦ rw old (take_new-IsUnique is taken h)
  | inr new ↦ rw new (take_new-IsUnique is (taken ++ k ∷ []) (IsUnique-concat taken k h new))
]

-- The dynamic symbols are the exported ones, the imported ones and those that a relocation names, each once.
pub dynamic_symbols-once :
    (c : Config)
    → IsUnique (dynamic_symbols c)
      × ((i : ℕ)
          → In i (dynamic_symbols c) ↔ (
              In i (indices_of (λ s. s.defined && s.exported) 0 c.symbols)
              ⊎ (In i (indices_of is_import 0 c.symbols) ⊎ In i c.reloc_symbols)))
unfolding dynamic_symbols
dynamic_symbols-once c =
    let exports = indices_of (λ s. s.defined && s.exported) 0 c.symbols in
    let imports = indices_of is_import 0 c.symbols in
    (
      take_new-IsUnique (exports ++ (imports ++ c.reloc_symbols)) [] tt,
      λ i. ground (
        arith,
        take_new-members (exports ++ (imports ++ c.reloc_symbols)) [] i,
        In-append i exports (imports ++ c.reloc_symbols),
        In-append i imports c.reloc_symbols,
      ),
    )
