-- ===== src/Builder.antt =====
-- make_dll/build_PIC_so.py, class `ManualElfBuilder`: what is given to it, the dynamic symbols that `__init__` collects,
-- `_prepare_symbol_virtual_addresses`, and the content of the text sections in `_build_content_sections`. A symbol
-- object that several lists share is its index in `symbols`.
pub mod Prepared
use binary_kernel_code_mappi.Prelude.{
  ℕ, zero, suc, ◌+◌, ◌-◌, ◌*◌, ◌/◌, ◌%◌, min, Bool, true, false, not, ◌&&◌, ◌||◌, List, [], ◌∷◌,
  ◌++◌, map, Option, none, some, Bytes, Text, codes, length, get_elem?, select, replicate, text_eq,
  starts_with, ltb, leb, ◌==◌, if◌then◌else◌, Result, ok, err, ◌>>=◌, ◌>>◌, raise_if,
}
use binary_kernel_code_mappi.Prelude.Int.{ℤ, pos, sub_ℕ}
use binary_kernel_code_mappi.Align.{page_size, align_down}
use binary_kernel_code_mappi.Symbols.{ResolvedSymbol, is_import, stt_func, stt_object}
use binary_kernel_code_mappi.Thunks.{PageBytes, write_at}
use binary_kernel_code_mappi.Regions.{
  Region, Interval, RegionError, region_size, build_regions, find_region_for_address,
  assign_symbol_sections,
}
use binary_kernel_code_mappi.Placement.{text_base_vaddr}

-- The arguments of `__init__` that the modelled methods read; a relocation's symbol is an index.
pub record Config : Type 0 where
  pub symbols : List ResolvedSymbol
  pub export_stub_size : ℕ
  pub reloc_symbols : List ℕ
  pub extra_text_ranges : List Interval
  pub extra_ro_ranges : List Interval
  pub owner_module_name : Option Text
  pub text_min_override : Option ℕ
  pub synthetic_text_pages : PageBytes

pub data PageError : Type 0 where
  not_page_aligned not_one_page : ℕ → PageError

-- The checks of the synthetic pages.
unfoldable pub check_pages : PageBytes → Result PageError (Unit {0})
check_pages [] = ok tt
check_pages ((page, bytes) ∷ pages) =
    raise_if (not (page % page_size == 0)) (not_page_aligned page)
    >> (raise_if (not (length bytes == page_size)) (not_one_page page) >> check_pages pages)

-- The indices, from `i` on, of the symbols that pass a test.
unfoldable pub indices_of : (ResolvedSymbol → Bool) → ℕ → List ResolvedSymbol → List ℕ
indices_of p i [] = []
indices_of p i (s ∷ ss) = let rest = indices_of p (suc i) ss in if p s then i ∷ rest else rest

unfoldable pub has_id : ℕ → List ℕ → Bool
has_id i [] = false
has_id i (j ∷ js) = j == i || has_id i js

-- The loop with `seen_ids`, which holds the symbols that were taken.
unfoldable pub take_new : List ℕ → List ℕ → List ℕ
unfolding has_id
take_new [] taken = taken
take_new (i ∷ is) taken = take_new is (if has_id i taken then taken else taken ++ i ∷ [])

-- `self.exports + self.imports + reloc_syms`, each symbol once.
unfoldable pub dynamic_symbols : Config → List ℕ
unfolding indices_of take_new
dynamic_symbols c =
    take_new
      (indices_of (λ s. s.defined && s.exported) 0 c.symbols
        ++ (indices_of is_import 0 c.symbols ++ c.reloc_symbols))
      []

-- `keep(sym)`
unfoldable pub keep : Option Text → ResolvedSymbol → Bool
keep none s = true
keep (some owner) s = text_eq s.module_name owner

is_rodata : Option Text → Bool
is_rodata none = false
is_rodata (some kind) = text_eq kind (codes "rodata")

unfoldable pub is_code : Option Text → ResolvedSymbol → Bool
unfolding keep
is_code owner s = s.defined && s.st_type == stt_func && keep owner s

unfoldable pub is_ro : Option Text → ResolvedSymbol → Bool
unfolding keep is_rodata
is_ro owner s =
    s.defined
    && s.st_type == stt_object
    && keep owner s
    && (is_rodata s.reuse_kind || starts_with s.name (codes ".rodata"))

-- A symbol that equals one of `ro_symbols` passes their test itself.
unfoldable pub is_data : Option Text → ResolvedSymbol → Bool
unfolding keep is_ro
is_data owner s = s.defined && s.st_type == stt_object && keep owner s && not (is_ro owner s)

-- The loop that gives sizes and addresses to the defined symbols without them.
unfoldable pub fill_symbols : ℕ → ℕ → List ResolvedSymbol → List ResolvedSymbol
fill_symbols stub cursor [] = []
fill_symbols stub cursor (s ∷ ss) =
    let size = if s.size == 0 then stub else s.size in
    let kept = s ∷ fill_symbols stub cursor ss in
    let placed = record s { size = size } ∷ fill_symbols stub cursor ss in
    let given = record s { size = size; address = cursor } ∷ fill_symbols stub (cursor + stub) ss in
    if not s.defined then kept else if s.address == 0 then given else placed

-- `min(sym.address for sym in …)`
unfoldable pub min_address : List ResolvedSymbol → Option ℕ
min_address [] = none
min_address (s ∷ ss) = elim (min_address ss) [
  | none ↦ some s.address
  | some a ↦ some (min s.address a)
]

unfoldable pub min_start : List Interval → Option ℕ
min_start [] = none
min_start ((start, end) ∷ rs) = elim (min_start rs) [
  | none ↦ some start
  | some a ↦ some (min start a)
]

unfoldable pub min_option : Option ℕ → Option ℕ → Option ℕ
min_option none b = b
min_option (some a) none = some a
min_option (some a) (some b) = some (min a b)

unfoldable pub page_or : Option ℕ → ℕ → ℕ
page_or none d = d
page_or (some a) d = align_down a page_size

-- `self.text_min_page`, from the filled symbols.
unfoldable pub text_min_page : Config → List ResolvedSymbol → ℕ
unfolding page_or min_option min_address min_start is_code
text_min_page c symbols =
    let overall = page_or (min_address (select (λ s. s.defined) symbols)) text_base_vaddr in
    elim c.text_min_override [
      | some override ↦ align_down override page_size
      | none ↦
          page_or
            (min_option (min_address (select (is_code c.owner_module_name) symbols))
              (min_start c.extra_text_ranges))
            overall
    ]

unfoldable pub set_virtual : ℕ → ResolvedSymbol → ResolvedSymbol
set_virtual tmin s =
    if s.defined then record s { virtual_address = sub_ℕ (text_base_vaddr + s.address) tmin } else s

region_name : Option Region → Option Text → Option Text
region_name none old = old
region_name (some r) old = some r.name

-- The section of a symbol, once the regions are known to cover it.
unfoldable pub set_section :
    Option Text → List Region → List Region → ResolvedSymbol → ResolvedSymbol
unfolding is_code is_ro is_data find_region_for_address region_name
set_section owner text ro s =
    if is_code owner s
    then record s {
      section_name = region_name (find_region_for_address s.address text) s.section_name;
    }
    else if is_ro owner s
    then record s {
      section_name = region_name (find_region_for_address s.address ro) s.section_name;
    }
    else if is_data owner s
    then record s { section_name = some (codes ".data") }
    else s

pub record PreparedSymbols : Type 0 where
  pub symbols : List ResolvedSymbol
  pub min_page : ℕ
  pub text_regions : List Region
  pub ro_regions : List Region

-- `_prepare_symbol_virtual_addresses`: the two assignments fail where a region is missing.
unfoldable pub prepare_symbol_virtual_addresses : Config → Result RegionError PreparedSymbols
unfolding fill_symbols text_min_page set_virtual set_section
prepare_symbol_virtual_addresses c = do
  let filled = fill_symbols c.export_stub_size text_base_vaddr c.symbols
  let tmin = text_min_page c filled
  let symbols = map (set_virtual tmin) filled
  let code_symbols = select (is_code c.owner_module_name) symbols
  let ro_symbols = select (is_ro c.owner_module_name) symbols
  let text = build_regions code_symbols (codes ".text") c.extra_text_ranges
  let ro = build_regions ro_symbols (codes ".rodata") c.extra_ro_ranges
  _ ← assign_symbol_sections code_symbols text
  _ ← assign_symbol_sections ro_symbols ro
  ok (record {
    symbols = map (set_section c.owner_module_name text ro) symbols;
    min_page = tmin;
    text_regions = text;
    ro_regions = ro;
  })

region_bytes : Region → Option Bytes → Bytes
region_bytes r none = replicate (region_size r) 0
region_bytes r (some bytes) = bytes

-- The data of a text section: none where no synthetic page lies in its region.
unfoldable pub text_content : Region → PageBytes → Option Bytes → Option Bytes
unfolding region_bytes
text_content r [] content = content
text_content r ((page, bytes) ∷ pages) content =
    if leb r.start page && leb (page + page_size) r.end
    then text_content r pages (some (write_at (region_bytes r content) (page - r.start) bytes))
    else text_content r pages content
