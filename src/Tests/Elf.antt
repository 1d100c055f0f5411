-- ===== src/Tests/Elf.antt =====
-- Regions, the hash table and the string tables of two symbols on different pages.
use binary_kernel_code_mappi.Prelude.{
  ℕ, ◌-◌, ◌≤◌, ◌≡◌, ◌↔◌, inl, inr, refl, true, List, [], ◌∷◌, map, some, Text, All, IsDistinct,
  codes, get_elem?, ok, arith,
}
use binary_kernel_code_mappi.Align.{align, align_down}
use binary_kernel_code_mappi.Symbols.{ResolvedSymbol, resolved_symbol, stt_func}
use binary_kernel_code_mappi.Krg.Load.Strings.{IsName}
use binary_kernel_code_mappi.Regions.{Interval, build_regions, assign_symbol_sections, tuple_le}
use binary_kernel_code_mappi.Regions.Touched.{IsTouched}
use binary_kernel_code_mappi.Regions.Merging.{IsCovered, IsSeparated}
use binary_kernel_code_mappi.Regions.Layout.{
  IsPages, bounds, build_regions-layout, AreAssigned, assign_symbol_sections-build_regions,
}
use binary_kernel_code_mappi.Regions.Names.{names, build_regions-names}
use binary_kernel_code_mappi.GnuHash.{
  gnu_hash, gnu_nbuckets, gnu_bloom_size, hash_tables, reorder_symbols_for_hash,
}
use binary_kernel_code_mappi.GnuHash.Lookup.{loader_lookup, names_of, loader_lookup-hash_tables}
use binary_kernel_code_mappi.StringTables.{
  StringTable, DynStr, build_strtab, build_dynstr, build_shstrtab,
}
use binary_kernel_code_mappi.StringTables.Readback.{ReadsAll, build_strtab-readback}
use binary_kernel_code_mappi.StringTables.Needed.{build_dynstr-readback}
use binary_kernel_code_mappi.StringTables.Sections.{build_shstrtab-readback}
use mathlib.Core.Logic.{◌⊎◌}
use mathlib.Core.Bool.{◌&&◌}
use mathlib.Core.Option.{none}
use binary_kernel_code_mappi.Prelude.{select, In}
use binary_kernel_code_mappi.Symbols.{is_import}
use binary_kernel_code_mappi.Placement.{text_base_vaddr}
use binary_kernel_code_mappi.Builder.{
  Config, indices_of, dynamic_symbols, is_code, is_ro, fill_symbols, set_virtual, PreparedSymbols,
  prepare_symbol_virtual_addresses,
}
use binary_kernel_code_mappi.Builder.Prepared.{
  prepare_symbol_virtual_addresses-total, IsUnique, dynamic_symbols-once,
}

abbrev function_of : Text → ℕ → ResolvedSymbol
function_of name address = record (resolved_symbol name (codes "lib") true stt_func) {
  address = address;
  size = 32;
}

abbrev two_functions : List ResolvedSymbol
two_functions = function_of (codes "f") 0x5ff0 ∷ function_of (codes "g") 0x1010 ∷ []

abbrev text_name : Text
text_name = codes ".text"

abbrev one_range : List Interval
one_range = (0x6000, 0x6800) ∷ []

-- The first function crosses a page, and the range lies on the second of its pages.
regions_run :
    build_regions two_functions text_name one_range
    ≡ record { name = codes ".text1"; start = 0x1000; end = 0x2000 }
      ∷ record { name = codes ".text2"; start = 0x5000; end = 0x7000 }
      ∷ []
unfolding build_regions align align_down tuple_le
regions_run = refl

build_regions-layout_example :
    All IsPages (map bounds (build_regions two_functions text_name one_range))
    × IsSeparated (map bounds (build_regions two_functions text_name one_range))
    × ((x : ℕ)
        → IsCovered x (map bounds (build_regions two_functions text_name one_range))
          ↔ IsTouched two_functions one_range x)
build_regions-layout_example =
    build_regions-layout two_functions text_name one_range (omega arith, tt)

assign_symbol_sections-build_regions_example :
    (symbols' : List ResolvedSymbol) × (assign_symbol_sections two_functions
        (build_regions two_functions text_name one_range)
      ≡ ok symbols')
    × AreAssigned (build_regions two_functions text_name one_range) two_functions symbols'
assign_symbol_sections-build_regions_example =
    assign_symbol_sections-build_regions two_functions text_name one_range

build_regions-names_example : IsDistinct (names (build_regions two_functions text_name one_range))
build_regions-names_example = build_regions-names two_functions text_name one_range

-- The published example of the hash function.
hash_run : gnu_hash (codes "printf") ≡ 0x156b2bb8
unfolding gnu_hash
hash_run = refl

loader_lookup-hash_tables_example :
    (j : ℕ) × (loader_lookup 3 1
        (hash_tables 3 1 (reorder_symbols_for_hash 3 two_functions))
        (names_of (reorder_symbols_for_hash 3 two_functions))
        (codes "g")
      ≡ some j)
    × (get_elem? (names_of (reorder_symbols_for_hash 3 two_functions)) (j - 1) ≡ some (codes "g"))
unfolding gnu_nbuckets gnu_bloom_size
loader_lookup-hash_tables_example =
    loader_lookup-hash_tables two_functions (function_of (codes "g") 0x1010) (inr (inl refl))
      (0, refl)

IsName-one : (a : ℕ) → a ≤ 127 → 1 ≤ a → IsName (a ∷ [])
IsName-one a h k = ground arith

two-IsName : All IsName (codes "f" ∷ codes "g" ∷ [])
two-IsName =
    (IsName-one _ (omega arith) (omega arith), (IsName-one _ (omega arith) (omega arith), tt))

one_library : All IsName (codes "m" ∷ [])
one_library = (IsName-one _ (omega arith) (omega arith), tt)

build_strtab-readback_example :
    (t : StringTable) × (build_strtab (codes "f" ∷ codes "g" ∷ []) ≡ ok t)
    × ReadsAll t.offsets t.content (codes "f" ∷ codes "g" ∷ [])
build_strtab-readback_example = build_strtab-readback (codes "f" ∷ codes "g" ∷ []) two-IsName

build_dynstr-readback_example :
    (d : DynStr) × (build_dynstr (codes "f" ∷ codes "g" ∷ []) (codes "m" ∷ []) ≡ ok d)
    × ReadsAll d.table.offsets d.table.content (codes "f" ∷ codes "g" ∷ [])
    × ReadsAll d.needed_offsets d.table.content (codes "m" ∷ [])
build_dynstr-readback_example =
    build_dynstr-readback (codes "f" ∷ codes "g" ∷ []) (codes "m" ∷ []) two-IsName one_library

build_shstrtab-readback_example :
    (t : StringTable) × (build_shstrtab (codes "f" ∷ codes "g" ∷ []) ≡ ok t)
    × ReadsAll t.offsets t.content ([] ∷ codes "f" ∷ codes "g" ∷ [])
build_shstrtab-readback_example = build_shstrtab-readback (codes "f" ∷ codes "g" ∷ []) two-IsName

abbrev small_config : Config
small_config = record {
  symbols = two_functions;
  export_stub_size = 16;
  reloc_symbols = 1 ∷ [];
  extra_text_ranges = one_range;
  extra_ro_ranges = [];
  owner_module_name = none;
  text_min_override = none;
  synthetic_text_pages = [];
}

prepare_symbol_virtual_addresses-total_example :
    (p : PreparedSymbols) × (prepare_symbol_virtual_addresses small_config ≡ ok p)
    × (let symbols = map (set_virtual p.min_page) (fill_symbols 16 text_base_vaddr two_functions) in
        (p.text_regions ≡ build_regions (select (is_code none) symbols) (codes ".text") one_range)
        × (p.ro_regions ≡ build_regions (select (is_ro none) symbols) (codes ".rodata") []))
prepare_symbol_virtual_addresses-total_example = prepare_symbol_virtual_addresses-total small_config

dynamic_symbols-once_example :
    IsUnique (dynamic_symbols small_config)
    × ((i : ℕ)
        → In i (dynamic_symbols small_config) ↔ (
            In i (indices_of (λ s. s.defined && s.exported) 0 two_functions)
            ⊎ (In i (indices_of is_import 0 two_functions) ⊎ In i (1 ∷ []))))
dynamic_symbols-once_example = dynamic_symbols-once small_config
