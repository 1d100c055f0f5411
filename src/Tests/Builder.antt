-- ===== src/Tests/Builder.antt =====
-- The resolver, the places, the page map and the packed records, on small inputs.
use binary_kernel_code_mappi.Prelude.{
  ℕ, ◌+◌, ◌*◌, ◌≤◌, ◌≡◌, refl, inl, inr, true, false, List, [], ◌∷◌, ◌++◌, some, none, Bytes, Text,
  All, IsDistinct, codes, length, replicate, text_eq, contains, lookup, insert, ok,
}
use binary_kernel_code_mappi.Prelude.Int.{pos, negsuc}
use binary_kernel_code_mappi.TextOps.{ends_with}
use binary_kernel_code_mappi.Words.{to_le}
use binary_kernel_code_mappi.Krg.{KrgGraph, KrgResolvedSymbol, kernel, find}
use binary_kernel_code_mappi.Krg.Closure.{closure, is_stopped, expand, scan_edges}
use binary_kernel_code_mappi.Symbols.{ResolvedSymbol, resolved_symbol, lib_shim, stt_func}
use binary_kernel_code_mappi.Resolve.{
  Resolution, resolved_names, dependency_shim_symbols, resolve_requested_symbols,
}
use binary_kernel_code_mappi.Resolve.Symbols.{IsOf, resolve_requested_symbols-symbols}
use binary_kernel_code_mappi.Regions.{Region}
use binary_kernel_code_mappi.Thunks.{has_page}
use binary_kernel_code_mappi.Placement.{
  Placed, Content, Mapping, text_base_offset, assign_offsets_and_addresses, reusable_page_mappings,
}
use binary_kernel_code_mappi.Placement.Layout.{
  IsLaidOut, IsOnPage, IsCongruent, all_places, assign_offsets_and_addresses-laid,
}
use binary_kernel_code_mappi.Placement.Mappings.{
  IsOneToOne, IsReusable, reusable_page_mappings-IsOneToOne,
}
use binary_kernel_code_mappi.ElfData.{
  sym_entry, shn_undef, build_symbol_table, DataRelocation, build_relocations, pack_records,
}
use binary_kernel_code_mappi.ElfData.Headers.{
  needed_entries, DynamicTargets, dynamic_entries, dynamic_records, finalize_dynamic_section,
}
use binary_kernel_code_mappi.ElfData.Records.{Reads, ReadsTable}
use binary_kernel_code_mappi.ElfData.Entries.{
  ReadsSymbols, ReadsRelocations, build_symbol_table-readback, build_relocations-readback,
  finalize_dynamic_section-fits,
}

abbrev node_at : Text → ℕ → KrgResolvedSymbol
node_at name address = record {
  name = name;
  address = address;
  size = 16;
  kind = 0;
  module_id = 0;
  module_name = kernel;
}

-- `a` calls `p`, which the shim library has.
abbrev shimmed : KrgGraph
shimmed = record {
  nodes = node_at (codes "a") 16 ∷ node_at (codes "p") 32 ∷ [];
  name_to_id = (codes "a", 0) ∷ (codes "p", 1) ∷ [];
  node_count = 2;
  row_ptr = 0 ∷ 1 ∷ 1 ∷ [];
  col_idx = 1 ∷ [];
  modules = kernel ∷ [];
}

abbrev resolution : Resolution
resolution = record {
  ordered =
      record (resolved_symbol (codes "a") (codes "libkernel.so") true stt_func) {
        exported = true;
        size = 16;
        address = 16;
      }
      ∷ record (resolved_symbol (codes "p") (codes "libkernel.so") false stt_func) {
        size = 16;
        address = 32;
        export_order = 1;
        original_order = 1;
        module_name = codes "shim";
      }
      ∷ [];
  needed_libs = lib_shim ∷ [];
  owner_module = kernel;
  owner_lib = codes "libkernel.so";
  dep_modules = codes "shim" ∷ [];
}

resolve_run : resolve_requested_symbols (codes "a" ∷ []) shimmed (codes "p" ∷ []) ≡ ok resolution
unfolding resolve_requested_symbols find lookup text_eq contains closure expand is_stopped
    scan_edges ends_with insert
resolve_run = refl

resolve_requested_symbols-symbols_example :
    IsDistinct (resolved_names resolution.ordered)
    × All
        (IsOf shimmed
          (codes "a" ∷ [])
          (dependency_shim_symbols (codes "a" ∷ []) (codes "p" ∷ []))
          resolution.owner_module)
        resolution.ordered
resolve_requested_symbols-symbols_example =
    resolve_requested_symbols-symbols (codes "a" ∷ []) shimmed (codes "p" ∷ []) resolution
      resolve_run

abbrev region_of : Text → ℕ → ℕ → Region
region_of name start end = record { name = name; start = start; end = end }

abbrev text_regions : List Region
text_regions = region_of (codes ".text") 0x5000 0x7000 ∷ []

abbrev ro_regions : List Region
ro_regions = region_of (codes ".rodata") 0x9000 0xa000 ∷ []

abbrev data_and_strings : List Content
data_and_strings =
    record { name = codes ".data"; alignment = 8; content_size = 20 }
    ∷ record { name = codes ".dynstr"; alignment = 1; content_size = 5 }
    ∷ []

abbrev symbol_names : List Content
symbol_names = record { name = codes ".strtab"; alignment = 1; content_size = 9 } ∷ []

assign_offsets_and_addresses-laid_example :
    (let p =
        assign_offsets_and_addresses 0x5000 none text_regions ro_regions data_and_strings
          symbol_names in
      IsLaidOut text_base_offset (all_places p) p.section_headers_offset
      × All IsOnPage p.text
      × All IsOnPage p.rodata
      × All IsCongruent p.rw)
assign_offsets_and_addresses-laid_example =
    assign_offsets_and_addresses-laid 0x5000 none text_regions ro_regions data_and_strings
      symbol_names (inr refl, (inl refl, tt)) (inl refl, tt)

abbrev placed : Placed
placed = record {
  text = record { name = codes ".text"; offset = 0x1000; addr = pos 0x1000; size = 0x2000 } ∷ [];
  rodata =
      record { name = codes ".rodata"; offset = 0x3000; addr = pos 0x5000; size = 0x1000 } ∷ [];
  rw = [];
  rest = [];
  rw_segment_start = (0, pos 0);
  rw_segment_file_end = 0x4000;
  rw_segment_mem_end = 0x6000;
  section_headers_offset = 0x4000;
}

abbrev page_map : List Mapping
page_map =
    record {
      file_offset = 0x1000;
      kernel_vaddr = 0x5000;
      kind = codes "text";
      section = codes ".text";
    }
    ∷ record {
      file_offset = 0x3000;
      kernel_vaddr = 0x9000;
      kind = codes "rodata";
      section = codes ".rodata";
    }
    ∷ []

-- The second page of the text is synthetic, and is not mapped.
mappings_run :
    reusable_page_mappings ((0x6000, []) ∷ []) placed text_regions ro_regions ≡ ok page_map
unfolding reusable_page_mappings has_page
mappings_run = refl

reusable_page_mappings-IsOneToOne_example :
    IsOneToOne page_map × All (IsReusable ((0x6000, []) ∷ [])) page_map
reusable_page_mappings-IsOneToOne_example =
    reusable_page_mappings-IsOneToOne ((0x6000, []) ∷ []) placed text_regions ro_regions page_map
      mappings_run

abbrev exported_f : ResolvedSymbol
exported_f = record (resolved_symbol (codes "f") (codes "lib") true stt_func) {
  size = 32;
  virtual_address = pos 0x1ff0;
  section_name = some (codes ".text");
}

abbrev symtab_bytes : Bytes
symtab_bytes =
    replicate 24 0
    ++ 1 ∷ 0 ∷ 0 ∷ 0 ∷ 0x12 ∷ 0 ∷ 1 ∷ 0 ∷ 0xf0 ∷ 0x1f ∷ 0 ∷ 0 ∷ 0 ∷ 0 ∷ 0 ∷ 0 ∷ 0x20 ∷ 0 ∷ 0 ∷ 0 ∷ 0
      ∷ 0 ∷ 0 ∷ 0 ∷ []

symtab_run :
    build_symbol_table ((codes "f", 1) ∷ []) ((codes ".text", 1) ∷ []) (exported_f ∷ [])
    ≡ ok symtab_bytes
unfolding build_symbol_table lookup text_eq to_le
symtab_run = refl

build_symbol_table-readback_example :
    (length symtab_bytes ≡ 24 * (1 + 1))
    × Reads symtab_bytes 0 (sym_entry 0 0 shn_undef 0 0)
    × ReadsSymbols ((codes "f", 1) ∷ []) ((codes ".text", 1) ∷ []) symtab_bytes 24 (exported_f ∷ [])
build_symbol_table-readback_example =
    build_symbol_table-readback ((codes "f", 1) ∷ []) ((codes ".text", 1) ∷ []) (exported_f ∷ [])
      symtab_bytes symtab_run

abbrev one_relocation : DataRelocation
one_relocation = record { offset = 8; dynsym_index = some 3; addend = negsuc 0; r_type = 1 }

abbrev rela_bytes : Bytes
rela_bytes = 8 ∷ 0x40 ∷ 0 ∷ 0 ∷ 0 ∷ 0 ∷ 0 ∷ 0 ∷ 1 ∷ 0 ∷ 0 ∷ 0 ∷ 3 ∷ 0 ∷ 0 ∷ 0 ∷ replicate 8 0xff

rela_run : build_relocations 0x4000 (one_relocation ∷ []) ≡ ok rela_bytes
unfolding build_relocations to_le
rela_run = refl

build_relocations-readback_example :
    (length rela_bytes ≡ 24 * 1) × ReadsRelocations 0x4000 rela_bytes 0 (one_relocation ∷ [])
build_relocations-readback_example =
    build_relocations-readback 0x4000 (one_relocation ∷ []) rela_bytes rela_run

abbrev targets : DynamicTargets
targets = record {
  gnu_hash_addr = 3;
  dynstr_addr = 4;
  dynsym_addr = 5;
  rela_addr = 0;
  rela_size = 0;
  dynstr_size = 6;
}

abbrev dynamic_bytes : Bytes
dynamic_bytes =
    1 ∷ replicate 7 0
    ++ 2 ∷ replicate 7 0
    ++ 0xf5 ∷ 0xfe ∷ 0xff ∷ 0x6f ∷ replicate 4 0
    ++ 3 ∷ replicate 7 0
    ++ 5 ∷ replicate 7 0
    ++ 4 ∷ replicate 7 0
    ++ 6 ∷ replicate 7 0
    ++ 5 ∷ replicate 7 0
    ++ 10 ∷ replicate 7 0
    ++ 6 ∷ replicate 7 0
    ++ 11 ∷ replicate 7 0
    ++ 24 ∷ replicate 7 0
    ++ replicate 16 0

dynamic_run :
    finalize_dynamic_section ((codes "m", 2) ∷ []) (codes "m" ∷ []) targets ≡ ok dynamic_bytes
unfolding finalize_dynamic_section lookup text_eq pack_records to_le
dynamic_run = refl

finalize_dynamic_section-fits_example :
    (needed : List (ℕ × ℕ)) × (needed_entries ((codes "m", 2) ∷ []) (codes "m" ∷ []) ≡ ok needed)
    × ReadsTable dynamic_bytes 16 0 (dynamic_records (dynamic_entries needed targets))
    × (length dynamic_bytes ≤ (1 + 10) * 16)
finalize_dynamic_section-fits_example =
    finalize_dynamic_section-fits ((codes "m", 2) ∷ []) (codes "m" ∷ []) targets dynamic_bytes
      dynamic_run
