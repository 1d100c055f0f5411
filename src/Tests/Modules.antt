-- ===== src/Tests/Modules.antt =====
-- The layout of a module with one section of each kind.
use binary_kernel_code_mappi.Prelude.{
  ℕ, ◌-◌, ◌≡◌, refl, [], ◌∷◌, Text, All, codes, length, replicate, text_eq, starts_with, ok,
}
use binary_kernel_code_mappi.Align.{align}
use binary_kernel_code_mappi.Thunks.{write_at}
use binary_kernel_code_mappi.Ko.{KoSection, KoFile, has_flag}
use binary_kernel_code_mappi.Ko.CoreLayout.{KoCoreLayout, compute_core_layout}
use binary_kernel_code_mappi.Ko.Placing.{
  AreSlots, IsAlignment, HasContent, compute_core_layout-images,
}

abbrev section_of : ℕ → Text → ℕ → ℕ → ℕ → KoSection
section_of index name flags offset size = record {
  index = index;
  name = name;
  sh_type = 1;
  sh_flags = flags;
  sh_offset = offset;
  sh_size = size;
  sh_link = 0;
  sh_info = 0;
  sh_addralign = 8;
  sh_entsize = 0;
}

abbrev text_section : KoSection
text_section = section_of 1 (codes ".text") 6 0 2

abbrev ro_section : KoSection
ro_section = section_of 2 (codes ".rodata") 2 2 3

abbrev data_section : KoSection
data_section = section_of 3 (codes ".data") 3 5 1

abbrev small_module : KoFile
small_module = record {
  blob = 10 ∷ 11 ∷ 20 ∷ 21 ∷ 22 ∷ 30 ∷ [];
  sections =
      text_section ∷ ro_section ∷ data_section ∷ section_of 4 (codes ".init.text") 6 0 2 ∷ [];
  sections_by_name = [];
  symbols = [];
  sym_by_name = [];
}

abbrev small_layout : KoCoreLayout
small_layout = record {
  text = record { section = text_section; offset = 0 } ∷ [];
  ro = record { section = ro_section; offset = 0x1000 } ∷ [];
  data_slots = record { section = data_section; offset = 0x2000 } ∷ [];
  text_end = 0x1000;
  ro_end = 0x2000;
  data_end = 0x3000;
  ro_image = write_at (replicate 4096 0) 0 (20 ∷ 21 ∷ 22 ∷ []);
  data_image = write_at (replicate 4096 0) 0 (30 ∷ []);
  relocs = [];
}

-- The section of the module's initialisation has no place.
layout_run : compute_core_layout small_module ≡ ok small_layout
unfolding compute_core_layout has_flag text_eq starts_with align
layout_run = refl

aligned : All IsAlignment small_module.sections
aligned = ((3, refl), ((3, refl), ((3, refl), ((3, refl), tt))))

compute_core_layout-images_example :
    AreSlots 0 small_layout.text small_layout.text_end
    × AreSlots small_layout.text_end small_layout.ro small_layout.ro_end
    × AreSlots small_layout.ro_end small_layout.data_slots small_layout.data_end
    × (length small_layout.ro_image ≡ small_layout.ro_end - small_layout.text_end)
    × (length small_layout.data_image ≡ small_layout.data_end - small_layout.ro_end)
    × All (HasContent small_module.blob small_layout.text_end small_layout.ro_image) small_layout.ro
    × All
        (HasContent small_module.blob small_layout.ro_end small_layout.data_image)
        small_layout.data_slots
compute_core_layout-images_example =
    compute_core_layout-images small_module small_layout aligned layout_run
