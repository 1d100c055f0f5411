-- ===== src/Tests/Lkm.antt =====
-- A module with one function, one table that points at it, and one name that it takes from the shim library.
use binary_kernel_code_mappi.Prelude.{
  ℕ, ◌≡◌, ◌↔◌, ◌⊎◌, inl, inr, refl, true, false, List, [], ◌∷◌, ◌++◌, some, Text, codes, text_eq,
  text_eq_iff, starts_with, contains, lookup, insert, In, replicate, ok, Bool-cases,
}
use binary_kernel_code_mappi.Prelude.Int.{pos, ◌+ℤ◌}
use binary_kernel_code_mappi.TextOps.{ends_with}
use binary_kernel_code_mappi.Krg.{KrgResolvedSymbol, KrgGraph, find}
use binary_kernel_code_mappi.Ko.{
  KoSection, KoSymbol, KoFile, has_flag, is_undef, symbol_type, find_symbol,
}
use binary_kernel_code_mappi.Ko.CoreLayout.{KoDataReloc, KoCoreLayout, offset_in}
use binary_kernel_code_mappi.Lkm.{LkmNode, LkmSymbol, hex, is_core_exec}
use binary_kernel_code_mappi.Words.{field}
use binary_kernel_code_mappi.Lkm.Targets.{
  exec_reloc_targets, pointed_names, shim_targets, sections_names,
}
use binary_kernel_code_mappi.Lkm.ExecTargets.{IsExecTarget}
use binary_kernel_code_mappi.Lkm.Shims.{RefersTo, shim_targets-In}
use binary_kernel_code_mappi.Lkm.Nodes.{Setting, anchor_of, infer_module_core_base}
use binary_kernel_code_mappi.Lkm.Table.{Table, fresh_table, node_symbols}
use binary_kernel_code_mappi.Lkm.Anchor.{IsInferred, infer_module_core_base-IsInferred}
use binary_kernel_code_mappi.Lkm.Emit.{LkmReloc, emit_all}
use binary_kernel_code_mappi.Lkm.Emit.Rounds.{FindsNames, IsIndexed}
use binary_kernel_code_mappi.Lkm.Emit.Emitted.{Emits, emit_all-relocations}

abbrev owner : Text
owner = codes "/lib/m.ko"

abbrev section_of : ℕ → Text → ℕ → ℕ → ℕ → KoSection
section_of index name type flags info = record {
  index = index;
  name = name;
  sh_type = type;
  sh_flags = flags;
  sh_offset = 0;
  sh_size = 24;
  sh_link = 0;
  sh_info = info;
  sh_addralign = 8;
  sh_entsize = 24;
}

abbrev text_section : KoSection
text_section = section_of 1 (codes ".text") 1 6 0

abbrev data_section : KoSection
data_section = section_of 2 (codes ".data") 1 3 0

abbrev symbol_at : Text → ℕ → ℕ → ℕ → KoSymbol
symbol_at name info shndx value = record {
  name = name;
  st_info = info;
  st_other = 0;
  st_shndx = shndx;
  st_value = value;
  st_size = 4;
}

-- The one relocation of the text names `printk`.
abbrev one_module : KoFile
one_module = record {
  blob = replicate 12 0 ++ 1 ∷ replicate 11 0;
  sections =
      section_of 0 [] 0 0 0
      ∷ text_section
      ∷ data_section
      ∷ section_of 3 (codes ".rela.text") 4 0 1
      ∷ [];
  sections_by_name = [];
  symbols =
      symbol_at [] 0 0 0 ∷ symbol_at (codes "printk") 16 0 0 ∷ symbol_at (codes "run") 18 1 8 ∷ [];
  sym_by_name = (codes "printk", 1) ∷ (codes "run", 2) ∷ [];
}

abbrev reloc_to : ℕ → Text → ℕ → KoDataReloc
reloc_to offset name shndx = record {
  offset = offset;
  sym_idx = 2;
  symbol_name = name;
  sym_shndx = shndx;
  sym_value = 0;
  addend = pos 8;
  r_type = 1;
  undef = false;
}

abbrev to_kfree : KoDataReloc
to_kfree = record (reloc_to 0 (codes "kfree") 0) { undef = true }

-- The third relocation has its target in the relocations of the text, which have no place.
abbrev relocs : List KoDataReloc
relocs = to_kfree ∷ reloc_to 8 (codes "run") 1 ∷ reloc_to 16 [] 3 ∷ []

abbrev one_layout : KoCoreLayout
one_layout = record {
  text = record { section = text_section; offset = 0 } ∷ [];
  ro = [];
  data_slots = record { section = data_section; offset = 0x1000 } ∷ [];
  text_end = 0x1000;
  ro_end = 0x1000;
  data_end = 0x2000;
  ro_image = [];
  data_image = [];
  relocs = relocs;
}

abbrev shims : List Text
shims = codes "printk" ∷ codes "kfree" ∷ codes "run" ∷ []

exec_run : exec_reloc_targets one_module ≡ ok (codes "printk" ∷ [])
unfolding sections_names has_flag starts_with text_eq is_undef is_core_exec field
exec_run = refl

-- The text calls `printk`, and `run` is requested and pointed at.
shim_run :
    shim_targets shims (codes "run" ∷ []) (pointed_names one_module relocs) (codes "printk" ∷ [])
    ≡ codes "kfree" ∷ codes "kfree" ∷ codes "run" ∷ []
unfolding shim_targets contains text_eq pointed_names ◌+ℤ◌ is_undef symbol_type has_flag hex
shim_run = refl

shim_targets-In_example :
    In (codes "kfree") (
      shim_targets shims (codes "run" ∷ []) (pointed_names one_module relocs) (codes "printk" ∷ []))
    ↔ (In (codes "kfree") shims
        × ¬ (
            (sec : KoSection) × In sec one_module.sections
            × IsExecTarget one_module (codes "kfree") sec)
        × (¬ In (codes "kfree") (codes "run" ∷ [])
            ⊎ ((r : KoDataReloc) × In r relocs × RefersTo one_module (codes "kfree") r)))
shim_targets-In_example =
    shim_targets-In one_module shims (codes "run" ∷ []) (codes "printk" ∷ []) relocs exec_run
      (codes "kfree")

abbrev run_node : LkmNode
run_node = record {
  name = codes "run";
  address = pos 0x5008;
  size = 4;
  kind = 0;
  module_name = owner;
}

base_run : infer_module_core_base one_module one_layout owner (run_node ∷ []) ≡ ok (pos 0x5000)
unfolding infer_module_core_base anchor_of find_symbol lookup text_eq is_undef offset_in ◌+ℤ◌
base_run = refl

infer_module_core_base-IsInferred_example :
    IsInferred one_module one_layout owner
      (run_node ∷ [])
      (infer_module_core_base one_module one_layout owner (run_node ∷ []))
infer_module_core_base-IsInferred_example =
    infer_module_core_base-IsInferred one_module one_layout owner (run_node ∷ [])

abbrev kfree_node : KrgResolvedSymbol
kfree_node = record {
  name = codes "kfree";
  address = 0x9000;
  size = 16;
  kind = 0;
  module_id = 0;
  module_name = codes "kernel";
}

abbrev one_graph : KrgGraph
one_graph = record {
  nodes = kfree_node ∷ [];
  name_to_id = (codes "kfree", 0) ∷ [];
  node_count = 1;
  row_ptr = 0 ∷ 0 ∷ [];
  col_idx = [];
  modules = codes "kernel" ∷ [];
}

abbrev setting : Setting
setting = record {
  ko = one_module;
  graph = one_graph;
  layout = one_layout;
  requested = codes "run" ∷ [];
  shim_targets = codes "kfree" ∷ [];
  shim_label = codes "libshim.so";
  owner = owner;
  base = pos 0x5000;
}

abbrev run_symbol : LkmSymbol
run_symbol = record {
  name = codes "run";
  source = codes "libm.so";
  defined = true;
  exported = true;
  st_type = 2;
  size = 4;
  address = pos 0x5008;
  export_order = 0;
  original_order = 0;
  module_id = 0;
  module_name = owner;
}

abbrev node_table : Table
node_table = record { symbols = run_symbol ∷ []; by_name = (codes "run", 0) ∷ []; needed_libs = [] }

abbrev last_table : Table
last_table = record {
  symbols =
      run_symbol
      ∷ record {
        name = codes "kfree";
        source = codes "libshim.so";
        defined = false;
        exported = false;
        st_type = 2;
        size = 16;
        address = pos 0;
        export_order = 1;
        original_order = 1;
        module_id = 0;
        module_name = codes "libshim.so";
      }
      ∷ [];
  by_name = (codes "run", 0) ∷ (codes "kfree", 1) ∷ [];
  needed_libs = codes "libshim.so" ∷ [];
}

abbrev emitted : List LkmReloc
emitted =
    record { offset = 0; symbol = 1; addend = pos 8; r_type = 1 }
    ∷ record { offset = 8; symbol = 0; addend = pos 0; r_type = 1 }
    ∷ []

nodes_run : node_symbols setting (run_node ∷ []) fresh_table ≡ ok node_table
unfolding node_symbols contains text_eq insert lookup ends_with
nodes_run = refl

emit_run : emit_all setting relocs node_table ≡ ok (emitted, last_table)
unfolding emit_all contains text_eq insert lookup find starts_with ends_with offset_in has_flag
    is_undef symbol_type ◌+ℤ◌ hex
emit_run = refl

one_graph-FindsNames : FindsNames one_graph
unfolding find lookup text_eq
one_graph-FindsNames name node h = elim (Bool-cases (text_eq (codes "kfree") name)) [
  | inr other ↦ (let bad = rw other at h in cc)
  | inl same ↦
      let it : some kfree_node ≡ some node = rw same at h in
      let is_named = (text_eq_iff (codes "kfree") name).0 same in cc
]

emit_all-relocations_example :
    IsIndexed last_table
    × ((more : List LkmSymbol) × (last_table.symbols ≡ node_table.symbols ++ more))
    × Emits setting last_table.symbols relocs emitted
emit_all-relocations_example =
    emit_all-relocations setting (run_node ∷ []) relocs node_table last_table emitted
      one_graph-FindsNames nodes_run emit_run
