-- ===== src/Lib.antt =====
-- The tools of the repository that map kernel code into a user-space shared object.
-- make_dll/build_PIC_so.py reads a list of requested symbols and the dependency graph that
-- kernel_cgd/src/krg.cpp saved, walks the graph from each requested symbol, takes the symbols that shim.txt
-- names from a shim library, and writes a sparse ELF shared object whose text and read-only pages are later
-- replaced by the kernel's.
--
-- Files, with the code that they model:
--   Prelude.antt, Prelude/: shared helpers. Numbers are native, a str is its code points, bytes are numbers
--   below 256, a dict is an association list in order of insertion, and an exception is a value of a Result.
--   Align.antt: align and align_down (make_dll/build_PIC_so.py). Addresses are Python integers, so they do
--   not wrap.
--   Words.antt: little-endian fields, as struct packs and unpacks them; Words/Utf8.antt: decoding with errors
--   ignored.
--   TextOps.antt: the methods of str that the tools use.
--   Requests.antt: parse_symbol_requests and load_shim_symbols, on the text of the file.
--   Krg.antt: class KrgGraph; Krg/Load.antt: _load, with one error for each ValueError; Krg/Load/Save.antt:
--   the writer, at the end of save in kernel_cgd/src/krg.cpp; Krg/Closure.antt: closure, the walk with its
--   flags and its stack.
--   Symbols.antt: ResolvedSymbol. Thunks.antt: indirect_thunk_register, split_builtin_thunk_shims and
--   build_builtin_thunk_pages.
--   Regions.antt: Region, _build_regions, _assign_symbol_sections and _find_region_for_address of
--   ManualElfBuilder; Regions/Touched.antt describes the pages by addresses.
--   GnuHash.antt: gnu_hash, _reorder_symbols_for_hash and _build_gnu_hash. The look-up of the dynamic loader
--   is stated in GnuHash/Lookup.antt.
--   StringTables.antt: _build_dynstr, _build_strtab and _build_shstrtab.
--   Resolve.antt: resolve_requested_symbols. The dictionary of resolved symbols and the ordered list grow
--   together, so one list stands for both.
--   Placement.antt: _assign_offsets_and_addresses and reusable_page_mappings. A section takes its name,
--   alignment and size to its place; the address of a region is an integer, since a region can lie below the
--   first page of the text.
--   ElfData.antt: the section order, _build_dynsym, _build_symtab and build_relocations;
--   ElfData/Headers.antt: _finalize_dynamic_section, _build_program_headers and _write_elf_header.
--   struct.pack refuses a number that does not fit its field.
--   Ko.antt: class KoFile, the reader of a kernel module, with _load and find_symbol; Ko/CoreLayout.antt:
--   compute_core_layout.
--   Builder.antt: the dynamic symbols of ManualElfBuilder.__init__, _prepare_symbol_virtual_addresses, and
--   the content of the text sections. A symbol object that several lists share is its index in the list of
--   all symbols.
--   Kallsyms.antt: load_kallsyms_owner_hints of kernel_cgd/kerne_type/vkso_gen_types.py, on the lines of
--   /proc/kallsyms; Kallsyms/Lines.antt describes the lines.
--   Checker.antt: functions_checker.py of kernel_cgd/function_checker, with what pyelftools reads from a file
--   and class ELFObj; Checker/Registers.antt: the names of registers and _find_prior_write;
--   Checker/State.antt: the fields of AcademicReuseEngine and the methods that append to them, queue_func
--   among them; Checker/Explain.antt: the descriptions of a finding; Checker/Insns.antt, Checker/Scan.antt
--   and Checker/Loading.antt: _analyze_function; Checker/Analyze.antt: analyze, and the exit code of
--   generate_report. Checker/Callees.antt describes, apart from the analysis, what the code of a function
--   leads to.
--   Btf.antt: the types of kernel_cgd/kerne_type/vkso_gen_types.py, build_index and find_func_proto_id;
--   Btf/Closure.antt: add_type_closure; Btf/Sources.antt: discover_sources_for_func and
--   filter_matches_by_owner_hints; Btf/Requests.antt: the loop of main over the requests, which lists the
--   calls of add_type_closure, with Btf/Requests/Chosen.antt, which describes the choice of a source apart
--   from the filters; Btf/Layouts.antt: the types that main writes, with Btf/Layouts/Types.antt, which
--   describes them apart from their keys; Btf/Render.antt: render_c_decl and render_function_decl.
--   Lkm.antt: make_dll/build_LKM_so.py, which builds the shared object for one loadable module: its records
--   and the names of sections and libraries; Lkm/Targets.antt: lookup_exact_local_symbol,
--   describe_reloc_target and the names that the shim library gives; Lkm/Nodes.antt: the nodes that are
--   resolved, and infer_module_core_base; Lkm/Table.antt: the symbols made for them; Lkm/Emit.antt: the loop
--   that emits the relocations.
--   Tests.antt: the theorems at concrete inputs, and runs of the definitions.
--
-- Fuel: the rounds of analyze run on fuel; each visits a name that was not visited, so that one for each name
-- of a symbol table and one for the target are enough. The fuel of add_type_closure and of render_c_decl is
-- the depth to which Python lets calls nest. The walk of closure runs on fuel node_count. Each round pops a
-- node, and a node is pushed only when its flag is set for the first time, so that many rounds are enough.
--
-- Not modelled: a region that ends before it starts, which the ranges that the tools pass do not give;
-- reading and writing files and the command line, since a model takes the contents of a file; the iteration
-- order of a Python set, on which nothing that is stated depends; and the other tools of the repository.
pub mod Prelude
pub mod Align
pub mod Words
pub mod TextOps
pub mod Requests
pub mod Krg
pub mod Lkm
pub mod Symbols
pub mod Thunks
pub mod Regions
pub mod GnuHash
pub mod StringTables
pub mod Resolve
pub mod Placement
pub mod ElfData
pub mod Ko
pub mod Builder
pub mod Kallsyms
pub mod Tests
pub mod Checker
pub mod Btf
