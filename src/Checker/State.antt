-- ===== src/Checker/State.antt =====
-- The state of `AcademicReuseEngine` and the methods that record a finding. A text that the report prints
-- is kept as the values that it shows.
use binary_kernel_code_mappi.Prelude.{
  ℕ, ◌||◌, Bool, false, List, [], ◌∷◌, ◌++◌, Option, none, some, Text, Dict, codes, contains,
  starts_with, lookup, insert, if◌then◌else◌,
}
use binary_kernel_code_mappi.Prelude.Int.{ℤ}
use binary_kernel_code_mappi.Checker.{ElfSection, ElfObj, Capstone, is_named}

-- The address at which the code runs, where the kernel has the function; else that in the file.
pub data RunAddr : Type 0 where
  runtime : ℤ → RunAddr
  static_addr : ℕ → RunAddr

-- What a relocation refers to: a name and the addend, or the index of a symbol that is missing.
pub data TargetDesc : Type 0 where
  no_target : TargetDesc
  symbol_index : ℕ → TargetDesc
  at_addend : Text → ℤ → TargetDesc

pub record Location : Type 0 where
  pub offset : ℤ
  pub run_addr : RunAddr
  pub asm : Text

pub data Source : Type 0 where
  implicit_rip : Source
  unknown : Text → Source
  backtrack : Text → Location → TargetDesc → List Text → Source

pub data BranchKind : Type 0 where
  blind retpoline : BranchKind

pub data FailKind : Type 0 where
  privileged : FailKind
  absolute : TargetDesc → FailKind

pub data Reason : Type 0 where
  section_missing empty_size slice_out_of_range empty_disassembly : Reason
  target_missing : ℕ → Reason
  target_section_missing : Text → Reason
  target_function_missing : Text → ℤ → Reason

pub record HardFail : Type 0 where
  pub mod_name : Text
  pub func : Text
  pub location : Location
  pub kind : FailKind

pub record StaticRef : Type 0 where
  pub mod_name : Text
  pub func : Text
  pub location : Location
  pub section : Text
  pub section_flags : ℕ
  pub target : TargetDesc
  pub reloc_type : ℕ

pub record GotEntry : Type 0 where
  pub mod_name : Text
  pub func : Text
  pub location : Location
  pub kind : BranchKind
  pub symbol : Text
  pub source_regs : List Text
  pub sources : List Source

pub record Instrumentation : Type 0 where
  pub mod_name : Text
  pub func : Text
  pub location : Location
  pub symbol : Text

pub record ShimHit : Type 0 where
  pub func : Text
  pub location : Location

pub record Unanalyzable : Type 0 where
  pub mod_name : Text
  pub func : Text
  pub reason : Reason

pub record State : Type 0 where
  pub queue : List Text
  pub visited : List Text
  pub static_refs : List StaticRef
  pub manifest_got : List GotEntry
  pub manifest_instrumentation : List Instrumentation
  pub hard_fails : List HardFail
  pub missing_deps : List Text
  pub shim_hits : Dict (List ShimHit)
  pub unanalyzable_funcs : List Unanalyzable
  pub analysis_trace : List (Text × Text)

-- What the engine is built from and never changes.
pub record Engine : Type 0 where
  pub modules : List ElfObj
  pub vmlinux : ElfObj
  pub shims : List Text
  pub inst_prefixes : List Text
  pub live_syms : Dict ℕ
  pub capstone : Capstone

unfoldable pub initial_state : Text → State
initial_state target_func = record {
  queue = target_func ∷ [];
  visited = [];
  static_refs = [];
  manifest_got = [];
  manifest_instrumentation = [];
  hard_fails = [];
  missing_deps = [];
  shim_hits = [];
  unanalyzable_funcs = [];
  analysis_trace = [];
}

-- `missing_deps.add(func_name)`
unfoldable pub record_missing_dep : Text → State → State
record_missing_dep func_name s = record s {
  missing_deps =
      if contains s.missing_deps func_name then s.missing_deps else func_name ∷ s.missing_deps;
}

unfoldable pub record_unanalyzable : ElfObj → Text → Reason → State → State
record_unanalyzable owner_elf func_name reason s = record s {
  unanalyzable_funcs =
      s.unanalyzable_funcs
      ++ record { mod_name = owner_elf.file.name; func = func_name; reason = reason } ∷ [];
}

unfoldable pub record_static_ref :
    ElfObj → Text → Location → ElfSection → TargetDesc → ℕ → State → State
record_static_ref owner_elf func_name location target_sec target reloc_type s = record s {
  static_refs =
      s.static_refs
      ++ record {
        mod_name = owner_elf.file.name;
        func = func_name;
        location = location;
        section = target_sec.name;
        section_flags = target_sec.sh_flags;
        target = target;
        reloc_type = reloc_type;
      }
        ∷ [];
}

unfoldable pub add_hard_fail : HardFail → State → State
add_hard_fail fail s = record s { hard_fails = s.hard_fails ++ fail ∷ [] }

unfoldable pub add_got : GotEntry → State → State
add_got entry s = record s { manifest_got = s.manifest_got ++ entry ∷ [] }

unfoldable pub add_instrumentation : Instrumentation → State → State
add_instrumentation entry s = record s {
  manifest_instrumentation = s.manifest_instrumentation ++ entry ∷ [];
}

hits_of : Option (List ShimHit) → List ShimHit
hits_of none = []
hits_of (some hits) = hits

-- `shim_hits[name].append(hit)`
unfoldable pub add_shim_hit : Text → ShimHit → State → State
unfolding hits_of
add_shim_hit name hit s = record s {
  shim_hits = insert name (hits_of (lookup name s.shim_hits) ++ hit ∷ []) s.shim_hits;
}

unfoldable pub queue_func : Text → State → State
unfolding is_named
queue_func name s =
    if is_named name
    then (if contains s.visited name || contains s.queue name
        then s
        else record s { queue = s.queue ++ name ∷ [] })
    else s

abbrev pub instrumentation_exact : List Text
instrumentation_exact =
    codes "__fentry__"
    ∷ codes "mcount"
    ∷ codes "__stack_chk_fail"
    ∷ codes "__stack_chk_fail_local"
    ∷ []

abbrev pub instrumentation_prefixes : List Text
instrumentation_prefixes =
    codes "__asan_"
    ∷ codes "__ubsan_"
    ∷ codes "__tsan_"
    ∷ codes "__kcfi_"
    ∷ codes "__llvm_profile_"
    ∷ codes "__sanitizer_"
    ∷ []

-- `name.startswith(prefixes)`
unfoldable pub starts_with_any : Text → List Text → Bool
starts_with_any name [] = false
starts_with_any name (p ∷ ps) = starts_with name p || starts_with_any name ps

-- `AcademicReuseEngine.__init__`
unfoldable pub reuse_engine :
    List ElfObj → ElfObj → List Text → List Text → Dict ℕ → Capstone → Engine
reuse_engine modules vmlinux shims extra_inst_prefixes live_syms capstone = record {
  modules = modules;
  vmlinux = vmlinux;
  shims = shims;
  inst_prefixes = instrumentation_prefixes ++ extra_inst_prefixes;
  live_syms = live_syms;
  capstone = capstone;
}

unfoldable pub is_instrumentation_symbol : Engine → Text → Bool
unfolding is_named starts_with_any
is_instrumentation_symbol e name =
    if is_named name
    then contains instrumentation_exact name || starts_with_any name e.inst_prefixes
    else false

-- The first module that defines the name, or else vmlinux.
unfoldable pub first_owner : List ElfObj → Text → Option ElfObj
first_owner [] name = none
first_owner (obj ∷ objs) name = elim (lookup name obj.sym_dict) [
  | some sym ↦ some obj
  | none ↦ first_owner objs name
]

unfoldable pub resolve_symbol_owner : Engine → Text → Option ElfObj
unfolding first_owner
resolve_symbol_owner e name = first_owner (e.modules ++ e.vmlinux ∷ []) name
