-- ===== src/Checker/Callees/Relocations.antt =====
-- What one relocation queues.
use binary_kernel_code_mappi.Prelude.{
  ℕ, ◌+◌, refl, ◌&&◌, not, [], ◌∷◌, Option, none, some, Text, contains, if◌then◌else◌, Bool-cases,
  inl, inr, ok, err,
}
use binary_kernel_code_mappi.Prelude.Int.{ℤ, sub_ℕ, ◌+ℤ◌}
use binary_kernel_code_mappi.Checker.{
  is_undef, is_reserved, is_func, ElfSymbol, Relocation, ElfSection, is_exec, is_named, named_only,
  resolve_func_by_offset, Insn,
}
use binary_kernel_code_mappi.Checker.State
use binary_kernel_code_mappi.Checker.State.{
  Location, TargetDesc, Reason, State, Engine, target_function_missing, queue_func,
  record_unanalyzable, record_static_ref, record_missing_dep, add_got, add_instrumentation,
  add_shim_hit, resolve_symbol_owner, is_instrumentation_symbol,
}
use binary_kernel_code_mappi.Checker.Explain.{
  Function, is_pc_rel, is_absolute, target_name_of, format_target_desc,
}
use binary_kernel_code_mappi.Checker.Insns.{type_error, CheckError, retpoline_like, returns_like}
use binary_kernel_code_mappi.Checker.Scan.{
  note_static_ref, add_branch, queue_by_offset, queue_local, queue_external, scan_pc_rel,
  target_location, target_section, scan_target, scan_reloc,
}
use binary_kernel_code_mappi.Checker.Growth.{
  Effect-same, Effect, Gives, Effect-nil, Effect-append, Effect-queue_func,
  Effect-record_unanalyzable, Effect-add_hard_fail, Gives-ok, Gives-if, Gives-guard, Effect-if,
}
use binary_kernel_code_mappi.Checker.Callees.{
  one_name, offset_callees, addend_callees, local_callees, target_callees, reloc_callees,
}

module _ (e : Engine) (f : Function) where
  queue_by_offset-Effect :
      (instr : Insn) (r : Relocation) (sym : ElfSymbol) (name : Text) (addend : ℤ) (s : State)
      → Effect
          (offset_callees e f instr r sym addend)
          s
          (queue_by_offset e f instr r sym name addend s)
  unfolding queue_by_offset
  queue_by_offset-Effect instr r sym name addend s = go (
      named_only (
        resolve_func_by_offset f.owner_elf sym.st_shndx
          (addend +ℤ sub_ℕ (instr.address + instr.size) r.r_offset)))
    where
      go :
          (o : Option Text)
          → Effect (one_name o) s (elim o [
            | some resolved_func ↦ queue_func resolved_func s
            | none ↦
                record_unanalyzable f.owner_elf f.func_name
                  (target_function_missing name
                    (addend +ℤ sub_ℕ (instr.address + instr.size) r.r_offset))
                  s
          ])
      go none = Effect-record_unanalyzable f.owner_elf f.func_name _ s
      go (some n) = Effect-queue_func n s

  queue_local-Gives :
      (instr : Insn) (r : Relocation) (sym : ElfSymbol) (name : Text) (sec : Option ElfSection)
      (s : State)
      → Gives (local_callees e f instr r sym sec) s (queue_local e f instr r sym name sec s)
  unfolding queue_local
  queue_local-Gives instr r sym name none s =
      Gives-ok _ s _ (Effect-record_unanalyzable f.owner_elf f.func_name _ s)
  queue_local-Gives instr r sym name (some sec) s =
      Gives-if (not (is_exec sec)) (Gives-ok _ s s (Effect-nil s)) (
        Gives-if (is_func sym.st_type && is_named sym.name)
          (Gives-ok _ s _ (Effect-queue_func sym.name s)) (with_addend r.r_addend))
    where
      with_addend :
          (o : Option ℤ)
          → Gives (addend_callees e f instr r sym o) s (elim o [
            | none ↦ err CheckError.key_error
            | some addend ↦ ok (queue_by_offset e f instr r sym name addend s)
          ])
      with_addend none t bad = cc
      with_addend (some addend) t h =
          Gives-ok _ s _ (queue_by_offset-Effect instr r sym name addend s) t h

  queue_external-Effect :
      (location : Location) (name : Text) (s : State)
      → Effect
          (if contains e.shims name then [] else name ∷ [])
          s
          (queue_external e f location name s)
  unfolding queue_external add_shim_hit
  queue_external-Effect location name s =
      Effect-if (contains e.shims name) (Effect-same refl refl refl refl refl)
        (Effect-queue_func name s)

  scan_pc_rel-Gives :
      (k : ℕ) (instr : Insn) (location : Location) (r : Relocation) (sym : ElfSymbol) (name : Text)
      (sec : Option ElfSection) (s : State)
      → Gives
          (target_callees e f instr r sym name sec)
          s
          (scan_pc_rel e f k instr location r sym name sec s)
  unfolding scan_pc_rel add_instrumentation add_branch add_got
  scan_pc_rel-Gives k instr location r sym name sec s =
      Gives-if (is_instrumentation_symbol e name)
        (Gives-ok [] s _ (Effect-same refl refl refl refl refl))
        (Gives-if (retpoline_like name) (Gives-ok [] s _ (Effect-same refl refl refl refl refl)) (
          Gives-if (returns_like name) (Gives-ok [] s s (Effect-nil s)) (
            Gives-if (is_undef sym.st_shndx)
              (Gives-ok _ s _ (queue_external-Effect location name s))
              (queue_local-Gives instr r sym name sec s))))

  note_static_ref-Effect :
      (location : Location) (sec : Option ElfSection) (desc : TargetDesc) (r_type : ℕ) (s : State)
      → Effect [] s (note_static_ref e f location sec desc r_type s)
  unfolding note_static_ref record_static_ref
  note_static_ref-Effect location none desc r_type s = Effect-nil s
  note_static_ref-Effect location (some sec) desc r_type s = elim (Bool-cases (is_exec sec)) [
    | inl code ↦ rw code (Effect-nil s)
    | inr no_code ↦ rw no_code (Effect-same refl refl refl refl refl)
  ]

  scan_target-Gives :
      (k : ℕ) (instr : Insn) (r : Relocation) (sym : ElfSymbol) (s : State)
      → Gives (reloc_callees e f instr r (some sym)) s (scan_target e f k instr r sym s)
  unfolding scan_target
  scan_target-Gives k instr r sym s =
      let name = target_name_of f.owner_elf sym [] in
      let location = target_location e f instr r name in
      let noted =
        note_static_ref-Effect location (target_section e f sym)
          (format_target_desc f.owner_elf sym name r) r.r_info_type s in
      Gives-guard (is_reserved sym.st_shndx) type_error (
        Gives-if (is_absolute r.r_info_type)
          (Gives-ok [] s _ (Effect-append [] [] noted (Effect-add_hard_fail _ _)))
          (Gives-if (is_pc_rel r.r_info_type)
            (λ t h.
              Effect-append [] _ noted
                (scan_pc_rel-Gives k instr location r sym name (target_section e f sym) _ t h))
            (Gives-ok [] s _ noted)))

  pub scan_reloc-Gives :
      (k : ℕ) (instr : Insn) (r : Relocation) (s : State)
      → Gives
          (reloc_callees e f instr r (f.owner_elf.file.symbol_at r.r_info_sym))
          s
          (scan_reloc e f k instr r s)
  unfolding scan_reloc
  scan_reloc-Gives k instr r s = go (f.owner_elf.file.symbol_at r.r_info_sym)
    where
      go :
          (o : Option ElfSymbol)
          → Gives (reloc_callees e f instr r o) s (elim o [
            | none ↦
                ok (
                  record_unanalyzable f.owner_elf f.func_name (State.target_missing r.r_info_sym) s)
            | some target_sym ↦ scan_target e f k instr r target_sym s
          ])
      go none = Gives-ok _ s _ (Effect-record_unanalyzable f.owner_elf f.func_name _ s)
      go (some sym) = scan_target-Gives k instr r sym s
