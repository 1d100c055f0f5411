-- ===== src/Checker/Cleanliness.antt =====
-- What it means that the code of a function is clean, and that code without findings is.
use binary_kernel_code_mappi.Prelude.{
  ℕ, suc, ◌≡◌, ◌≢◌, refl, sym, ap, ◌∙◌, Bool, if◌then◌else◌, true, false, List, [], ◌∷◌, some, Text,
  All, contains, lookup, Bool-cases, Option-cases, List-cases, inl, inr, Result, ok, err, >>=-eq-ok,
}
use binary_kernel_code_mappi.Checker.{is_reserved, ElfSymbol, Relocation, ElfObj, Insn, get_symbol}
use binary_kernel_code_mappi.Checker.State.{
  State, Engine, HardFail, Reason, record_unanalyzable, record_missing_dep, add_hard_fail,
  first_owner, resolve_symbol_owner,
}
use binary_kernel_code_mappi.Checker.Explain.{
  Function, find_relocation_for_instruction, is_absolute,
}
use binary_kernel_code_mappi.Checker.FirstReloc.{IsFirstReloc, IsFirstReloc-found}
use binary_kernel_code_mappi.Checker.Insns.{type_error, CheckError, is_privileged}
use binary_kernel_code_mappi.Checker.Scan.{
  fail_privileged, scan_target, scan_reloc, scan_insn, scan_from, scan_function,
}
use binary_kernel_code_mappi.Checker.Loading.{load_function}
use binary_kernel_code_mappi.Checker.Analyze.{analyze_function, analyze_name}
use binary_kernel_code_mappi.Checker.Growth.{append-ne-nil, Effect}
use binary_kernel_code_mappi.Checker.Callees.Queueing.{scan_from-Gives}
use binary_kernel_code_mappi.Checker.Rounds.{visit}

guard-ok :
    (b : Bool) (error : CheckError) (t : State) {x : Result CheckError State}
    → (if b then err error else x) ≡ ok t
    → x ≡ ok t
guard-ok true error t h = cc
guard-ok false error t h = h

abbrev pub NoFindings : State → Type 0
NoFindings t = (t.hard_fails ≡ []) × (t.missing_deps ≡ []) × (t.unanalyzable_funcs ≡ [])

-- The target of a relocation is known, and is not referred to by an absolute address.
abbrev pub IsCleanReloc : Function → Relocation → Type 0
IsCleanReloc f r =
    (is_absolute r.r_info_type ≡ false)
    × ((target : ElfSymbol) × (f.owner_elf.file.symbol_at r.r_info_sym ≡ some target))

abbrev pub IsCleanInsn : Engine → Function → Insn → Type 0
IsCleanInsn e f instr =
    (is_privileged e.capstone instr ≡ false)
    × ((r : Relocation) → IsFirstReloc f.relocs instr r → IsCleanReloc f r)

-- A loaded file has the function, its code disassembles to some instructions, and each of them is clean.
pub record IsClean (e : Engine) (name : Text) : Type 0 where
  pub owner : ElfObj
  pub symbol : ElfSymbol
  pub function : Function
  pub owned : resolve_symbol_owner e name ≡ some owner
  pub defined : get_symbol owner name ≡ some symbol
  pub loaded : load_function e name owner symbol ≡ ok function
  pub nonempty : function.instructions ≢ []
  pub clean : All (IsCleanInsn e function) function.instructions

pub Effect-NoFindings : (ns : List Text) {s t : State} → Effect ns s t → NoFindings t → NoFindings s
Effect-NoFindings ns eff (fails, missing, unanalyzable) =
    (eff.fails fails, eff.missing missing, eff.unanalyzable unanalyzable)

-- A finding that was added last.
failed :
    (fail : HardFail) (s t : State)
    → ◌≡◌ {A = Result CheckError State} (ok (add_hard_fail fail s)) (ok t)
    → t.hard_fails ≢ []
unfolding add_hard_fail
failed fail s t h none_left =
    let last : add_hard_fail fail s ≡ t = cc in
    append-ne-nil s.hard_fails fail (ap (λ u. u.hard_fails) last ∙ none_left)

recorded :
    (obj : ElfObj) (name : Text) (reason : Reason) (s t : State)
    → ◌≡◌ {A = Result CheckError State} (ok (record_unanalyzable obj name reason s)) (ok t)
    → t.unanalyzable_funcs ≢ []
unfolding record_unanalyzable
recorded obj name reason s t h none_left =
    let last : record_unanalyzable obj name reason s ≡ t = cc in
    append-ne-nil s.unanalyzable_funcs _ (ap (λ u. u.unanalyzable_funcs) last ∙ none_left)

module _ (e : Engine) (f : Function) where
  scan_target-clean :
      (k : ℕ) (instr : Insn) (r : Relocation) (target : ElfSymbol) (s t : State)
      → scan_target e f k instr r target s ≡ ok t
      → NoFindings t
      → is_absolute r.r_info_type ≡ false
  unfolding scan_target
  scan_target-clean k instr r target s t h (fails, _, _) =
      elim (Bool-cases (is_absolute r.r_info_type)) [
        | inr relative ↦ relative
        | inl absolute ↦ absurd (
            failed _ _ t (rw absolute at (guard-ok (is_reserved target.st_shndx) type_error t h))
              fails)
      ]

  scan_reloc-clean :
      (k : ℕ) (instr : Insn) (r : Relocation) (s t : State)
      → scan_reloc e f k instr r s ≡ ok t
      → NoFindings t
      → IsCleanReloc f r
  unfolding scan_reloc
  scan_reloc-clean k instr r s t h findings =
      elim (Option-cases (f.owner_elf.file.symbol_at r.r_info_sym)) [
        | inr (target, at) ↦ (
          scan_target-clean k instr r target s t (rw (at, scan_reloc) at h) findings,
          (target, at),
        )
        | inl missing ↦ absurd (recorded _ _ _ _ t (rw (missing, scan_reloc) at h) findings.2)
      ]

  scan_insn-clean :
      (k : ℕ) (instr : Insn) (s t : State)
      → scan_insn e f k instr s ≡ ok t
      → NoFindings t
      → (r : Relocation) → find_relocation_for_instruction f.relocs instr ≡ some r
      → IsCleanReloc f r
  unfolding scan_insn
  scan_insn-clean k instr s t h findings r found =
      scan_reloc-clean k instr r s t (rw (found, scan_insn) at h) findings

  scan_from-clean :
      (k : ℕ) (instrs : List Insn) (s t : State)
      → scan_from e f k instrs s ≡ ok t
      → NoFindings t
      → All (IsCleanInsn e f) instrs
  unfolding scan_from fail_privileged
  scan_from-clean k [] s t h findings = tt
  scan_from-clean k (instr ∷ instrs) s t h findings =
      elim (Bool-cases (is_privileged e.capstone instr)) [
        | inl bad ↦ absurd (failed _ _ t (rw (bad, scan_from) at h) findings.0)
        | inr good ↦
            let (u, before, after) =
              >>=-eq-ok (scan_insn e f k instr s) (λ v. scan_from e f (suc k) instrs v)
                (rw (good, scan_from) at h) in
            let kept =
              Effect-NoFindings _ (scan_from-Gives e f (suc k) instrs u t after) findings in
            (
              (
                good,
                λ r first.
                    scan_insn-clean k instr s u before kept r
                      (IsFirstReloc-found f.relocs instr r first),
              ),
              scan_from-clean (suc k) instrs u t after findings,
            )
      ]

  scan_function-clean :
      (s t : State)
      → scan_function e f s ≡ ok t
      → NoFindings t
      → (f.instructions ≢ []) × All (IsCleanInsn e f) f.instructions
  unfolding scan_function
  scan_function-clean s t h findings = elim (List-cases f.instructions) [
    | inl empty ↦ absurd (recorded _ _ _ _ t (rw (empty, scan_function) at h) findings.2)
    | inr (instr, instrs, some_code) ↦ (
      (λ empty. let bad : instr ∷ instrs ≡ [] = sym some_code ∙ empty in cc),
      rw some_code
          (scan_from-clean 0 (instr ∷ instrs) s t (rw (some_code, scan_function) at h) findings),
    )
  ]

analyze_function-IsClean :
    (e : Engine) (name : Text) (owner : ElfObj) (symbol : ElfSymbol) (s t : State)
    → resolve_symbol_owner e name ≡ some owner
    → get_symbol owner name ≡ some symbol
    → analyze_function e name owner s ≡ ok t
    → NoFindings t
    → IsClean e name
unfolding analyze_function
analyze_function-IsClean e name owner symbol s t owned defined h findings =
    go (load_function e name owner symbol) refl
      (guard-ok (is_reserved symbol.st_shndx) type_error t (rw (defined, analyze_function) at h))
  where
    go :
        (r : Result Reason Function)
        → load_function e name owner symbol ≡ r
        → elim r as (λ _. Result CheckError State) [
          | err reason ↦ ok (record_unanalyzable owner name reason s)
          | ok f ↦ scan_function e f s
        ]
          ≡ ok t
        → IsClean e name
    go (err reason) loaded last = absurd (recorded _ _ _ _ t last findings.2)
    go (ok f) loaded last =
        let (nonempty, clean) = scan_function-clean e f s t last findings in
        record {
          owner = owner;
          symbol = symbol;
          function = f;
          owned = owned;
          defined = defined;
          loaded = loaded;
          nonempty = nonempty;
          clean = clean;
        }

record_missing_dep-ne-nil :
    (name : Text) (s : State) → (record_missing_dep name s).missing_deps ≢ []
unfolding record_missing_dep contains
record_missing_dep-ne-nil name s h = elim (Bool-cases (contains s.missing_deps name)) [
  | inl old ↦
      let none_left : s.missing_deps ≡ [] = rw old at h in
      let bad : contains [] name ≡ true = rw none_left at old in cc
  | inr new ↦ let bad : name ∷ s.missing_deps ≡ [] = rw new at h in cc
]

first_owner-defined :
    (objs : List ElfObj) (name : Text) (owner : ElfObj)
    → first_owner objs name ≡ some owner
    → (symbol : ElfSymbol) × (get_symbol owner name ≡ some symbol)
unfolding first_owner get_symbol
first_owner-defined [] name owner h = cc
first_owner-defined (obj ∷ objs) name owner h = elim (Option-cases (lookup name obj.sym_dict)) [
  | inl missing ↦ first_owner-defined objs name owner (rw (missing, first_owner) at h)
  | inr (symbol, found) ↦
      let at = rw (found, first_owner) at h in
      let same : obj ≡ owner = cc in (symbol, rw (← same) found)
]

-- A round that leaves no finding was on a function whose code is clean.
pub analyze_name-IsClean :
    (e : Engine) (name : Text) (s t : State)
    → contains s.visited name ≡ false
    → analyze_name e name s ≡ ok t
    → NoFindings t
    → IsClean e name
unfolding analyze_name resolve_symbol_owner
analyze_name-IsClean e name s t new h findings = elim (Option-cases (resolve_symbol_owner e name)) [
  | inl unowned ↦
      let last = rw (new, unowned, analyze_name) at h in
      let same : record_missing_dep name (visit name s) ≡ t = cc in
      absurd
        (record_missing_dep-ne-nil name (visit name s) (ap (λ u. u.missing_deps) same ∙ findings.1))
  | inr (owner, owned) ↦
      let (symbol, defined) = first_owner-defined _ name owner owned in
      analyze_function-IsClean e name owner symbol _ t owned defined
        (rw (new, owned, analyze_name) at h) findings
]
