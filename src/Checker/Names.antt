-- ===== src/Checker/Names.antt =====
-- The functions that code leads to are named in the symbol tables.
use mathlib.Core.Path.{subst}
use binary_kernel_code_mappi.Prelude.{
  In-append_cases, ℕ, ◌≡◌, refl, sym, ◌⊎◌, inl, inr, not, ◌&&◌, List, [], ◌∷◌, ◌++◌, Option, none,
  some, Text, In, contains, text_eq, Bool-cases, Option-cases, Result, ok, err, arith,
}
use binary_kernel_code_mappi.Checker.{
  SectionIndex, ElfSymbol, ElfObj, ElfSection, Relocation, Insn, get_symbol, is_undef, is_func,
  is_exec, named_only, resolve_func_by_offset, is_named, first_covering,
}
use binary_kernel_code_mappi.Prelude.Int.{ℤ}
use binary_kernel_code_mappi.Checker.State.{
  Reason, Engine, resolve_symbol_owner, is_instrumentation_symbol,
}
use binary_kernel_code_mappi.Checker.Insns.{
  is_privileged, is_branch, is_blind, direct_target, retpoline_like, returns_like,
}
use binary_kernel_code_mappi.Checker.Scan.{target_section}
use binary_kernel_code_mappi.Checker.Explain.{
  Function, find_relocation_for_instruction, is_pc_rel, is_absolute, target_name_of,
}
use binary_kernel_code_mappi.Checker.Loading.{load_function, disassemble}
use binary_kernel_code_mappi.Checker.Callees.{
  one_name, addend_callees, local_callees, target_callees, reloc_callees, other_name,
  direct_callees, plain_callees, insn_callees, callees_from, loaded_callees, symbol_callees,
  owner_callees, callees, CallReach, here, step,
}
use binary_kernel_code_mappi.Checker.SymbolNames.{
  symbol_names, file_names, engine_names, IsSymtab, In-symbol_names, In-file_names, first_owner-In,
  first_covering-In, In-if,
}

module _ (e : Engine) (f : Function) where
  abbrev own_names : List Text
  own_names = symbol_names f.owner_elf.file.symbols

  resolved-own :
      (sec_idx : SectionIndex) (offset : ℤ) (m : Text)
      → In m (one_name (named_only (resolve_func_by_offset f.owner_elf sec_idx offset)))
      → In m own_names
  unfolding resolve_func_by_offset named_only
  resolved-own sec_idx offset m h =
      elim (Option-cases (first_covering sec_idx offset f.owner_elf.file.symbols)) [
        | inl missing ↦ absurd (rw missing at h)
        | inr (name, found) ↦ elim (Bool-cases (is_named name)) [
          | inr unnamed ↦ absurd (rw (found, unnamed) at h)
          | inl named ↦
              let at : (m ≡ name) ⊎ ⊥ = rw (found, named) at h in
              elim at [
                | inl same ↦
                    rw same (first_covering-In sec_idx offset f.owner_elf.file.symbols name found)
                | inr bad ↦ absurd bad
              ]
        ]
      ]

  module _ (m : Text) where
    one-own :
        (symbol : ElfSymbol)
        → In symbol f.owner_elf.file.symbols
        → In m (symbol.name ∷ [])
        → In m own_names
    one-own symbol at (inl same) = rw same (In-symbol_names symbol f.owner_elf.file.symbols at)
    one-own symbol at (inr bad) = absurd bad

    addend-own :
        (instr : Insn) (r : Relocation) (symbol : ElfSymbol) (o : Option ℤ)
        → In m (addend_callees e f instr r symbol o)
        → In m own_names
    addend-own instr r symbol none h = absurd h
    addend-own instr r symbol (some addend) h = resolved-own symbol.st_shndx _ m h

    local-own :
        (instr : Insn) (r : Relocation) (symbol : ElfSymbol) (sec : Option ElfSection)
        → In symbol f.owner_elf.file.symbols
        → In m (local_callees e f instr r symbol sec)
        → In m own_names
    local-own instr r symbol none at h = absurd h
    local-own instr r symbol (some sec) at h = elim (In-if (not (is_exec sec)) m _ _ h) [
      | inl (_, bad) ↦ absurd bad
      | inr (_, h') ↦ elim (In-if (is_func symbol.st_type && is_named symbol.name) m _ _ h') [
        | inl (_, called) ↦ one-own symbol at called
        | inr (_, called) ↦ addend-own instr r symbol r.r_addend called
      ]
    ]

    target-own :
        (instr : Insn) (r : Relocation) (symbol : ElfSymbol) (sec : Option ElfSection)
        → In symbol f.owner_elf.file.symbols
        → In m (target_callees e f instr r symbol (target_name_of f.owner_elf symbol []) sec)
        → In m own_names
    unfolding target_name_of
    target-own instr r symbol sec at h =
        elim (In-if (is_instrumentation_symbol e (target_name_of f.owner_elf symbol [])) m _ _ h) [
          | inl (_, bad) ↦ absurd bad
          | inr (_, h1) ↦
              elim (In-if (retpoline_like (target_name_of f.owner_elf symbol [])) m _ _ h1) [
                | inl (_, bad) ↦ absurd bad
                | inr (_, h2) ↦
                    elim (In-if (returns_like (target_name_of f.owner_elf symbol [])) m _ _ h2) [
                      | inl (_, bad) ↦ absurd bad
                      | inr (_, h3) ↦ elim (In-if (is_undef symbol.st_shndx) m _ _ h3) [
                        | inr (_, local) ↦ local-own instr r symbol sec at local
                        | inl (undefined, h4) ↦
                            elim (In-if (contains e.shims (target_name_of f.owner_elf symbol [])) m
                              _ _ h4) [
                                | inl (_, bad) ↦ absurd bad
                                | inr (_, called) ↦
                                    let named : target_name_of f.owner_elf symbol [] ≡ symbol.name =
                                      ground arith in
                                    one-own symbol at (subst (λ n. In m (n ∷ [])) named called)
                              ]
                      ]
                    ]
              ]
        ]

    plain-own : (instr : Insn) → In m (plain_callees e f instr) → In m own_names
    plain-own instr h = elim (In-if (not (is_branch instr.id)) m _ _ h) [
      | inl (_, bad) ↦ absurd bad
      | inr (_, h1) ↦ elim (In-if (is_blind instr.operands) m _ _ h1) [
        | inl (_, bad) ↦ absurd bad
        | inr (_, h2) ↦ direct (direct_target instr.operands) h2
      ]
    ]
      where
        other_name-one : (o : Option Text) → In m (other_name e f o) → In m (one_name o)
        other_name-one none bad = absurd bad
        other_name-one (some name) called = elim (In-if (text_eq name f.func_name) m _ _ called) [
          | inl (_, bad) ↦ absurd bad
          | inr (_, at) ↦ at
        ]

        direct : (o : Option ℤ) → In m (direct_callees e f o) → In m own_names
        direct none bad = absurd bad
        direct (some target) called = resolved-own f.sec_idx target m (
            other_name-one (named_only (resolve_func_by_offset f.owner_elf f.sec_idx target))
              called)

    -- A symbol that a relocation refers to is in the symbol table.
    abbrev IsOwnTable : Type 0
    IsOwnTable =
        (i : ℕ) (symbol : ElfSymbol)
        → f.owner_elf.file.symbol_at i ≡ some symbol
        → In symbol f.owner_elf.file.symbols

    reloc-own :
        (instr : Insn) (r : Relocation) (o : Option ElfSymbol)
        → ((symbol : ElfSymbol) → o ≡ some symbol → In symbol f.owner_elf.file.symbols)
        → In m (reloc_callees e f instr r o)
        → In m own_names
    reloc-own instr r none at h = absurd h
    reloc-own instr r (some symbol) at h = elim (In-if (is_absolute r.r_info_type) m _ _ h) [
      | inl (_, bad) ↦ absurd bad
      | inr (_, h1) ↦ elim (In-if (is_pc_rel r.r_info_type) m _ _ h1) [
        | inr (_, bad) ↦ absurd bad
        | inl (_, h2) ↦ target-own instr r symbol (target_section e f symbol) (at symbol refl) h2
      ]
    ]

    insn-own :
        (instr : Insn) (o : Option Relocation)
        → IsOwnTable
        → In m (insn_callees e f o instr)
        → In m own_names
    insn-own instr none table h = plain-own instr h
    insn-own instr (some r) table h =
        reloc-own instr r (f.owner_elf.file.symbol_at r.r_info_sym) (table r.r_info_sym) h

    callees_from-own :
        (instrs : List Insn) → IsOwnTable → In m (callees_from e f instrs) → In m own_names
    unfolding callees_from
    callees_from-own [] table h = absurd h
    callees_from-own (instr ∷ instrs) table h =
        elim (In-if (is_privileged e.capstone instr) m _ _ h) [
          | inl (_, bad) ↦ absurd bad
          | inr (_, h1) ↦
              elim (In-append_cases m
                (insn_callees e f (find_relocation_for_instruction f.relocs instr) instr)
                (callees_from e f instrs) h1) [
                  | inl now ↦
                      insn-own instr (find_relocation_for_instruction f.relocs instr) table now
                  | inr later ↦ callees_from-own instrs table later
                ]
        ]

load_function-owner :
    (e : Engine) (name : Text) (owner : ElfObj) (symbol : ElfSymbol) (f : Function)
    → load_function e name owner symbol ≡ ok f
    → f.owner_elf ≡ owner
unfolding load_function disassemble
load_function-owner e name owner symbol f h = ground arith

module _ (e : Engine) (symtab : IsSymtab e) (name m : Text) where
  loaded-named :
      (owner : ElfObj) (symbol : ElfSymbol) (r : Result Reason Function)
      → In owner (e.modules ++ e.vmlinux ∷ [])
      → load_function e name owner symbol ≡ r
      → In m (loaded_callees e r)
      → In m (symbol_names owner.file.symbols)
  loaded-named owner symbol (err reason) at loaded h = absurd h
  loaded-named owner symbol (ok f) at loaded h =
      let same = load_function-owner e name owner symbol f loaded in
      let table =
        subst
          (λ (x : ElfObj).
            (i : ℕ) (y : ElfSymbol) → x.file.symbol_at i ≡ some y → In y x.file.symbols)
          (sym same) (symtab owner at) in
      subst (λ (x : ElfObj). In m (symbol_names x.file.symbols)) same
        (callees_from-own e f m f.instructions table h)

  owner-named :
      (o : Option ElfObj)
      → ((owner : ElfObj) → o ≡ some owner → In owner (e.modules ++ e.vmlinux ∷ []))
      → In m (owner_callees e name o)
      → In m (engine_names e)
  unfolding engine_names
  owner-named none at h = absurd h
  owner-named (some owner) at h = defined (get_symbol owner name) h
    where
      defined :
          (o : Option ElfSymbol)
          → In m (symbol_callees e name owner o)
          → In m (file_names (e.modules ++ e.vmlinux ∷ []))
      defined none bad = absurd bad
      defined (some symbol) called = In-file_names m owner _ (at owner refl) (
          loaded-named owner symbol (load_function e name owner symbol) (at owner refl) refl called)

  callees-named : In m (callees e name) → In m (engine_names e)
  unfolding callees resolve_symbol_owner
  callees-named h =
      owner-named (resolve_symbol_owner e name) (λ owner owned. first_owner-In _ name owner owned) h

-- What the target leads to is the target, or is named in a symbol table.
pub CallReach-named :
    (e : Engine) (target : Text)
    → IsSymtab e
    → (n : Text) → CallReach e target n
    → In n (target ∷ engine_names e)
CallReach-named e target symtab n here = inl refl
CallReach-named e target symtab n (step {caller} reach called named) =
    inr (callees-named e symtab caller n called)
