-- ===== src/Checker/FirstReloc.antt =====
-- Which relocation of an instruction the analysis looks at.
use binary_kernel_code_mappi.Prelude.{
  ℕ, zero, suc, ◌+◌, ◌<◌, ◌≤◌, ◌==◌, ◌≡◌, sym, ap, ◌∙◌, List, Option, none, some, inl, inr,
  Bool-cases, Option-cases, arith,
}
use binary_kernel_code_mappi.Checker.{Relocation, Insn, reloc_at}
use binary_kernel_code_mappi.Checker.Explain.{first_reloc, find_relocation_for_instruction}

-- The first relocation within the bytes of the instruction.
abbrev pub IsFirstReloc : List Relocation → Insn → Relocation → Type 0
IsFirstReloc relocs instr r =
    (off : ℕ) × (instr.address ≤ off)
    × (off < instr.address + instr.size)
    × (reloc_at relocs off ≡ some r)
    × ((o : ℕ) → instr.address ≤ o → o < off → reloc_at relocs o ≡ none)

apart : {q : Relocation} → ◌≡◌ {A = Option Relocation} none (some q) → ⊥
apart h = cc

first_reloc-at :
    (relocs : List Relocation) (n address off : ℕ) (r : Relocation)
    → address ≤ off
    → off < address + n
    → reloc_at relocs off ≡ some r
    → ((o : ℕ) → address ≤ o → o < off → reloc_at relocs o ≡ none)
    → first_reloc relocs n address ≡ some r
unfolding first_reloc
first_reloc-at relocs zero address off r low high at before = absurd (omega arith)
first_reloc-at relocs (suc n) address off r low high at before =
    elim (Option-cases (reloc_at relocs address)) [
      | inr (q, here) ↦ elim (Bool-cases (address == off)) [
        | inl same ↦
            let place : address ≡ off = ground arith in
            rw (here, first_reloc) (sym here ∙ ap (reloc_at relocs) place ∙ at)
        | inr other ↦ let bad = before address (omega arith) (ground arith) in cc
      ]
      | inl none_here ↦
          rw (none_here, first_reloc)
            (first_reloc-at relocs n (address + 1) off r (next none_here) (omega arith) at
              (λ o above below. before o (omega arith) below))
    ]
  where
    next : reloc_at relocs address ≡ none → address + 1 ≤ off
    next none_here = elim (Bool-cases (address == off)) [
      | inl same ↦
          let place : address ≡ off = ground arith in
          let bad : none ≡ some r = sym none_here ∙ ap (reloc_at relocs) place ∙ at in
          absurd (apart bad)
      | inr other ↦ ground arith
    ]

pub IsFirstReloc-found :
    (relocs : List Relocation) (instr : Insn) (r : Relocation)
    → IsFirstReloc relocs instr r
    → find_relocation_for_instruction relocs instr ≡ some r
unfolding find_relocation_for_instruction
IsFirstReloc-found relocs instr r (off, low, high, at, before) =
    first_reloc-at relocs instr.size instr.address off r low high at before
