-- ===== src/Checker/Writes.antt =====
-- `_find_prior_write` finds the last write.
use binary_kernel_code_mappi.Prelude.{
  ℕ, zero, suc, ◌<◌, ◌≤◌, ◌==◌, ==_iff, ◌≡◌, inl, inr, Bool, true, false, List, Option, none, some,
  Text, get_elem?, contains, Bool-cases, Option-cases, ◌&&◌, arith,
}
use binary_kernel_code_mappi.Checker.{Insn, Capstone, is_named}
use binary_kernel_code_mappi.Checker.Registers.{regs_written, find_prior_write}

module _ (cs : Capstone) (instructions : List Insn) (target_reg : Text) where
  abbrev pub writes_target : Insn → Bool
  writes_target instr = is_named target_reg && contains (regs_written cs instr) target_reg

  -- No instruction in `[from, n)` writes the register.
  abbrev pub NoWrite : ℕ → ℕ → Type 0
  NoWrite from n =
      (j : ℕ) (instr : Insn)
      → from ≤ j
      → j < n
      → get_elem? instructions j ≡ some instr
      → writes_target instr ≡ false

  -- The result is the last instruction before the branch that writes the register, and there is none where no
  -- instruction before it does.
  abbrev pub LastWrite : ℕ → Option Insn → Type 0
  LastWrite n none = NoWrite 0 n
  LastWrite n (some writer) =
      (i : ℕ) × (i < n)
      × (get_elem? instructions i ≡ some writer)
      × (writes_target writer ≡ true)
      × NoWrite (suc i) n

  NoWrite-suc :
      (from n : ℕ)
      → NoWrite from n
      → ((instr : Insn) → get_elem? instructions n ≡ some instr → writes_target instr ≡ false)
      → NoWrite from (suc n)
  NoWrite-suc from n before last j instr lo hi at = elim (Bool-cases (j == n)) [
    | inl same ↦ let eq : j ≡ n = (==_iff j n).0 same in last instr (rw eq at at)
    | inr other ↦ before j instr lo (ground arith) at
  ]

  LastWrite-suc :
      (n : ℕ) (o : Option Insn)
      → ((instr : Insn) → get_elem? instructions n ≡ some instr → writes_target instr ≡ false)
      → LastWrite n o
      → LastWrite (suc n) o
  LastWrite-suc n none last before = NoWrite-suc 0 n before last
  LastWrite-suc n (some writer) last (i, lt, at, writes, after) =
      (i, omega arith, at, writes, NoWrite-suc (suc i) n after last)

  -- The result is the last instruction before the branch that writes the register, and there is none where no
  -- instruction before it does.
  pub find_prior_write-LastWrite :
      (n : ℕ) → LastWrite n (find_prior_write cs instructions n target_reg)
  unfolding find_prior_write
  find_prior_write-LastWrite zero = λ j instr lo hi at. absurd (omega arith)
  find_prior_write-LastWrite (suc n) = elim (Option-cases (get_elem? instructions n)) [
    | inl missing ↦
        rw (missing, find_prior_write)
          (LastWrite-suc n (find_prior_write cs instructions n target_reg) (λ instr at. cc)
            (find_prior_write-LastWrite n))
    | inr (last, found) ↦ elim (Bool-cases (writes_target last)) [
      | inl writes ↦
          rw (found, find_prior_write)
            (rw writes (n, omega arith, found, writes, λ j instr lo hi at. absurd (omega arith)))
      | inr silent ↦
          rw (found, find_prior_write)
            (rw silent (
              LastWrite-suc n (find_prior_write cs instructions n target_reg)
                (λ instr at. let same : last ≡ instr = cc in rw (← same) silent)
                (find_prior_write-LastWrite n)))
    ]
  ]
