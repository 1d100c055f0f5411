-- ===== src/Checker/Insns.antt =====
-- `functions_checker.py`: what the scan asks of one instruction and of a name.
use binary_kernel_code_mappi.Prelude.{
  ℕ, ◌||◌, ◌&&◌, ◌==◌, Bool, true, false, List, [], ◌∷◌, Option, none, some, Text, codes, contains,
  starts_with,
}
use binary_kernel_code_mappi.Prelude.Int.{ℤ, pos, negsuc, mask64}
use binary_kernel_code_mappi.Checker.{
  is_named, Operand, reg, mem, imm, other, InsnId, ins_call, ins_jmp, ins_other, Insn, Capstone,
}
use binary_kernel_code_mappi.Checker.Registers.{retpoline_indirect}
use binary_kernel_code_mappi.Checker.State.{starts_with_any}

-- A relocation of a `.rel` section is asked for its addend; a file is asked for the section of a reserved index.
pub data CheckError : Type 0 where
  key_error type_error : CheckError

-- `PRIV_INSNS`
abbrev pub priv_insns : List Text
priv_insns =
    codes "cli"
    ∷ codes "sti"
    ∷ codes "hlt"
    ∷ codes "invlpg"
    ∷ codes "rdmsr"
    ∷ codes "wrmsr"
    ∷ codes "in"
    ∷ codes "out"
    ∷ codes "sysret"
    ∷ codes "sysexit"
    ∷ []

unfoldable pub has_number : List ℕ → ℕ → Bool
has_number [] n = false
has_number (m ∷ ms) n = m == n || has_number ms n

unfoldable pub uses_cr : List ℕ → List Operand → Bool
unfolding has_number
uses_cr cr_regs [] = false
uses_cr cr_regs (reg r ∷ ops) = has_number cr_regs r || uses_cr cr_regs ops
uses_cr cr_regs (mem base index ∷ ops) = uses_cr cr_regs ops
uses_cr cr_regs (imm v ∷ ops) = uses_cr cr_regs ops
uses_cr cr_regs (other ∷ ops) = uses_cr cr_regs ops

unfoldable pub is_privileged : Capstone → Insn → Bool
unfolding uses_cr
is_privileged cs instr = contains priv_insns instr.mnemonic || uses_cr cs.cr_regs instr.operands

unfoldable pub is_branch : InsnId → Bool
is_branch ins_call = true
is_branch ins_jmp = true
is_branch ins_other = false

-- `operands and operands[0].type != X86_OP_IMM`
unfoldable pub is_blind : List Operand → Bool
is_blind [] = false
is_blind (imm v ∷ ops) = false
is_blind (reg r ∷ ops) = true
is_blind (mem base index ∷ ops) = true
is_blind (other ∷ ops) = true

-- `RETPOLINE_RETURN`
abbrev pub retpoline_return : List Text
retpoline_return = codes "__x86_return_thunk" ∷ codes "__x86_return_thunk_" ∷ []

unfoldable pub normalize_imm_target : ℤ → ℤ
normalize_imm_target (pos n) = pos n
normalize_imm_target (negsuc n) = pos (mask64 (negsuc n))

-- The address that the immediate operand of a branch names.
unfoldable pub direct_target : List Operand → Option ℤ
unfolding normalize_imm_target
direct_target [] = none
direct_target (imm v ∷ ops) = some (normalize_imm_target v)
direct_target (reg r ∷ ops) = none
direct_target (mem base index ∷ ops) = none
direct_target (other ∷ ops) = none

abbrev pub retpoline_like : Text → Bool
retpoline_like name = is_named name && starts_with name retpoline_indirect

abbrev pub returns_like : Text → Bool
returns_like name = is_named name && starts_with_any name retpoline_return
