-- ===== src/Checker/Registers.antt =====
-- Registers by their canonical names, and the instruction that wrote a register last.
use binary_kernel_code_mappi.Prelude.{
  ℕ, zero, suc, ◌&&◌, List, [], ◌∷◌, ◌++◌, map, Option, none, some, Text, codes, leb, ◌+◌,
  get_elem?, length, drop, contains, starts_with, if◌then◌else◌,
}
use binary_kernel_code_mappi.TextOps.{strip}
use binary_kernel_code_mappi.Checker.{Operand, reg, mem, imm, other, Insn, Capstone, is_named}

-- `c.lower()` on the letters of ASCII, which the names of registers have.
unfoldable pub to_lower : ℕ → ℕ
to_lower c = if leb b'A' c && leb c b'Z' then c + 32 else c

abbrev group : Text → List Text → Text × List Text
group canonical aliases = (canonical, canonical ∷ aliases)

-- `REG_ALIAS_GROUPS`
abbrev pub reg_alias_groups : List (Text × List Text)
reg_alias_groups =
    group (codes "rax") (codes "eax" ∷ codes "ax" ∷ codes "al" ∷ codes "ah" ∷ [])
    ∷ group (codes "rbx") (codes "ebx" ∷ codes "bx" ∷ codes "bl" ∷ codes "bh" ∷ [])
    ∷ group (codes "rcx") (codes "ecx" ∷ codes "cx" ∷ codes "cl" ∷ codes "ch" ∷ [])
    ∷ group (codes "rdx") (codes "edx" ∷ codes "dx" ∷ codes "dl" ∷ codes "dh" ∷ [])
    ∷ group (codes "rsi") (codes "esi" ∷ codes "si" ∷ codes "sil" ∷ [])
    ∷ group (codes "rdi") (codes "edi" ∷ codes "di" ∷ codes "dil" ∷ [])
    ∷ group (codes "rbp") (codes "ebp" ∷ codes "bp" ∷ codes "bpl" ∷ [])
    ∷ group (codes "rsp") (codes "esp" ∷ codes "sp" ∷ codes "spl" ∷ [])
    ∷ group (codes "rip") (codes "eip" ∷ codes "ip" ∷ [])
    ∷ group (codes "r8") (codes "r8d" ∷ codes "r8w" ∷ codes "r8b" ∷ [])
    ∷ group (codes "r9") (codes "r9d" ∷ codes "r9w" ∷ codes "r9b" ∷ [])
    ∷ group (codes "r10") (codes "r10d" ∷ codes "r10w" ∷ codes "r10b" ∷ [])
    ∷ group (codes "r11") (codes "r11d" ∷ codes "r11w" ∷ codes "r11b" ∷ [])
    ∷ group (codes "r12") (codes "r12d" ∷ codes "r12w" ∷ codes "r12b" ∷ [])
    ∷ group (codes "r13") (codes "r13d" ∷ codes "r13w" ∷ codes "r13b" ∷ [])
    ∷ group (codes "r14") (codes "r14d" ∷ codes "r14w" ∷ codes "r14b" ∷ [])
    ∷ group (codes "r15") (codes "r15d" ∷ codes "r15w" ∷ codes "r15b" ∷ [])
    ∷ []

unfoldable pub find_group : List (Text × List Text) → Text → Text
find_group [] name = name
find_group ((canonical, aliases) ∷ groups) name =
    if contains aliases name then canonical else find_group groups name

unfoldable pub canonical_reg_name : Option Text → Text
unfolding to_lower find_group
canonical_reg_name none = []
canonical_reg_name (some []) = []
canonical_reg_name (some (c ∷ s)) = find_group reg_alias_groups (map to_lower (c ∷ s))

-- `[reg for reg in regs if reg]`
unfoldable pub nonempty_names : List Text → List Text
unfolding is_named
nonempty_names [] = []
nonempty_names (name ∷ names) =
    let rest = nonempty_names names in if is_named name then name ∷ rest else rest

module _ (cs : Capstone) where
  -- A register of an address; 0 stands for none.
  unfoldable pub mem_reg : ℕ → List Text
  unfolding canonical_reg_name
  mem_reg zero = []
  mem_reg (suc r) = canonical_reg_name (cs.reg_name (suc r)) ∷ []

  unfoldable pub operand_regs : List Operand → List Text
  unfolding canonical_reg_name mem_reg
  operand_regs [] = []
  operand_regs (reg r ∷ ops) = canonical_reg_name (cs.reg_name r) ∷ []
  operand_regs (mem base index ∷ ops) = mem_reg base ++ mem_reg index
  operand_regs (imm v ∷ ops) = []
  operand_regs (other ∷ ops) = []

  unfoldable pub collect_branch_source_regs : Insn → List Text
  unfolding operand_regs nonempty_names
  collect_branch_source_regs instr = nonempty_names (operand_regs instr.operands)

  -- The canonical names of the registers that have a name.
  unfoldable pub canonical_names : List ℕ → List Text
  unfolding is_named canonical_reg_name
  canonical_names [] = []
  canonical_names (r ∷ rs) =
      let rest = canonical_names rs in
      elim (cs.reg_name r) [
        | none ↦ rest
        | some name ↦ if is_named name then canonical_reg_name (some name) ∷ rest else rest
      ]

  -- The registers that an instruction reads and writes; none where Capstone raises.
  unfoldable pub regs_read : Insn → List Text
  unfolding canonical_names
  regs_read instr = elim instr.regs_access [
    | none ↦ []
    | some (read, written) ↦ canonical_names read
  ]

  unfoldable pub regs_written : Insn → List Text
  unfolding canonical_names
  regs_written instr = elim instr.regs_access [
    | none ↦ []
    | some (read, written) ↦ canonical_names written
  ]

  -- `for prev_index in range(n - 1, -1, -1)`
  unfoldable pub find_prior_write : List Insn → ℕ → Text → Option Insn
  unfolding regs_written is_named
  find_prior_write instructions zero target_reg = none
  find_prior_write instructions (suc n) target_reg =
      let earlier = find_prior_write instructions n target_reg in
      elim (get_elem? instructions n) [
        | none ↦ earlier
        | some instr ↦
            if is_named target_reg && contains (regs_written instr) target_reg
            then some instr
            else earlier
      ]

abbrev pub retpoline_indirect : Text
retpoline_indirect = codes "__x86_indirect_thunk_"

unfoldable pub collect_retpoline_source_regs : Text → List Text
unfolding strip canonical_reg_name nonempty_names
collect_retpoline_source_regs thunk_name =
    if starts_with thunk_name retpoline_indirect
    then nonempty_names
        (canonical_reg_name (some (strip (drop (length retpoline_indirect) thunk_name))) ∷ [])
    else []
