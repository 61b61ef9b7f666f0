-- ===== src/Registers/WriteBack.antt =====
-- `WriteRegisters` against its plan: the modified registers in ascending order, and the program
-- counter at the end.
use microx.Base.{
  ℕ, zero, suc, ◌+◌, ◌≡◌, Bool, ◌||◌, ◌==◌, if◌then◌else◌, List, [], ◌∷◌, ◌++◌, arith, Bool-cases,
  inl, inr,
}
use microx.Xed.{Xed}
use microx.State.{Globals, Executor, State, Act, done, ◌>>◌, modify}
use microx.Registers.{write_register, write_registers_loop, write_registers, restore_stack_ptr}

module _ (x : Xed) where
  abbrev pub is_pc : ℕ → Bool
  is_pc i = i == x.eip || i == x.rip

  -- Among the registers from `i` on, those that are used and modified, but the program counter.
  unfoldable pub modified_from : ℕ → ℕ → Globals → List ℕ
  modified_from zero i g = []
  modified_from (suc left) i g =
      let rest = modified_from left (i + 1) g in
      if g.used_regs i
      then (if is_pc i then rest else if g.modified_regs i then i ∷ rest else rest)
      else rest

  -- The last program counter that is used.
  unfoldable pub pc_from : ℕ → ℕ → ℕ → Globals → ℕ
  pc_from zero i pc_reg g = pc_reg
  pc_from (suc left) i pc_reg g =
      pc_from left (i + 1) (if g.used_regs i then (if is_pc i then i else pc_reg) else pc_reg) g

  abbrev pub pc_last : ℕ → List ℕ
  pc_last pc_reg = if pc_reg == x.invalid then [] else pc_reg ∷ []

  unfoldable pub write_plan : Globals → List ℕ
  write_plan g = modified_from x.reg_last 0 g ++ pc_last (pc_from x.reg_last 0 x.invalid g)

module _ {W : Type 0} (x : Xed) (e : Executor W) where
  -- The registers of a list, one after the other, until a write fails.
  unfoldable pub write_each : List ℕ → Act W
  write_each [] = done
  write_each (r ∷ rest) = write_register x e r >> write_each rest

  write_each_last :
      (pc_reg : ℕ) (s : State W)
      → (if pc_reg == x.invalid then done else write_register x e pc_reg) s
        ≡ write_each (pc_last x pc_reg) s
  unfolding write_each write_register ◌>>◌ done
  write_each_last pc_reg s = ground arith

  write_registers_loop-plan :
      (left i pc_reg : ℕ) (s : State W)
      → write_registers_loop x e left i pc_reg s
        ≡ write_each
            (modified_from x left i s.globals ++ pc_last x (pc_from x left i pc_reg s.globals))
            s
  unfolding write_registers_loop write_each modified_from pc_from write_register ◌>>◌
  write_registers_loop-plan zero i pc_reg s = write_each_last pc_reg s
  write_registers_loop-plan (suc left) i pc_reg s = elim (Bool-cases (s.globals.used_regs i)) [
    | inr unused ↦ rw unused (write_registers_loop-plan left (i + 1) pc_reg s)
    | inl used ↦ elim (Bool-cases (is_pc x i)) [
      | inl pc ↦ rw (used, pc) (write_registers_loop-plan left (i + 1) i s)
      | inr other ↦ elim (Bool-cases (s.globals.modified_regs i)) [
        | inr kept ↦ rw (used, other, kept) (write_registers_loop-plan left (i + 1) pc_reg s)
        | inl changed ↦
            rw (used, other, changed)
              (rw (write_registers_loop-plan left (i + 1) pc_reg (write_register x e i s).1))
      ]
    ]
  ]

  -- `WriteRegisters` writes to the client exactly the registers that were used and modified, in
  -- ascending order, and the program counter last, until a write fails; before that the stack
  -- pointer takes its value back from its alias, if it has one.
  pub write_registers-plan :
      (s : State W)
      → let g = restore_stack_ptr x e s.globals in
        write_registers x e s ≡ write_each (write_plan x g) (record s { globals = g })
  unfolding write_registers write_plan modify ◌>>◌
  write_registers-plan s =
      write_registers_loop-plan x.reg_last 0 x.invalid
        (record s { globals = restore_stack_ptr x e s.globals })
