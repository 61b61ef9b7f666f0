-- ===== src/Registers/Lives.antt =====
-- Reads and writes of registers (`microx/Executor.cpp`), and the register that stays in use.
use microx.Base.{
  ℕ, Bool, ◌||◌, zero, suc, ◌+◌, ◌≡◌, ap, ◌∙◌, arith, true, ◌==◌, Bool-cases, inl, inr,
}
use microx.Xed.{Xed, RegClass, x87, pseudox87, mmx, other_class}
use microx.State.{Globals, Executor, RegRequestHint, update}
use microx.State.Lives.{
  IsLive, IsLive-if, Lives, Lives-modify, Lives->>, Lives-if, Lives-done, live_rules,
}
use microx.Registers.{
  write_value, read_gpr, write_gpr, restore_stack_ptr, read_register, read_gpr_register,
  request_register, read_class, mark_modified, write_register, write_registers_loop,
  write_registers,
}

-- A register that is set stays set.
pub update-true : (f : ℕ → Bool) (k r : ℕ) → f r ≡ true → update f k true r ≡ true
update-true f k r h = ground arith

-- A write of a register changes the register file only.
module _ (x : Xed) where
  pub write_gpr_initialized :
      (reg val : ℕ) (g : Globals) → (write_gpr x reg val g).is_initialized ≡ g.is_initialized
  unfolding write_gpr write_value
  write_gpr_initialized reg val g = ground arith

  pub write_gpr_in_use :
      (reg val : ℕ) (g : Globals) → (write_gpr x reg val g).used_regs ≡ g.used_regs
  unfolding write_gpr write_value
  write_gpr_in_use reg val g = ground arith

  pub write_gpr-IsLive :
      {pc : ℕ} (reg val : ℕ) (g : Globals) → IsLive pc g → IsLive pc (write_gpr x reg val g)
  write_gpr-IsLive {pc} reg val g i = record {
    initialized = write_gpr_initialized reg val g ∙ i.initialized;
    in_use = ap (λ used. used pc) (write_gpr_in_use reg val g) ∙ i.in_use;
  }

module _ {W : Type 0} (x : Xed) (e : Executor W) {pc : ℕ} where
  request_register-Lives :
      (reg widest : ℕ) (hint : RegRequestHint) → Lives pc (request_register x e reg widest hint)
  unfolding request_register
  request_register-Lives reg widest hint = record {
    lives = λ s i. record {
      initialized = i.initialized;
      in_use = update-true s.globals.used_regs widest pc i.in_use;
    };
  }

  mark_modified-IsLive :
      (reg : ℕ) (hint : RegRequestHint) (g : Globals)
      → IsLive pc g
      → IsLive pc (mark_modified x e reg hint g)
  mark_modified-IsLive reg RegRequestHint.write_back g i = record {
    initialized = i.initialized;
    in_use = i.in_use;
  }
  mark_modified-IsLive reg _ g i = i

  read_gpr_register-Lives :
      (reg : ℕ) (hint : RegRequestHint) → Lives pc (read_gpr_register x e reg hint)
  unfolding read_gpr_register
  read_gpr_register-Lives reg hint =
      search (live_rules, Lives-modify, mark_modified-IsLive, request_register-Lives)

  read_class-Lives :
      (c : RegClass) (reg : ℕ) (hint : RegRequestHint) → Lives pc (read_class x e c reg hint)
  read_class-Lives x87 reg hint =
      Lives-modify _ (λ g i. record { initialized = i.initialized; in_use = i.in_use })
  read_class-Lives pseudox87 reg hint =
      Lives-modify _ (λ g i. record { initialized = i.initialized; in_use = i.in_use })
  read_class-Lives mmx reg hint =
      Lives->> (Lives-modify _ (λ g i. record { initialized = i.initialized; in_use = i.in_use }))
        (read_gpr_register-Lives reg hint)
  read_class-Lives other_class reg hint = read_gpr_register-Lives reg hint

  pub read_register-Lives :
      (reg : ℕ) (hint : RegRequestHint) → Lives pc (read_register x e reg hint)
  unfolding read_register
  read_register-Lives reg hint = search (live_rules, read_class-Lives)

  write_register-Lives : (reg : ℕ) → Lives pc (write_register x e reg)
  unfolding write_register
  write_register-Lives reg = record { lives = λ s i. i }

  write_registers_loop-Lives :
      (left i pc_reg : ℕ) → Lives pc (write_registers_loop x e left i pc_reg)
  unfolding write_registers_loop
  write_registers_loop-Lives zero i pc_reg =
      Lives-if (pc_reg == x.invalid) Lives-done (write_register-Lives pc_reg)
  write_registers_loop-Lives (suc left) i pc_reg = record {
    lives = λ s k. elim (Bool-cases (s.globals.used_regs i)) [
      | inr unused ↦ rw unused ((write_registers_loop-Lives left (i + 1) pc_reg).lives s k)
      | inl used ↦ elim (Bool-cases (i == x.eip || i == x.rip)) [
        | inl is_pc ↦ rw (used, is_pc) ((write_registers_loop-Lives left (i + 1) i).lives s k)
        | inr other ↦ elim (Bool-cases (s.globals.modified_regs i)) [
          | inl changed ↦
              rw (used, other, changed)
                ((Lives->> (write_register-Lives i)
                    (write_registers_loop-Lives left (i + 1) pc_reg)).lives
                  s k)
          | inr kept ↦
              rw (used, other, kept) ((write_registers_loop-Lives left (i + 1) pc_reg).lives s k)
        ]
      ]
    ];
  }

  pub restore_stack_ptr-IsLive : (g : Globals) → IsLive pc g → IsLive pc (restore_stack_ptr x e g)
  unfolding restore_stack_ptr
  restore_stack_ptr-IsLive g i =
      let written = write_gpr-IsLive x x.rsp (read_gpr x g.stack_ptr_alias g) g i in
      IsLive-if (g.stack_ptr_alias == x.invalid) i
        (record { initialized = written.initialized; in_use = written.in_use })

  pub write_registers-Lives : Lives pc (write_registers x e)
  unfolding write_registers
  write_registers-Lives =
      Lives->> (Lives-modify _ restore_stack_ptr-IsLive) (write_registers_loop-Lives _ _ _)
