-- ===== src/Execute/Served.antt =====
-- The actions of `Execute` on registers, with a client whose methods succeed (`microx/Executor.cpp`).
use microx.Base.{ℕ, zero, suc, ◌+◌, arith, Bool, differs, List, [], ◌∷◌, ◌==◌}
use microx.Xed.{Xed, Inst, Operand, OperandName, RegClass, x87, pseudox87, mmx, other_class}
use microx.State.{Executor, RegRequestHint}
use microx.State.Serves.{
  ServesCalls, Serves, Serves-if, Serves-done, Serves-modify, Serves->>, serve_rules,
}
use microx.Registers.{
  read_register, read_gpr_register, request_register, read_class, write_register,
  write_registers_loop, write_registers,
}
use microx.Operands.{
  is_memory, read_registers_mem_op, read_address_registers, read_operand, read_operands,
  read_registers, read_pc,
}

module _ {W : Type 0} (I : W → Type 0) (x : Xed) (e : Executor W) {clear : W → W}
    (r : ServesCalls I e clear) where
  -- `ReadRegister`.
  request_register-Serves :
      (reg widest : ℕ) (hint : RegRequestHint) → Serves I (request_register x e reg widest hint)
  unfolding request_register
  request_register-Serves reg widest hint = record { serves = λ s i. r.serves_read_reg _ _ _ _ _ i }

  read_gpr_register-Serves :
      (reg : ℕ) (hint : RegRequestHint) → Serves I (read_gpr_register x e reg hint)
  unfolding read_gpr_register
  read_gpr_register-Serves reg hint = search (serve_rules, request_register-Serves)

  read_class-Serves :
      (c : RegClass) (reg : ℕ) (hint : RegRequestHint) → Serves I (read_class x e c reg hint)
  read_class-Serves x87 reg hint = Serves-modify _
  read_class-Serves pseudox87 reg hint = Serves-modify _
  read_class-Serves mmx reg hint = Serves->> (Serves-modify _) (read_gpr_register-Serves reg hint)
  read_class-Serves other_class reg hint = read_gpr_register-Serves reg hint

  read_register-Serves : (reg : ℕ) (hint : RegRequestHint) → Serves I (read_register x e reg hint)
  unfolding read_register
  read_register-Serves reg hint = search (serve_rules, read_class-Serves)

  -- `ReadRegisters` and `ReadPC`.
  read_registers_mem_op-Serves : (inst : Inst) (i : ℕ) → Serves I (read_registers_mem_op x e inst i)
  unfolding read_registers_mem_op
  read_registers_mem_op-Serves inst i = search (serve_rules, read_register-Serves)

  read_address_registers-Serves :
      (inst : Inst) (ops : List Operand) (i : ℕ) → Serves I (read_address_registers x e inst ops i)
  unfolding read_address_registers
  read_address_registers-Serves inst [] i = Serves-done
  read_address_registers-Serves inst (op ∷ ops) i =
      Serves-if (is_memory op.name)
        (Serves->> (read_registers_mem_op-Serves inst i)
          (read_address_registers-Serves inst ops (i + 1)))
        (read_address_registers-Serves inst ops i)

  read_operand-Serves :
      (inst : Inst) (name : OperandName) (hint : RegRequestHint)
      → Serves I (read_operand x e inst name hint)
  unfolding read_operand
  read_operand-Serves inst name hint = search (serve_rules, read_register-Serves)

  read_operands-Serves :
      (written : Bool) (hint : RegRequestHint) (inst : Inst) (ops : List Operand)
      → Serves I (read_operands x e written hint inst ops)
  unfolding read_operands
  read_operands-Serves written hint inst [] = Serves-done
  read_operands-Serves written hint inst (op ∷ ops) =
      Serves->>
        (Serves-if (differs written op.written) Serves-done (read_operand-Serves inst op.name hint))
        (read_operands-Serves written hint inst ops)

  pub read_registers-Serves : Serves I (read_registers x e)
  unfolding read_registers
  read_registers-Serves = search (serve_rules, read_address_registers-Serves, read_operands-Serves)

  pub read_pc-Serves : Serves I (read_pc x e)
  unfolding read_pc
  read_pc-Serves = search (serve_rules, read_register-Serves)

  -- `WriteRegisters`.
  write_register-Serves : (reg : ℕ) → Serves I (write_register x e reg)
  unfolding write_register
  write_register-Serves reg = record { serves = λ s i. r.serves_write_reg _ _ _ _ i }

  write_registers_loop-Serves :
      (left i pc_reg : ℕ) → Serves I (write_registers_loop x e left i pc_reg)
  unfolding write_registers_loop
  write_registers_loop-Serves zero i pc_reg =
      Serves-if (pc_reg == x.invalid) Serves-done (write_register-Serves pc_reg)
  write_registers_loop-Serves (suc left) i pc_reg = record {
    serves = λ s k.
        let skipped = (write_registers_loop-Serves left (i + 1) pc_reg).serves s k in
        let remembered = (write_registers_loop-Serves left (i + 1) i).serves s k in
        let written =
          (Serves->> (write_register-Serves i)
              (write_registers_loop-Serves left (i + 1) pc_reg)).serves
            s k in
        ground (arith, skipped.0, skipped.1, remembered.0, remembered.1, written.0, written.1);
  }

  pub write_registers-Serves : Serves I (write_registers x e)
  unfolding write_registers
  write_registers-Serves = search (serve_rules, write_registers_loop-Serves)
