-- ===== src/Operands.antt =====
-- The registers of an instruction's operands (`microx/Executor.cpp`): `ReadRegistersMemOp`,
-- `ReadRegisters` and `ReadPC`.
pub mod Keeps
pub mod Progress
pub mod Coverage
mod Tests
use microx.Base.{ℕ, ◌+◌, Bool, true, false, not, differs, ◌==◌, if◌then◌else◌, List, [], ◌∷◌}
use microx.Xed.{
  Xed, Inst, Operand, OperandName, agen, mem0, mem1, reg, reg0, reg1, reg2, reg3, reg4, reg5, reg6,
  reg7, reg8,
}
use microx.State.{
  Globals, Executor, State, Act, done, ◌>>◌, modify, reading, update, RegRequestHint, general,
  program_counter, write_back, memory_base_address, memory_index_address,
}
use microx.Registers.{widest_register, read_register}

-- The labels of the two kinds of `switch` over operand names.
unfoldable pub is_memory : OperandName → Bool
is_memory agen = true
is_memory mem0 = true
is_memory mem1 = true
is_memory _ = false

unfoldable pub is_register : OperandName → Bool
is_register reg = true
is_register reg0 = true
is_register reg1 = true
is_register reg2 = true
is_register reg3 = true
is_register reg4 = true
is_register reg5 = true
is_register reg6 = true
is_register reg7 = true
is_register reg8 = true
is_register _ = false

module _ {W : Type 0} (x : Xed) (e : Executor W) where
  unfoldable pub read_registers_mem_op : Inst → ℕ → Act W
  read_registers_mem_op inst op_num =
      read_register x e (inst.base_reg op_num) memory_base_address
      >> read_register x e (inst.index_reg op_num) memory_index_address

  -- The first loop: the memory operands are numbered as they come.
  unfoldable pub read_address_registers : Inst → List Operand → ℕ → Act W
  read_address_registers inst [] mem_index = done
  read_address_registers inst (op ∷ ops) mem_index =
      if is_memory op.name
      then read_registers_mem_op inst mem_index >> read_address_registers inst ops (mem_index + 1)
      else read_address_registers inst ops mem_index

  -- `XED_OPERAND_REG…` with a register that is not `XED_REG_INVALID`, which is 0 there.
  unfoldable pub read_operand : Inst → OperandName → RegRequestHint → Act W
  read_operand inst name hint =
      if is_register name
      then (if inst.get_reg name == 0 then done else read_register x e (inst.get_reg name) hint)
      else done

  -- The second loop is over the operands that are not written, and the third over the others.
  unfoldable pub read_operands : Bool → RegRequestHint → Inst → List Operand → Act W
  read_operands written hint inst [] = done
  read_operands written hint inst (op ∷ ops) =
      (if differs written op.written then done else read_operand inst op.name hint)
      >> read_operands written hint inst ops

  unfoldable pub read_registers : Act W
  read_registers = reading λ g.
      read_address_registers g.xedd g.xedd.operands 0
      >> read_operands false general g.xedd g.xedd.operands
      >> read_operands true write_back g.xedd g.xedd.operands

  unfoldable pub read_pc : Act W
  read_pc =
      let pc = widest_register x e x.eip in
      modify (λ g. record g { modified_regs = update g.modified_regs pc true })
      >> read_register x e pc program_counter
