-- ===== src/Operands/Keeps.antt =====
-- The register reads of an instruction, and predicates on the client's state.
use microx.Base.{ℕ, ◌+◌, Bool, differs, List, [], ◌∷◌}
use microx.Xed.{Xed, Inst, Operand, OperandName}
use microx.State.{Executor, RegRequestHint}
use microx.State.Keeps.{ReadsKeep, Keeps, Keeps-done, Keeps-if, Keeps->>, keep_rules}
use microx.Registers.Request.{read_register-Keeps}
use microx.Operands.{
  is_memory, read_registers_mem_op, read_address_registers, read_operand, read_operands,
  read_registers, read_pc,
}

module _ {W : Type 0} (I : W → Type 0) (x : Xed) (e : Executor W) {clear : W → W}
    (r : ReadsKeep I e clear) where
  read_registers_mem_op-Keeps : (inst : Inst) (i : ℕ) → Keeps I (read_registers_mem_op x e inst i)
  unfolding read_registers_mem_op
  read_registers_mem_op-Keeps inst i = search (keep_rules, read_register-Keeps I x e r)

  read_address_registers-Keeps :
      (inst : Inst) (ops : List Operand) (i : ℕ) → Keeps I (read_address_registers x e inst ops i)
  unfolding read_address_registers
  read_address_registers-Keeps inst [] i = Keeps-done
  read_address_registers-Keeps inst (op ∷ ops) i =
      Keeps-if (is_memory op.name)
        (Keeps->> (read_registers_mem_op-Keeps inst i)
          (read_address_registers-Keeps inst ops (i + 1)))
        (read_address_registers-Keeps inst ops i)

  read_operand-Keeps :
      (inst : Inst) (name : OperandName) (hint : RegRequestHint)
      → Keeps I (read_operand x e inst name hint)
  unfolding read_operand
  read_operand-Keeps inst name hint = search (keep_rules, read_register-Keeps I x e r)

  read_operands-Keeps :
      (written : Bool) (hint : RegRequestHint) (inst : Inst) (ops : List Operand)
      → Keeps I (read_operands x e written hint inst ops)
  unfolding read_operands
  read_operands-Keeps written hint inst [] = Keeps-done
  read_operands-Keeps written hint inst (op ∷ ops) =
      Keeps->>
        (Keeps-if (differs written op.written) Keeps-done (read_operand-Keeps inst op.name hint))
        (read_operands-Keeps written hint inst ops)

  pub read_registers-Keeps : Keeps I (read_registers x e)
  unfolding read_registers
  read_registers-Keeps = search (keep_rules, read_address_registers-Keeps, read_operands-Keeps)

  pub read_pc-Keeps : Keeps I (read_pc x e)
  unfolding read_pc
  read_pc-Keeps = search (keep_rules, read_register-Keeps I x e r)
