-- ===== src/Operands/Progress.antt =====
-- The register reads of an instruction, and the registers that are used and modified.
use microx.Base.{
  ℕ, ◌+◌, ◌∙◌, refl, Bool, true, false, ◌==◌, differs, if◌then◌else◌, List, [], ◌∷◌, Bool-cases,
  inl, inr,
}
use microx.Xed.{Xed, Inst, Operand, OperandName}
use microx.State.{Globals, Executor, State, Act, done, ◌>>◌, RegRequestHint}
use microx.Registers.{read_register}
use microx.Registers.Tracking.{Progress, same_tracking, read_register-Progress}
use microx.Operands.{
  is_memory, is_register, read_registers_mem_op, read_address_registers, read_operand,
  read_operands,
}

pub Progress-trans : {f g h : Globals} → Progress f g → Progress g h → Progress f h
Progress-trans p q = record {
  used_grows = λ r u. q.used_grows r (p.used_grows r u);
  modified_grows = λ r m. q.modified_grows r (p.modified_grows r m);
  tracked = λ t. q.tracked (p.tracked t);
  same_inst = q.same_inst ∙ p.same_inst;
}

module _ {W : Type 0} where
  pub record Progresses (m : Act W) : Type 0 where
    pub progress : (s : State W) → Progress s.globals (m s).1.globals

  pub Progresses-done : Progresses done
  unfolding done
  Progresses-done = record { progress = λ s. same_tracking refl refl refl }

  pub Progresses-if :
      (b : Bool) {m k : Act W} → Progresses m → Progresses k → Progresses (if b then m else k)
  Progresses-if true p q = p
  Progresses-if false p q = q

  pub Progresses->> : {m k : Act W} → Progresses m → Progresses k → Progresses (m >> k)
  unfolding ◌>>◌
  Progresses->> {m} {k} p q = record {
    progress = λ s. elim (Bool-cases (m s).0) [
      | inl y ↦ rw y (Progress-trans (p.progress s) (q.progress (m s).1))
      | inr n ↦ rw n (p.progress s)
    ];
  }

module _ {W : Type 0} (x : Xed) (e : Executor W) where
  read_register-Progresses :
      (reg : ℕ) (hint : RegRequestHint) → Progresses (read_register x e reg hint)
  read_register-Progresses reg hint = record { progress = read_register-Progress x e reg hint }

  pub read_address_registers-Progresses :
      (inst : Inst) (ops : List Operand) (i : ℕ)
      → Progresses (read_address_registers x e inst ops i)
  unfolding read_address_registers read_registers_mem_op
  read_address_registers-Progresses inst [] i = Progresses-done
  read_address_registers-Progresses inst (op ∷ ops) i =
      Progresses-if (is_memory op.name)
        (Progresses->> (Progresses->> (read_register-Progresses _ _) (read_register-Progresses _ _))
          (read_address_registers-Progresses inst ops (i + 1)))
        (read_address_registers-Progresses inst ops i)

  pub read_operand-Progresses :
      (inst : Inst) (name : OperandName) (hint : RegRequestHint)
      → Progresses (read_operand x e inst name hint)
  unfolding read_operand
  read_operand-Progresses inst name hint =
      Progresses-if (is_register name)
        (Progresses-if (inst.get_reg name == 0) Progresses-done (read_register-Progresses _ _))
        Progresses-done

  pub read_operands-Progresses :
      (written : Bool) (hint : RegRequestHint) (inst : Inst) (ops : List Operand)
      → Progresses (read_operands x e written hint inst ops)
  unfolding read_operands
  read_operands-Progresses written hint inst [] = Progresses-done
  read_operands-Progresses written hint inst (op ∷ ops) =
      Progresses->>
        (Progresses-if (differs written op.written) Progresses-done
          (read_operand-Progresses inst op.name hint))
        (read_operands-Progresses written hint inst ops)
