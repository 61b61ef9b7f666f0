-- ===== src/Execute/Lives.antt =====
-- The actions of `Execute` (`microx/Executor.cpp`) on operands and flags, and the register that stays
-- in use. `WriteFlags` takes the flags register out of use.
use microx.Base.{
  ℕ, ◌+◌, ◌≡◌, Bool, true, false, differs, ◌==◌, Bool-cases, inl, inr, List, [], ◌∷◌, Option, none,
  some, low_bits,
}
use microx.Xed.{Xed, Inst, Operand, OperandName, SimpleFlag}
use microx.Host.{Host}
use microx.State.{Globals, Executor, RegRequestHint, update}
use microx.State.Lives.{IsLive, Lives, Lives-if, Lives-done, Lives->>, live_rules}
use microx.Registers.{widest_register}
use microx.Registers.Lives.{update-true, read_register-Lives}
use microx.Operands.{
  is_memory, read_registers_mem_op, read_address_registers, read_operand, read_operands,
  read_registers,
}
use microx.Flags.{
  flag_order, read_mask, read_flag_list, read_flags_of, read_flags, mark_flags, write_flag_list,
  write_flags,
}

module _ {W : Type 0} (x : Xed) (e : Executor W) {pc : ℕ} where
  read_registers_mem_op-Lives : (inst : Inst) (i : ℕ) → Lives pc (read_registers_mem_op x e inst i)
  unfolding read_registers_mem_op
  read_registers_mem_op-Lives inst i = search (live_rules, read_register-Lives x e)

  read_address_registers-Lives :
      (inst : Inst) (ops : List Operand) (i : ℕ) → Lives pc (read_address_registers x e inst ops i)
  unfolding read_address_registers
  read_address_registers-Lives inst [] i = Lives-done
  read_address_registers-Lives inst (op ∷ ops) i =
      Lives-if (is_memory op.name)
        (Lives->> (read_registers_mem_op-Lives inst i)
          (read_address_registers-Lives inst ops (i + 1)))
        (read_address_registers-Lives inst ops i)

  read_operand-Lives :
      (inst : Inst) (name : OperandName) (hint : RegRequestHint)
      → Lives pc (read_operand x e inst name hint)
  unfolding read_operand
  read_operand-Lives inst name hint = search (live_rules, read_register-Lives x e)

  read_operands-Lives :
      (written : Bool) (hint : RegRequestHint) (inst : Inst) (ops : List Operand)
      → Lives pc (read_operands x e written hint inst ops)
  unfolding read_operands
  read_operands-Lives written hint inst [] = Lives-done
  read_operands-Lives written hint inst (op ∷ ops) =
      Lives->>
        (Lives-if (differs written op.written) Lives-done (read_operand-Lives inst op.name hint))
        (read_operands-Lives written hint inst ops)

  pub read_registers-Lives : Lives pc (read_registers x e)
  unfolding read_registers
  read_registers-Lives = search (live_rules, read_address_registers-Lives, read_operands-Lives)

  mark_flags-IsLive :
      (info : SimpleFlag) (g : Globals) → IsLive pc g → IsLive pc (mark_flags x e info g)
  mark_flags-IsLive info g i = record {
    initialized = i.initialized;
    in_use = update-true g.used_regs (widest_register x e x.eflags) pc i.in_use;
  }

  read_flags_of-Lives : (h : Host) (info : Option SimpleFlag) → Lives pc (read_flags_of x e h info)
  unfolding read_flags_of
  read_flags_of-Lives h none = record {
    lives = λ s i. record { initialized = i.initialized; in_use = i.in_use };
  }
  read_flags_of-Lives h (some info) = record {
    lives = λ s i.
        let marked = mark_flags-IsLive info s.globals i in
        elim (Bool-cases
          (read_flag_list x e flag_order (read_mask x e info) h.native_flags 0 s.env).0) [
            | inl y ↦ rw y (record { initialized = marked.initialized; in_use = marked.in_use })
            | inr n ↦ rw n marked
          ];
  }

  pub read_flags-Lives : (h : Host) → Lives pc (read_flags x e h)
  unfolding read_flags
  read_flags-Lives h = record {
    lives = λ s i. (read_flags_of-Lives h s.globals.xedd.rflags_info).lives s i;
  }

  pub write_flags-Lives : (pc == widest_register x e x.eflags) ≡ false → Lives pc (write_flags x e)
  unfolding write_flags
  write_flags-Lives other = record {
    lives = λ s i.
        let flags_reg = widest_register x e x.eflags in
        let in_use' : update s.globals.used_regs flags_reg false pc ≡ true = rw other i.in_use in
        elim (Bool-cases (s.globals.modified_regs flags_reg)) [
          | inr n ↦ rw n i
          | inl y ↦
              elim (Bool-cases
                (write_flag_list x e flag_order s.globals.write_back_flags
                  (low_bits 64 (s.globals.regs x.rflags)) 0 s.env).0) [
                    | inl passed ↦
                        rw (y, passed) (record { initialized = i.initialized; in_use = in_use' })
                    | inr failed ↦
                        rw (y, failed) (record { initialized = i.initialized; in_use = in_use' })
                  ]
        ];
  }
