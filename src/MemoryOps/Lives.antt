-- ===== src/MemoryOps/Lives.antt =====
-- `ReadMemory` and `WriteMemory` (`microx/Executor.cpp`), and the register that stays in use.
use microx.Base.{ℕ, ◌%◌, List, [], ◌∷◌, not, ◌||◌, ◌==◌, Bool-cases, inl, inr}
use microx.Xed.{Xed, Operand, OperandName, agen, mem0, mem1, reg0}
use microx.State.{Globals, Memory, Executor}
use microx.State.Lives.{IsLive, Lives, Lives-done, Lives-modify, live_rules}
use microx.Registers.{read_gpr}
use microx.Registers.Lives.{write_gpr-IsLive}
use microx.MemoryOps.Forms.{
  Adjustment, below_stack, popped_base, bit_operand, no_adjustment, BitSource, from_immediate,
  from_register, no_source, bit_source,
}
use microx.MemoryOps.{
  memory_at, set_memory_at, bit_op_byte_offset, get_bit_op_byte_offset, adjust, prepare_memory,
  is_agen, fetch_memory, read_memory_operand, read_memory_named, read_memory_operands, read_memory,
  write_memory_operand, write_memory, clear_memory,
}

module _ {W : Type 0} (x : Xed) (e : Executor W) {pc : ℕ} where
  set_memory_at-IsLive :
      (i : ℕ) (m : Memory) (g : Globals) → IsLive pc g → IsLive pc (set_memory_at i m g)
  set_memory_at-IsLive i m g l = elim (Bool-cases (i == 0)) [
    | inl y ↦ rw y (record { initialized = l.initialized; in_use = l.in_use })
    | inr n ↦ rw n (record { initialized = l.initialized; in_use = l.in_use })
  ]

  bit_op_byte_offset-IsLive :
      (source : BitSource) (g : Globals) → IsLive pc g → IsLive pc (bit_op_byte_offset x source g).1
  unfolding bit_op_byte_offset
  bit_op_byte_offset-IsLive from_immediate g l = record {
    initialized = l.initialized;
    in_use = l.in_use;
  }
  bit_op_byte_offset-IsLive from_register g l =
      write_gpr-IsLive x (g.xedd.get_reg reg0)
        (read_gpr x (g.xedd.get_reg reg0) g % g.operand_width) g l
  bit_op_byte_offset-IsLive no_source g l = l

  adjust-IsLive :
      (a : Adjustment) (base_reg disp : ℕ) (g : Globals)
      → IsLive pc g
      → IsLive pc (adjust x a base_reg disp g).1
  unfolding adjust get_bit_op_byte_offset
  adjust-IsLive below_stack base_reg disp g l = l
  adjust-IsLive popped_base base_reg disp g l = l
  adjust-IsLive bit_operand base_reg disp g l =
      bit_op_byte_offset-IsLive (bit_source g.xedd.iform) g l
  adjust-IsLive no_adjustment base_reg disp g l = l

  prepare_memory-IsLive :
      (op : Operand) (i : ℕ) (g : Globals) → IsLive pc g → IsLive pc (prepare_memory x op i g)
  unfolding prepare_memory
  prepare_memory-IsLive op i g l = set_memory_at-IsLive i _ _ (adjust-IsLive _ _ _ g l)

  fetch_memory-Lives : (op : Operand) (i : ℕ) → Lives pc (fetch_memory x e op i)
  unfolding fetch_memory
  fetch_memory-Lives op i = record {
    lives = λ s l. elim (Bool-cases (is_agen op.name)) [
      | inl y ↦ rw y (set_memory_at-IsLive i _ s.globals l)
      | inr n ↦ rw n (set_memory_at-IsLive i _ s.globals l)
    ];
  }

  read_memory_operand-Lives : (op : Operand) (i : ℕ) → Lives pc (read_memory_operand x e op i)
  unfolding read_memory_operand
  read_memory_operand-Lives op i =
      search (live_rules, Lives-modify, prepare_memory-IsLive, fetch_memory-Lives)

  read_memory_named-Lives :
      (name : OperandName) (op : Operand) → Lives pc (read_memory_named x e name op)
  read_memory_named-Lives agen op = read_memory_operand-Lives op 0
  read_memory_named-Lives mem0 op = read_memory_operand-Lives op 0
  read_memory_named-Lives mem1 op = read_memory_operand-Lives op 1
  read_memory_named-Lives _ op = Lives-done

  read_memory_operands-Lives : (ops : List Operand) → Lives pc (read_memory_operands x e ops)
  unfolding read_memory_operands
  read_memory_operands-Lives [] = Lives-done
  read_memory_operands-Lives (op ∷ ops) =
      search (live_rules, read_memory_named-Lives op.name op, read_memory_operands-Lives ops)

  clear_memory-IsLive : (g : Globals) → IsLive pc g → IsLive pc (clear_memory x e g)
  clear_memory-IsLive g l = record { initialized = l.initialized; in_use = l.in_use }

  pub read_memory-Lives : Lives pc (read_memory x e)
  unfolding read_memory
  read_memory-Lives =
      search (live_rules, Lives-modify, clear_memory-IsLive, read_memory_operands-Lives)

  write_memory_operand-Lives : (i : ℕ) → Lives pc (write_memory_operand x e i)
  unfolding write_memory_operand
  write_memory_operand-Lives i = record {
    lives = λ s l.
        let m = memory_at i s.globals in
        elim (Bool-cases (not m.present || not m.write_back)) [ inl y ↦ rw y l | inr n ↦ rw n l ];
  }

  pub write_memory-Lives : Lives pc (write_memory x e)
  unfolding write_memory
  write_memory-Lives = search (live_rules, write_memory_operand-Lives)
