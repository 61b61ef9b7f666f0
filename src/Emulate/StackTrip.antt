-- ===== src/Emulate/StackTrip.antt =====
-- A value that one instruction of `Emulate` (`microx/Executor.cpp`) puts on the stack and the next one
-- takes off: `WriteMemory` hands it to the client, and `ReadMemory` gets it back.
mod Tests
use microx.Base.{
  ℕ, ◌+◌, ◌/◌, ◌^◌, ◌<◌, ◌≡◌, ◌≢◌, refl, sym, ap, ◌∙◌, Bool, true, low_bits, add64, sub64, arith,
}
use microx.Xed.{Xed, Inst, Operand}
use microx.State.{Globals, Executor, State}
use microx.Registers.{read_gpr, write_gpr}
use microx.Registers.Gpr.{
  HighBytes, read_gpr-write_gpr_ne, read_gpr-regs, read_gpr-fits, write_gpr-memory0,
}
use microx.MemoryOps.Forms.{below_stack, no_adjustment}
use microx.MemoryOps.{read_memory_operand, write_memory_operand}
use microx.MemoryOps.Address.{IsDefault, read_memory_operand-below_stack}
use microx.MemoryOps.Stored.{
  KeepsMemory, IsOnStack, pushing_operand, popping_operand, writing_operand,
}
use microx.Emulate.Machine.{handled, Locals, mem0, set_mem0, add_gpr, sub_gpr}
use microx.Emulate.Branch.{call_rel, ret}
use microx.Emulate.Stack.{push_gpr, pop_gpr}
use microx.Emulate.StackLaws.{pushed_pointer, pushed_data, stored_is_read, down_and_up}
use microx.Emulate.PushAddress.{operand_read, read_memory_operand-regs}

low_twice : (n : ℕ) → low_bits 64 (low_bits 64 n) ≡ low_bits 64 n
low_twice n = omega arith

module _ {W : Type 0} (x : Xed) (e : Executor W) where
  -- The state in which `WriteMemory` runs, after an instruction with an operand that was read.
  abbrev pub emulated : Operand → State W → Globals → State W
  emulated op s g' = record { globals = g'; env = (read_memory_operand x e op 0 s).1.env }

  -- The next instruction, with its operand read, after the operand of this one was written.
  abbrev pub next_read : Inst → Operand → State W → Bool × State W
  next_read inst op t =
      let written = (write_memory_operand x e 0 t).1 in
      read_memory_operand x e op 0 (record written {
        globals = record (written.globals) { xedd = inst; operand_width = inst.operand_width };
      })

  -- Two instructions of 64 bits on the stack, one after the other.
  pub record IsPair (sp : ℕ) (op op' : Operand) (inst' : Inst) (s : State W) : Type 0 where
    pub high_bytes : HighBytes x
    pub default_address : IsDefault e
    pub keeps : KeepsMemory e
    pub pointer_width : x.width_bits64 sp ≡ 64
    pub operand_bits : s.globals.operand_width ≡ 64
    pub first : IsOnStack x sp below_stack op s.globals.xedd s.globals
    pub is_written : op.written ≡ true
    pub second : IsOnStack x sp no_adjustment op' inst' s.globals

  module _ (sp : ℕ) (op op' : Operand) (inst' : Inst) (s : State W) (i : IsPair sp op op' inst' s)
      (v : ℕ) (fits : v < 2 ^ 64) where
    -- After `Emulate` has stored a value in the operand and moved the stack pointer.
    abbrev stacked : Globals
    stacked = sub_gpr x sp 8 (set_mem0 v (operand_read x e op s))

    stacked-memory : stacked.memory0 ≡ (set_mem0 v (operand_read x e op s)).memory0
    stacked-memory = write_gpr-memory0 x sp _ (set_mem0 v (operand_read x e op s))

    stacked-regs : (operand_read x e op s).regs ≡ s.globals.regs
    stacked-regs = read_memory_operand-regs x e op s i.first.adjusted

    stacked-pointer : read_gpr x sp stacked ≡ sub64 (read_gpr x sp s.globals) 8
    stacked-pointer =
        pushed_pointer x i.high_bytes sp i.pointer_width 8 v (operand_read x e op s)
        ∙ ap (λ p. sub64 p 8) (read_gpr-regs x sp s.globals (operand_read x e op s) stacked-regs)

    stacked-address : stacked.memory0.address ≡ read_gpr x sp stacked
    stacked-address =
        ap (λ m. m.address) stacked-memory
        ∙ read_memory_operand-below_stack x e op 0 s i.default_address i.first.address_width
            i.first.adjusted (rw (i.first.base) i.first.not_pc) i.first.no_index
            i.first.no_displacement
        ∙ ap (λ r. sub64 (read_gpr x r s.globals) (s.globals.operand_width / 8)) i.first.base
        ∙ ap (λ w. sub64 (read_gpr x sp s.globals) (w / 8)) i.operand_bits
        ∙ sym stacked-pointer

    stacked-index : read_gpr x (inst'.index_reg 0) stacked ≡ 0
    stacked-index =
        read_gpr-write_gpr_ne x sp (inst'.index_reg 0) _ (set_mem0 v (operand_read x e op s))
          i.second.index_apart
        ∙ read_gpr-regs x (inst'.index_reg 0) s.globals (set_mem0 v (operand_read x e op s))
            stacked-regs
        ∙ i.second.no_index

    second_later :
        {g : Globals}
        → read_gpr x (inst'.index_reg 0) g ≡ 0
        → IsOnStack x sp no_adjustment op' inst' g
    second_later index = record {
      adjusted = i.second.adjusted;
      address_width = i.second.address_width;
      base = i.second.base;
      not_pc = i.second.not_pc;
      no_index = index;
      index_apart = i.second.index_apart;
      no_displacement = i.second.no_displacement;
      eight_bytes = i.second.eight_bytes;
      is_memory = i.second.is_memory;
    }

    -- The write and the read succeed, the second instruction's operand is the value, and it runs with
    -- the registers that the first one leaves.
    stack_carries :
        let (passed, _) = write_memory_operand x e 0 (emulated op s stacked) in
        let (passed', s') = next_read inst' op' (emulated op s stacked) in
        (passed ≡ true)
        × (passed' ≡ true)
        × (mem0 s'.globals ≡ v)
        × (s'.globals.regs ≡ stacked.regs)
    stack_carries =
        let (present, back, size) = pushing_operand x e op sp s i.first i.is_written in
        let t = emulated op s stacked in
        let (passed, same, answers) =
          writing_operand x e t i.keeps (ap (λ m. m.present) stacked-memory ∙ present)
            (ap (λ m. m.write_back) stacked-memory ∙ back)
            (ap (λ m. m.size) stacked-memory ∙ size) in
        let written = (write_memory_operand x e 0 t).1 in
        let next : State W = record written {
          globals = record (written.globals) { xedd = inst'; operand_width = inst'.operand_width };
        } in
        let regs : next.globals.regs ≡ stacked.regs = ap (λ g. g.regs) same in
        let pointer = stacked-address ∙ sym (read_gpr-regs x sp stacked next.globals regs) in
        let index = read_gpr-regs x (inst'.index_reg 0) stacked next.globals regs ∙ stacked-index in
        let (passed', contents, kept) =
          popping_operand x e op' sp (low_bits 64 stacked.memory0.contents) next i.default_address
            (second_later index)
            (λ hint. ap (λ a. e.read_mem a 64 hint 0 written.env) (sym pointer) ∙ answers hint) in
        (
          passed,
          passed',
          ap (low_bits 64) contents
              ∙ low_twice stacked.memory0.contents
              ∙ pushed_data x i.high_bytes sp i.pointer_width 8 v (operand_read x e op s) fits,
          kept ∙ regs,
        )

-- A push of a register, and a pop into another register of 64 bits as the next instruction: the write
-- of the push's operand and the read of the pop's succeed, the register that is popped into gets the
-- value that was pushed, and the stack pointer is what it was before. Both instructions have 64 bits,
-- and operands on the stack as XED describes them; the pop runs with the register file that the push
-- leaves. The client does not override `ComputeAddress`, and it keeps what is written to its memory.
-- The high byte registers have 8 bits.
pub pop_gpr-push_gpr :
    {W : Type 0} (x : Xed) (e : Executor W) (op op' : Operand) (inst' : Inst) (l : Locals)
    (dest next : ℕ) (s : State W)
    → IsPair x e l.stack_reg op op' inst' s
    → l.op_size_bytes ≡ 8
    → x.width_bits64 dest ≡ 64
    → x.enclosing dest ≢ x.enclosing l.stack_reg
    → (g' : Globals) × (g'' : Globals) × (push_gpr x l (operand_read x e op s)
        ≡ handled g' l.next_pc)
      × ((write_memory_operand x e 0 (emulated x e op s g')).0 ≡ true)
      × ((next_read x e inst' op' (emulated x e op s g')).0 ≡ true)
      × (pop_gpr x
            (record l { r0 = dest; next_pc = next })
            (next_read x e inst' op' (emulated x e op s g')).1.globals
          ≡ handled g'' next)
      × (read_gpr x dest g'' ≡ read_gpr x l.r0 s.globals)
      × (read_gpr x l.stack_reg g'' ≡ read_gpr x l.stack_reg s.globals)
unfolding push_gpr pop_gpr
pop_gpr-push_gpr x e op op' inst' l dest next s i eight wide apart =
    let sp = l.stack_reg in
    let v = read_gpr x l.r0 (operand_read x e op s) in
    let fits = read_gpr-fits x l.r0 (operand_read x e op s) in
    let pushed = stacked x e sp op op' inst' s i v fits in
    let (written, was_read, value, regs) = stack_carries x e sp op op' inst' s i v fits in
    let g = (next_read x e inst' op' (emulated x e op s pushed)).1.globals in
    let loaded = write_gpr x dest (mem0 g) g in
    let popped = add_gpr x sp 8 loaded in
    (
      pushed,
      popped,
      ap (λ n. handled (sub_gpr x sp n (set_mem0 v (operand_read x e op s))) l.next_pc) eight,
      written,
      was_read,
      ap (λ n. handled (add_gpr x sp n loaded) next) eight,
      read_gpr-write_gpr_ne x sp dest (add64 (read_gpr x sp loaded) 8) loaded apart
          ∙ stored_is_read x i.high_bytes dest wide (mem0 g) g (omega arith)
          ∙ value
          ∙ read_gpr-regs x l.r0 s.globals (operand_read x e op s)
              (stacked-regs x e sp op op' inst' s i v fits),
      down_and_up x i.high_bytes sp i.pointer_width 8 8 s.globals loaded refl (
          read_gpr-write_gpr_ne x dest sp (mem0 g) g (λ e. apart (sym e))
          ∙ read_gpr-regs x sp pushed g regs
          ∙ stacked-pointer x e sp op op' inst' s i v fits),
    )

-- A call, and a return as the next instruction: the write of the call's operand and the read of the
-- return's succeed, the return goes to the instruction after the call, and the stack pointer is what
-- it was before the call. Both instructions have 64 bits, and operands on the stack as XED describes
-- them; the return runs with the register file that the call leaves. The client does not override
-- `ComputeAddress`, and it keeps what is written to its memory. The high byte registers have 8 bits.
pub ret-call_rel :
    {W : Type 0} (x : Xed) (e : Executor W) (op op' : Operand) (inst' : Inst) (l : Locals)
    (s : State W)
    → IsPair x e l.stack_reg op op' inst' s
    → l.addr_size_bytes ≡ 8
    → l.next_pc < 2 ^ 64
    → (g' : Globals) × (g'' : Globals) × (call_rel x l (operand_read x e op s)
        ≡ handled g' l.branch_target_pc)
      × ((write_memory_operand x e 0 (emulated x e op s g')).0 ≡ true)
      × ((next_read x e inst' op' (emulated x e op s g')).0 ≡ true)
      × (ret x 0 l (next_read x e inst' op' (emulated x e op s g')).1.globals
          ≡ handled g'' l.next_pc)
      × (read_gpr x l.stack_reg g'' ≡ read_gpr x l.stack_reg s.globals)
unfolding call_rel ret
ret-call_rel x e op op' inst' l s i eight fits =
    let sp = l.stack_reg in
    let called = stacked x e sp op op' inst' s i l.next_pc fits in
    let (written, was_read, value, regs) = stack_carries x e sp op op' inst' s i l.next_pc fits in
    let g = (next_read x e inst' op' (emulated x e op s called)).1.globals in
    (
      called,
      add_gpr x sp 8 g,
      ap
          (λ n.
            handled (sub_gpr x sp n (set_mem0 l.next_pc (operand_read x e op s)))
              l.branch_target_pc)
          eight,
      written,
      was_read,
      ap (λ n. handled (add_gpr x sp (n + 0) g) (mem0 g)) eight
          ∙ ap (handled (add_gpr x sp 8 g)) value,
      down_and_up x i.high_bytes sp i.pointer_width 8 8 s.globals g refl (
          read_gpr-regs x sp called g regs
          ∙ stacked-pointer x e sp op op' inst' s i l.next_pc fits),
    )
