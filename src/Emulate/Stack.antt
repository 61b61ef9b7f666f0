-- ===== src/Emulate/Stack.antt =====
-- The stack and data-movement cases of `Emulate` (`microx/Executor.cpp`).
use microx.Base.{◌/◌, ◌^◌, u32, low_bits, store_bits}
use microx.Xed.{Xed}
use microx.State.{Globals, update}
use microx.Registers.{read_gpr, write_gpr, read_value}
use microx.Emulate.Machine.{
  Emulated, handled, Locals, mem0, mem1, set_mem0, set_mem1, add_gpr, sub_gpr,
}

module _ (x : Xed) where
  abbrev stay : Locals → Globals → Emulated
  stay l g = handled g l.next_pc

  unfoldable pub lea : Locals → Globals → Emulated
  lea l g = stay l (write_gpr x l.r0 g.memory0.address g)

  unfoldable pub push_mem : Locals → Globals → Emulated
  push_mem l g = stay l (sub_gpr x l.stack_reg l.op_size_bytes (set_mem1 (mem0 g) g))

  unfoldable pub push_gpr : Locals → Globals → Emulated
  push_gpr l g = stay l (sub_gpr x l.stack_reg l.op_size_bytes (set_mem0 (read_gpr x l.r0 g) g))

  unfoldable pub push_imm : Locals → Globals → Emulated
  push_imm l g = stay l (sub_gpr x l.stack_reg l.op_size_bytes (set_mem0 (u32 l.simm0) g))

  unfoldable pub pop_mem : Locals → Globals → Emulated
  pop_mem l g = stay l (add_gpr x l.stack_reg l.op_size_bytes (set_mem0 (mem1 g) g))

  unfoldable pub pop_gpr : Locals → Globals → Emulated
  pop_gpr l g = stay l (add_gpr x l.stack_reg l.op_size_bytes (write_gpr x l.r0 (mem0 g) g))

  unfoldable pub leave : Locals → Globals → Emulated
  leave l g =
      let g' = write_gpr x l.r1 (read_gpr x l.r0 g) g in stay l (write_gpr x l.r0 (mem0 g') g')

  unfoldable pub push_seg : Locals → Globals → Emulated
  push_seg l g = stay l (sub_gpr x l.stack_reg l.addr_size_bytes (set_mem0 (read_gpr x l.r0 g) g))

  unfoldable pub pop_seg : Locals → Globals → Emulated
  pop_seg l g = stay l (add_gpr x l.stack_reg l.addr_size_bytes (write_gpr x l.r0 (mem0 g) g))

  unfoldable pub store_reg : Locals → Globals → Emulated
  store_reg l g = stay l (set_mem0 (read_gpr x l.r0 g) g)

  unfoldable pub move_reg : Locals → Globals → Emulated
  move_reg l g = stay l (write_gpr x l.r0 (read_gpr x l.r1 g) g)

  unfoldable pub load_reg : Locals → Globals → Emulated
  load_reg l g = stay l (write_gpr x l.r0 (mem0 g) g)

  unfoldable pub pushf : Locals → Globals → Emulated
  pushf l g =
      stay l (sub_gpr x l.stack_reg l.addr_size_bytes (set_mem0 (low_bits 64 (g.regs x.rflags)) g))

  unfoldable pub popf : Locals → Globals → Emulated
  popf l g =
      let g' = record g {
        regs = update g.regs x.rflags (store_bits 64 (mem0 g) (g.regs x.rflags));
      } in
      stay l (add_gpr x l.stack_reg l.addr_size_bytes g')

  unfoldable pub rdtsc : Locals → Globals → Emulated
  rdtsc l g =
      let tsc = read_value x 64 x.tsc g in
      stay l (write_gpr x l.r1 (tsc / 2 ^ 32) (write_gpr x l.r0 (u32 tsc) g))

  -- Falls through to RDTSC.
  unfoldable pub rdtscp : Locals → Globals → Emulated
  unfolding rdtsc
  rdtscp l g = rdtsc l (write_gpr x l.r2 (read_value x 32 x.tscaux g) g)
