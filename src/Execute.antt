-- ===== src/Execute.antt =====
-- `Executor::Execute` (`microx/Executor.cpp`): one instruction after the other, each by the same
-- sequence of steps, the first failing one of which gives the status that is returned.
pub mod Support
pub mod Mmx
pub mod MmxTrip
pub mod ReadOnly
pub mod Fetch
pub mod Served
pub mod ServedMemory
pub mod Clears
pub mod Blame
pub mod Splits
pub mod Unread
pub mod Composition
pub mod LastWrite
pub mod Ends
pub mod Telling
pub mod Told
pub mod Progress
pub mod Lives
mod Tests
use microx.Base.{
  ℕ, zero, suc, ◌*◌, ◌==◌, Bool, true, false, not, if◌then◌else◌, store_bits, Option, none, some,
}
use microx.Xed.{Xed, Inst, Category}
use microx.Host.{Host, Signal, no_signal, sigsegv, sigbus, sigfpe, sigill, other_signal}
use microx.State.{
  Globals, Executor, State, Act, update, read_executable, ExecutorStatus, good,
  error_not_initialized, error_decode, error_unsupported_features, error_execute, error_fault,
  error_floating_point_exception, error_read_flags, error_write_flags, error_read_reg,
  error_write_reg, error_read_mem, error_read_inst_mem, error_write_mem, error_read_fpu,
  error_write_fpu,
}
use microx.Registers.{write_registers}
use microx.Flags.{read_flags, write_flags}
use microx.Operands.{read_pc, read_registers}
use microx.MemoryOps.{read_memory, write_memory}
use microx.Encode.{encode_instruction}
use microx.Emulate.Machine.{Emulated, handled, rejected, native, get_pc, get_next_pc}
use microx.Emulate.Dispatch.{emulate}
use microx.Execute.Support.{uses_unsupported_features, is_nop}
use microx.Execute.Mmx.{copy_mmx_state_to_fpu, copy_mmx_state_from_fpu}

-- The status that is returned, and the state.
abbrev pub Run : Type 0 → Type 0
Run W = State W → ExecutorStatus × State W

module _ {W : Type 0} where
  -- `if (!m) return status;` and then `k`.
  unfoldable pub or_return : Act W → ExecutorStatus → Run W → Run W
  or_return m status k s = let (passed, s') = m s in if passed then k s' else (status, s')

  unfoldable pub on_globals : (Globals → Globals) → Run W → Run W
  on_globals f k s = k (record s { globals = f s.globals })

  -- `switch (gSignal)`.
  unfoldable pub check_signal : Signal → Run W → Run W
  check_signal no_signal k s = k s
  check_signal sigsegv k s = (error_fault, s)
  check_signal sigbus k s = (error_fault, s)
  check_signal sigfpe k s = (error_floating_point_exception, s)
  check_signal sigill k s = (error_execute, s)
  check_signal other_signal k s = (error_execute, s)

-- The resets at the head of the loop.
unfoldable pub reset : Xed → Globals → Globals
reset x g = record g {
  used_regs = λ _. false;
  modified_regs = λ _. false;
  store_regs = λ _. false;
  stack_ptr_alias = x.invalid;
  uses_fpu = false;
  uses_mmx = false;
}

-- `SetNextPC`.
unfoldable pub set_next_pc : Xed → ℕ → Globals → Globals
set_next_pc x next_pc g = record g {
  regs = update g.regs x.rip (store_bits 64 next_pc (g.regs x.rip));
}

-- `clear` forgets the errors that the client raised in a failing read of instruction bytes, as the
-- Python bindings ask; it is the identity without them.
module _ {W : Type 0} (x : Xed) (h : Host) (e : Executor W) (clear : W → W) where
  -- The loop that fetches: from so many bytes on down, until a read succeeds.
  unfoldable pub fetch : ℕ → ℕ → ℕ → W → ℕ × ℕ × W
  fetch zero pc idata env = (0, idata, env)
  fetch (suc n) pc idata env =
      let (passed, val, env') = e.read_mem pc (suc n * 8) read_executable idata env in
      let shorter = fetch n pc val (clear env') in if passed then (suc n, val, env') else shorter

  unfoldable pub with_inst : Option Inst → Run W → Run W
  with_inst none k s = (error_decode, s)
  with_inst (some inst) k s = k (record s {
    globals = record (s.globals) { xedd = inst; operand_width = inst.operand_width };
  })

  -- The local `idata` of `Execute` is passed in, and on to what follows.
  unfoldable pub fetch_and_decode : ℕ → (ℕ → Run W) → Run W
  fetch_and_decode old k s =
      let (pc, env) = e.compute_address "CS" (get_pc x e s.globals) 0 0 0 8 read_executable s.env in
      let (len, idata, env') = fetch 15 pc old env in
      let s' = record s { env = env' } in
      if len == 0
      then (error_read_inst_mem, s')
      else with_inst (x.decode (e.addr_size == 32) idata len) (k idata) s'

  -- `ReadFPU` and `WriteFPU`, if the FPU is used.
  unfoldable pub read_fpu : Act W
  read_fpu s =
      let (passed, fpu, env) = e.read_fpu s.globals.fpu s.env in
      if s.globals.uses_fpu
      then (passed, record s { globals = record (s.globals) { fpu = fpu }; env = env })
      else (true, s)

  unfoldable pub write_fpu : Act W
  write_fpu s =
      let (passed, env) = e.write_fpu s.globals.fpu s.env in
      if s.globals.uses_fpu then (passed, record s { env = env }) else (true, s)

  -- With AVX or AVX512 native execution is not implemented, and ends as an illegal instruction.
  unfoldable pub run_native : Globals → Signal × Globals
  run_native g =
      if e.has_avx512
      then (sigill, h.pass_fpu g)
      else if e.has_avx
      then (sigill, h.pass_fpu g)
      else h.execute_native g

  unfoldable pub encode_act : Act W
  encode_act s =
      let (passed, g) = encode_instruction x h s.globals in (passed, record s { globals = g })

  unfoldable pub native_act : Run W → Run W
  native_act k s =
      let (signal, g) = run_native s.globals in check_signal signal k (record s { globals = g })

  -- From the outcome of `Emulate` on to the memory write.
  unfoldable pub after_emulate : Emulated → (ℕ → Run W) → Run W
  after_emulate (handled g next_pc) k s = k next_pc (record s { globals = g })
  after_emulate (rejected status) k s = (status, s)
  after_emulate (native next_pc) k s = or_return encode_act error_execute (native_act (k next_pc)) s

  -- Memory first, so that a failing instruction leaves no effect on memory.
  unfoldable pub write_effects : (ℕ → Run W) → ℕ → Run W
  write_effects k next_pc = or_return (write_memory x e) error_write_mem (
      or_return write_fpu error_write_fpu
        (on_globals (λ g. if g.uses_mmx then copy_mmx_state_from_fpu x g else g) (k next_pc)))

  unfoldable pub perform : (ℕ → Run W) → ℕ → Run W
  perform k next_pc = or_return read_fpu error_read_fpu (
      on_globals (λ g. if g.uses_mmx then copy_mmx_state_to_fpu x g else g)
        (or_return (read_memory x e) error_read_mem
          (λ s. after_emulate (emulate x h e next_pc s.globals) (write_effects k) s)))

  -- Flags, program counter, registers.
  unfoldable pub finish : ℕ → Run W → Run W
  finish next_pc k =
      or_return (write_flags x e) error_write_flags
        (on_globals (set_next_pc x next_pc) (or_return (write_registers x e) error_write_reg k))

  -- The body of the loop after the decoding.
  unfoldable pub execute_decoded : Run W → Run W
  execute_decoded k s =
      if uses_unsupported_features e s.globals.xedd
      then (error_unsupported_features, s)
      else or_return (read_flags x e h) error_read_flags
          (or_return (read_registers x e) error_read_reg (λ s'.
            let next_pc = get_next_pc x e s'.globals in
            if is_nop s'.globals.xedd.category
            then finish next_pc k s'
            else perform (λ pc. finish pc k) next_pc s'))
          s

  unfoldable pub execute_one : ℕ → (ℕ → Run W) → Run W
  execute_one old k = on_globals (reset x) (
      or_return (read_pc x e) error_read_reg
        (fetch_and_decode old (λ idata. execute_decoded (k idata))))

  unfoldable pub execute_loop : ℕ → ℕ → Run W
  execute_loop zero idata s = (good, s)
  execute_loop (suc n) idata s = execute_one idata (execute_loop n) s

  unfoldable pub execute : ℕ → Run W
  execute n s =
      if n == 0
      then (good, s)
      else if not s.globals.is_initialized
      then (error_not_initialized, s)
      else execute_loop n h.uninitialized_data s
