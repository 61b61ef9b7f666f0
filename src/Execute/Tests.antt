-- ===== src/Execute/Tests.antt =====
-- The theorems on whole executions at concrete inputs.
use microx.Base.{ℕ, ◌+◌, ◌-◌, ◌%◌, ◌^◌, ◌==◌, ◌≤◌, true, false, arith, leb, ◌≡◌, refl, ap}
use microx.Xed.{Xed}
use microx.State.{Globals, Executor, error_read_mem, ◌>>◌, done, modify, reading}
use microx.Registers.{read_register, widest_register, read_gpr_register, request_register}
use microx.Flags.{read_flags}
use microx.Operands.{
  is_memory, is_register, read_pc, read_registers, read_address_registers, read_operands,
  read_operand, read_registers_mem_op,
}
use microx.MemoryOps.Forms.{adjustment0}
use microx.MemoryOps.{
  read_memory, read_memory_operands, read_memory_operand, prepare_memory, fetch_memory, adjust,
  is_agen, memory_hint,
}
use microx.Execute.Support.{uses_unsupported_features, is_nop}
use microx.State.Keeps.{ReadsKeep}
use microx.Execute.{
  execute, execute_loop, execute_one, on_globals, or_return, reset, fetch_and_decode, fetch,
  with_inst, execute_decoded, perform,
}
use microx.Execute.Fetch.{IsLongest, fetch-IsLongest}
use microx.Execute.ReadOnly.{is_early, execute_failure_keeps}
use microx.Execute.Mmx.{copy_mmx_state_to_fpu, copy_mmx_state_from_fpu}
use microx.Execute.MmxTrip.{mmx_state-trip}
use microx.State.Serves.{ServesCalls}
use microx.Execute.Clears.{is_client_error}
use microx.Execute.Blame.{execute-serves}
use microx.Fixture.{xed, client, host, state}

-- Nothing has been written.
no_writes : ReadsKeep (λ w. w ≡ 0) client (λ w. w)
no_writes = record {
  compute_address_keeps = λ seg b i sc d sz h w k. k;
  read_reg_keeps = λ name size h val w k. k;
  read_mem_keeps = λ a size h val w k. k;
  read_fpu_keeps = λ val w k. k;
  clear_keeps = λ w k. k;
}

-- The stack cannot be read.
fails : (execute xed host client (λ w. w) 1 state).0 ≡ error_read_mem
unfolding execute execute_loop execute_one on_globals or_return read_pc ◌>>◌ modify done reading
    read_register widest_register read_gpr_register request_register reset fetch_and_decode fetch
    with_inst execute_decoded uses_unsupported_features microx.Execute.Support.unsupported_category
    read_flags microx.Flags.read_flags_of read_registers read_address_registers read_operands
    read_operand read_registers_mem_op is_register is_memory perform microx.Execute.read_fpu is_nop
    read_memory read_memory_operands read_memory_operand prepare_memory fetch_memory adjust
    adjustment0 is_agen memory_hint
fails = refl

execute_failure_keeps_example : (execute xed host client (λ w. w) 1 state).1.env ≡ 0
execute_failure_keeps_example =
    execute_failure_keeps (λ w. w ≡ 0) xed host client (λ w. w) no_writes state refl
      (ap is_early fails)

-- Four bytes can be read.
abbrev at_the_end : Executor ℕ
at_the_end = record client { read_mem = λ addr size hint val w. (leb size 32, 0, w) }

fetch-IsLongest_example :
    IsLongest (λ size. leb size 32) 15 (fetch xed host at_the_end (λ w. w) 15 0x100 0 0).0
fetch-IsLongest_example =
    fetch-IsLongest xed host at_the_end (λ w. w) (λ size. leb size 32) 0x100 (λ size val w. refl) 15
      0 0

-- Every second MMX register is in use, and every register is full of ones.
abbrev mmx_machine : Xed
mmx_machine = record xed { mmx_reg = λ i. 160 + i }

abbrev half_used : Globals
half_used = record (state.globals) { used_regs = λ r. r % 2 == 0; regs = λ r. 2 ^ 512 - 1 }

mmx_state-trip_example :
    (copy_mmx_state_from_fpu mmx_machine (copy_mmx_state_to_fpu mmx_machine half_used)).regs 162
    ≡ half_used.regs 162
mmx_state-trip_example = mmx_state-trip mmx_machine half_used 162

-- Every read and write succeeds.
abbrev willing : Executor ℕ
willing = record client { read_mem = λ addr size hint val w. (true, 0x90, w) }

willing_serves : ServesCalls (λ w. 0 ≤ w) willing (λ w. w)
willing_serves = record {
  serves_address = λ seg b i sc d sz h w k. k;
  serves_read_reg = λ name size h val w k. (refl, k);
  serves_write_reg = λ name size val w k. (refl, omega arith);
  serves_read_mem = λ a size h val w k. (refl, k);
  serves_write_mem = λ a size val w k. (refl, omega arith);
  serves_read_fpu = λ val w k. (refl, k);
  serves_write_fpu = λ val w k. (refl, omega arith);
  serves_clear = λ w k. k;
}

-- Two instructions.
execute-serves_example : is_client_error (execute xed host willing (λ w. w) 2 state).0 ≡ false
execute-serves_example =
    execute-serves (λ w. 0 ≤ w) xed host willing (λ w. w) willing_serves 2 state (omega arith)
