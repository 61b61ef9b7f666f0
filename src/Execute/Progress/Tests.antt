-- ===== src/Execute/Progress/Tests.antt =====
-- Runs of a machine with a handful of registers that only knows the instruction NOP.
use microx.Base.{ℕ, ◌≡◌, refl, true, [], ◌==◌, if◌then◌else◌, some, arith}
use microx.Xed.{Xed, Inst, nop}
use microx.Host.{Host}
use microx.Native.{machine_host}
use microx.Native.Books.{machine_host-KeepsBooks}
use microx.Fixture.Processor.{machine, numbers, cpu}
use microx.State.{Executor, done, ◌>>◌, modify, reading}
use microx.Registers.{
  widest_register, read_register, read_gpr_register, request_register, write_registers,
  write_registers_loop, write_register, restore_stack_ptr,
}
use microx.Flags.{read_flags, read_flags_of, write_flags}
use microx.Operands.{read_pc, read_registers, read_address_registers, read_operands}
use microx.Execute.{
  execute, execute_loop, execute_one, on_globals, or_return, reset, fetch_and_decode, fetch,
  with_inst, execute_decoded, finish, set_next_pc,
}
use microx.Execute.Support.{uses_unsupported_features, unsupported_category, is_nop}
use microx.Execute.Splits.{is_good, continue}
use microx.Execute.Unread.{IgnoresOldBytes}
use microx.Execute.LastWrite.{HasPc, HasWrittenPc}
use microx.Execute.Telling.{KeepsBooks}
use microx.Execute.Progress.{execute-HasWrittenPc, execute-splits}
use microx.Fixture.{xed, client, host, state, push_inst}

abbrev nop_inst : Inst
nop_inst = record push_inst { operands = []; category = nop }

abbrev small : Xed
small = record xed {
  reg_last = 5;
  rip = 2;
  eip = 1;
  rflags = 4;
  eflags = 3;
  enclosing = λ r. if r == 1 then 2 else if r == 3 then 4 else r;
  decode = λ mode idata len. some nop_inst;
}

-- Every read and write succeeds.
abbrev willing : Executor ℕ
willing = record client { read_mem = λ addr size hint val w. (true, 0x90, w) }

small-HasPc : HasPc small willing
unfolding widest_register
small-HasPc = record {
  counter = refl;
  in_file = omega arith;
  requested = refl;
  widest = refl;
  no_flags = refl;
  valid_eip = refl;
  valid_rip = refl;
}

host-KeepsBooks : KeepsBooks host
host-KeepsBooks = record {
  run_initialized = λ g. refl;
  run_used = λ g. refl;
  pass_initialized = λ g. refl;
  pass_used = λ g. refl;
}

ends_well : is_good (execute small host willing (λ w. w) 1 state).0 ≡ true
unfolding execute execute_loop execute_one on_globals or_return read_pc ◌>>◌ modify done reading
    read_register widest_register read_gpr_register request_register reset fetch_and_decode fetch
    with_inst execute_decoded uses_unsupported_features unsupported_category read_flags
    read_flags_of read_registers read_address_registers read_operands is_nop finish write_flags
    set_next_pc write_registers write_registers_loop write_register restore_stack_ptr
ends_well = refl

execute-HasWrittenPc_example :
    HasWrittenPc small willing (execute small host willing (λ w. w) 1 state).1.env
execute-HasWrittenPc_example =
    execute-HasWrittenPc small host willing (λ w. w) small-HasPc host-KeepsBooks 0 state ends_well

willing-IgnoresOldBytes : IgnoresOldBytes small willing
willing-IgnoresOldBytes = record {
  same_outcome = λ addr n old old' w. refl;
  same_client = λ addr n old old' w. refl;
  same_bytes = λ addr n old old' w passed. refl;
  decodes = λ mode bytes bytes' n same. refl;
}

-- A processor that runs native code, and two instructions and three more.
abbrev processor : Host
processor = machine_host small machine numbers 64 cpu host

execute-splits_example :
    execute small processor willing (λ w. w) 5 state
    ≡ continue
        (execute small processor willing (λ w. w) 2 state)
        (execute small processor willing (λ w. w) 3)
execute-splits_example =
    execute-splits small processor willing (λ w. w) small-HasPc
      (machine_host-KeepsBooks small machine numbers 64 cpu host) willing-IgnoresOldBytes 2 3 state
