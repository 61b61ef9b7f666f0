-- ===== src/Emulate/StackTrip/Tests.antt =====
-- Two instructions on the stack, with a client that has memory.
use microx.Base.{ℕ, false, ==-refl, low_bits, [], ◌∷◌, ◌≡◌, refl, true, arith}
use microx.Xed.{Iform, Inst}
use microx.State.{Globals, Executor, State, update}
use microx.Registers.{read_gpr, read_value, is_gpr8h}
use microx.MemoryOps.Forms.{Adjustment, below_stack, no_adjustment, adjustment0}
use microx.Emulate.Machine.{handled}
use microx.Emulate.Branch.{call_rel, ret}
use microx.Emulate.Stack.{push_gpr, pop_gpr}
use microx.Emulate.StackTrip.{IsPair, emulated, next_read, pop_gpr-push_gpr, ret-call_rel}
use microx.MemoryOps.Stored.{KeepsMemory, IsOnStack}
use microx.MemoryOps.{compute_address, is_agen, write_memory_operand}
use microx.Emulate.PushAddress.{operand_read}
use microx.Fixture.{xed, globals, inst, stack_operand, xed-HighBytes}
use microx.Fixture.Operation.{here}

-- A client with memory, as a function of the address.
abbrev keeping : Executor (ℕ → ℕ)
keeping = record {
  addr_size = 64;
  has_avx = false;
  has_avx512 = false;
  compute_address = λ seg base index scale disp size hint w.
      (compute_address seg base index scale disp size hint, w);
  read_reg = λ name size hint val w. (true, 7, w);
  write_reg = λ name size val w. (true, w);
  read_mem = λ addr size hint val w. (true, w addr, w);
  write_mem = λ addr size val w. (true, update w addr (low_bits size val));
  read_fpu = λ val w. (true, 0, w);
  write_fpu = λ val w. (true, w);
}

keeping-KeepsMemory : KeepsMemory keeping
keeping-KeepsMemory = record {
  writes = λ addr size val w. refl;
  reads_back = λ addr size val old hint w. rw (==-refl addr) refl;
}

-- An instruction on the stack, with empty memory.
abbrev on_stack : Iform → State (ℕ → ℕ)
on_stack form = record {
  globals = record globals { xedd = inst form (stack_operand ∷ []) };
  env = λ a. 0;
}

abbrev pop_inst : Inst
pop_inst = inst Iform.pop_gprv_58 (stack_operand ∷ [])

abbrev ret_inst : Inst
ret_inst = inst Iform.ret_near (stack_operand ∷ [])

on_stack-IsOnStack :
    (form first : Iform) (adj : Adjustment)
    → adjustment0 form ≡ adj
    → IsOnStack xed 14 adj stack_operand (inst form (stack_operand ∷ [])) (on_stack first).globals
unfolding read_gpr read_value is_gpr8h is_agen
on_stack-IsOnStack form first adj adjusted = record {
  adjusted = adjusted;
  address_width = refl;
  base = refl;
  not_pc = refl;
  no_index = refl;
  index_apart = omega arith;
  no_displacement = refl;
  eight_bytes = refl;
  is_memory = refl;
}

push_then_pop :
    IsPair xed keeping 14 stack_operand stack_operand pop_inst (on_stack Iform.push_gprv_50)
unfolding adjustment0
push_then_pop = record {
  high_bytes = xed-HighBytes;
  default_address = λ seg base index scale disp size hint w. refl;
  keeps = keeping-KeepsMemory;
  pointer_width = refl;
  operand_bits = refl;
  first = on_stack-IsOnStack Iform.push_gprv_50 Iform.push_gprv_50 below_stack refl;
  is_written = refl;
  second = on_stack-IsOnStack Iform.pop_gprv_58 Iform.push_gprv_50 no_adjustment refl;
}

call_then_ret :
    IsPair xed keeping 14 stack_operand stack_operand ret_inst (on_stack Iform.call_near_relbrd)
unfolding adjustment0
call_then_ret = record {
  high_bytes = xed-HighBytes;
  default_address = λ seg base index scale disp size hint w. refl;
  keeps = keeping-KeepsMemory;
  pointer_width = refl;
  operand_bits = refl;
  first = on_stack-IsOnStack Iform.call_near_relbrd Iform.call_near_relbrd below_stack refl;
  is_written = refl;
  second = on_stack-IsOnStack Iform.ret_near Iform.call_near_relbrd no_adjustment refl;
}

-- RBX is pushed, and popped into RDX.
pop_gpr-push_gpr_example :
    let s = on_stack Iform.push_gprv_50 in
    (g' : Globals) × (g'' : Globals) × (push_gpr xed here (operand_read xed keeping stack_operand s)
      ≡ handled g' 0x102)
    × ((write_memory_operand xed keeping 0 (emulated xed keeping stack_operand s g')).0 ≡ true)
    × ((next_read xed keeping pop_inst stack_operand (emulated xed keeping stack_operand s g')).0
        ≡ true)
    × (pop_gpr xed
          (record here { r0 = 12; next_pc = 0x104 })
          (next_read xed keeping pop_inst stack_operand
            (emulated xed keeping stack_operand s g')).1.globals
        ≡ handled g'' 0x104)
    × (read_gpr xed 12 g'' ≡ read_gpr xed 13 s.globals)
    × (read_gpr xed 14 g'' ≡ read_gpr xed 14 s.globals)
pop_gpr-push_gpr_example =
    pop_gpr-push_gpr xed keeping stack_operand stack_operand pop_inst here 12 0x104
      (on_stack Iform.push_gprv_50) push_then_pop refl refl (omega arith)

ret-call_rel_example :
    let s = on_stack Iform.call_near_relbrd in
    (g' : Globals) × (g'' : Globals) × (call_rel xed here (operand_read xed keeping stack_operand s)
      ≡ handled g' 0x112)
    × ((write_memory_operand xed keeping 0 (emulated xed keeping stack_operand s g')).0 ≡ true)
    × ((next_read xed keeping ret_inst stack_operand (emulated xed keeping stack_operand s g')).0
        ≡ true)
    × (ret xed 0 here
          (next_read xed keeping ret_inst stack_operand
            (emulated xed keeping stack_operand s g')).1.globals
        ≡ handled g'' 0x102)
    × (read_gpr xed 14 g'' ≡ read_gpr xed 14 s.globals)
ret-call_rel_example =
    ret-call_rel xed keeping stack_operand stack_operand ret_inst here
      (on_stack Iform.call_near_relbrd) call_then_ret refl (omega arith)
