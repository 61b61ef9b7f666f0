-- ===== src/Fixture/Operation.antt =====
-- The locals of `Emulate` for the examples.
use microx.Emulate.Machine.{Locals}

-- The locals of a 64-bit instruction at 0x100 with RCX as count, RDI as pointer and RBX as operand.
abbrev pub here : Locals
here = record {
  next_pc = 0x102;
  branch_target_pc = 0x112;
  curr_pc = 0x100;
  count_reg = 11;
  count = 3;
  src_reg = 16;
  dest_reg = 17;
  stack_reg = 14;
  r0 = 13;
  r1 = 14;
  r2 = 10;
  addr_size_bytes = 8;
  op_size_bytes = 8;
  simm0 = 5;
  stringop_inc = 8;
}
