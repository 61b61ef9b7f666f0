-- ===== src/Operands/Tests.antt =====
-- The theorems on register operands at concrete inputs.
use microx.Base.{◌≡◌, refl, true, false, arith}
use microx.State.{◌>>◌, done, reading, modify}
use microx.Registers.{read_register, widest_register, request_register, read_gpr_register}
use microx.Operands.{
  is_memory, is_register, read_registers, read_address_registers, read_operands, read_operand,
  read_registers_mem_op,
}
use microx.Operands.Coverage.{
  all_covered, IsTracked, read_registers_cover, read_registers-IsTracked,
}
use microx.Fixture.{xed, client, globals, state, push_inst}

read_registers_passes : (read_registers xed client state).0 ≡ true
unfolding read_registers read_address_registers read_operands read_operand read_registers_mem_op
    is_register read_register ◌>>◌ done reading modify is_memory read_gpr_register widest_register
    request_register
read_registers_passes = refl

-- A push of RBX that also changes RCX.
read_registers_cover_example :
    (all_covered xed client false push_inst push_inst.operands
        (read_registers xed client state).1.globals
      ≡ true)
    × (all_covered xed client true push_inst push_inst.operands
          (read_registers xed client state).1.globals
        ≡ true)
read_registers_cover_example = read_registers_cover xed client state read_registers_passes

tracked : IsTracked xed client globals
tracked q = ground arith

read_registers-IsTracked_example :
    IsTracked xed client (read_registers xed client state).1.globals
    × ((read_registers xed client state).1.globals.xedd ≡ push_inst)
read_registers-IsTracked_example = read_registers-IsTracked xed client state tracked
