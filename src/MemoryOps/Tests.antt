-- ===== src/MemoryOps/Tests.antt =====
-- The theorems on memory operands at concrete inputs.
use microx.Base.{ℕ, ◌+◌, ◌*◌, ◌%◌, ◌^◌, ◌<◌, ◌≡◌, ◌↔◌, ◌⊎◌, refl, [], ◌∷◌, to_u64, arith}
use microx.Xed.{Iform}
use microx.State.{Globals, State}
use microx.Registers.{is_gpr8h, read_gpr, read_value}
use microx.MemoryOps.Forms.{bit_source, adjustment0}
use microx.MemoryOps.BitOps.{tested, width16, bit_op_offset_iff}
use microx.MemoryOps.Address.{read_address, start_of, address64, read_memory_operand-address}
use microx.Fixture.{
  xed, client, globals, state, inst, stack_operand, xed-HighBytes, client-IsDefault,
}

-- A bit test of 16 bits; the bit offset is in RBX's place, a register of 16 bits.
abbrev bit_test : Globals
bit_test = record globals {
  operand_width = 16;
  xedd = record (inst Iform.bt_memv_gprv []) { get_reg = λ name. 53 };
}

bit_op_offset_iff_example :
    (tested xed bit_test ≡ read_gpr xed 53 bit_test)
    ↔ ((bit_test.operand_width ≡ 64) ⊎ (read_gpr xed 53 bit_test < bit_test.operand_width))
unfolding read_gpr read_value microx.Registers.is_gpr8h bit_source
bit_op_offset_iff_example =
    bit_op_offset_iff xed bit_test xed-HighBytes refl width16 refl (omega arith)

-- An addition to memory at the stack pointer.
abbrev addition : State ℕ
addition = record state {
  globals = record globals {
    xedd = record (inst Iform.lea_gprv_agen (stack_operand ∷ [])) {
      index_reg = λ i. 11;
      scale = λ i. 4;
    };
  };
}

read_memory_operand-address_example :
    read_address xed client stack_operand 0 addition
    ≡ (start_of xed 0 addition.globals
        + (read_gpr xed 11 addition.globals * 4
            + to_u64 (addition.globals.xedd.memory_displacement 0)))
      % 2 ^ 64
unfolding adjustment0
read_memory_operand-address_example =
    read_memory_operand-address xed client stack_operand 0 addition client-IsDefault address64 refl
