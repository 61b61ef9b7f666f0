-- ===== src/Fixture/Instructions.antt =====
-- The instructions of the examples.
use microx.Base.{ℕ, true, false, pos, List, [], ◌∷◌, none}
use microx.Xed.{Inst, Iform, Operand, OperandName, reg0, reg1, mem0, other_category, explicit}

-- An operand on the stack, below the stack pointer, and two registers.
abbrev pub stack_operand : Operand
stack_operand = record {
  name = mem0;
  written = true;
  is_read = false;
  conditional_write = false;
  visibility = explicit;
}

abbrev pub source_operand : Operand
source_operand = record {
  name = reg0;
  written = false;
  is_read = true;
  conditional_write = false;
  visibility = explicit;
}

abbrev pub changed_operand : Operand
changed_operand = record {
  name = reg1;
  written = true;
  is_read = true;
  conditional_write = false;
  visibility = explicit;
}

abbrev register_of : OperandName → ℕ
register_of reg0 = 13
register_of reg1 = 11
register_of _ = 0

-- An instruction of two bytes with the stack pointer as base of its memory operands, RBX as its
-- first register and RCX as its second one.
abbrev pub inst : Iform → List Operand → Inst
inst form operands = record {
  iform = form;
  category = other_category;
  attribute = λ a. false;
  operands = operands;
  get_reg = register_of;
  base_reg = λ i. 14;
  index_reg = λ i. 0;
  seg_reg = λ i. 0;
  scale = λ i. 1;
  memory_displacement = λ i. pos 0;
  memory_operand_length = λ i. 8;
  memop_address_width = λ i. 64;
  inst_length = 2;
  operand_width = 64;
  branch_displacement = pos 16;
  signed_immediate = pos 5;
  unsigned_immediate = 5;
  second_immediate = 0;
  immediate_is_signed = true;
  immediate_width = 1;
  immediate_width_bits = 8;
  rflags_info = none;
}

abbrev pub push_inst : Inst
push_inst = inst Iform.push_gprv_50 (source_operand ∷ changed_operand ∷ stack_operand ∷ [])
