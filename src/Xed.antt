-- ===== src/Xed.antt =====
-- What `microx/Executor.cpp` uses of Intel XED (`microx/XED.h`): the library is not part of the
-- repository, so its enumerations of registers and its functions are the fields of `Xed`, a parameter
-- of every definition that uses them, and a decoded instruction is what its accessors return.
mod Forms
pub use Forms.{Iform}
use microx.Base.{ℕ, ℤ, Bool, List, Option, String}

-- `xed_operand_enum_t`, the names that the code compares with.
pub data OperandName : Type 0 where
  agen mem0 mem1 : OperandName
  reg reg0 reg1 reg2 reg3 reg4 reg5 reg6 reg7 reg8 : OperandName
  imm0signed imm0 imm1_bytes imm1 : OperandName
  other_operand : OperandName

-- `xed_reg_class_enum_t`.
pub data RegClass : Type 0 where
  x87 pseudox87 mmx other_class : RegClass

-- `xed_category_enum_t`.
pub data Category : Type 0 where
  system c3dnow mpx aes rdrand rdseed segop syscall interrupt sysret : Category
  xsave xsaveopt iostringop rdwrfsgs vtx avx avx2 avx2gather : Category
  avx512 avx512_4fmaps avx512_4vnniw avx512_bitalg avx512_vbmi : Category
  nop widenop other_category : Category

-- `xed_attribute_enum_t`.
pub data Attribute : Type 0 where
  ring0 protected_mode far_xfer exception_br : Attribute
  x87_mmx_state_r x87_mmx_state_w x87_mmx_state_cw : Attribute
  xmm_state_r xmm_state_w xmm_state_cw : Attribute
  kmask maskop maskop_evex mask_as_control mask_variable_memop : Attribute

-- `xed_operand_visibility_enum_t`.
pub data Visibility : Type 0 where
  explicit implicit suppressed : Visibility

-- One `xed_operand_t` of the instruction's template, with its actions.
pub record Operand : Type 0 where
  pub name : OperandName
  pub written : Bool
  pub is_read : Bool
  pub conditional_write : Bool
  pub visibility : Visibility

-- `xed_simple_flag_t`: the flags read and written, as masks of the flags register.
pub record SimpleFlag : Type 0 where
  pub flags_read : ℕ
  pub flags_written : ℕ
  pub may_write : Bool

-- `xed_decoded_inst_t`, by its accessors. Those over memory operands take the operand's number.
pub record Inst : Type 0 where
  pub iform : Iform
  pub category : Category
  pub attribute : Attribute → Bool
  pub operands : List Operand
  pub get_reg : OperandName → ℕ
  pub base_reg : ℕ → ℕ
  pub index_reg : ℕ → ℕ
  pub seg_reg : ℕ → ℕ
  pub scale : ℕ → ℕ
  pub memory_displacement : ℕ → ℤ
  pub memory_operand_length : ℕ → ℕ
  pub memop_address_width : ℕ → ℕ
  pub inst_length : ℕ
  pub operand_width : ℕ
  pub branch_displacement : ℤ
  pub signed_immediate : ℤ
  pub unsigned_immediate : ℕ
  pub second_immediate : ℕ
  pub immediate_is_signed : Bool
  pub immediate_width : ℕ
  pub immediate_width_bits : ℕ
  pub rflags_info : Option SimpleFlag

-- `xed_encoder_operand_t`. `blank` is an operand of zeros; a memory operand has the base register,
-- the displacement, and the width in bits.
pub data EncoderOperand : Type 0 where
  blank : EncoderOperand
  enc_mem : ℕ → ℕ → ℕ → EncoderOperand
  enc_reg enc_simm0 enc_imm0 enc_imm1 : ℕ → ℕ → EncoderOperand

pub record Xed : Type 0 where
  -- `XED_REG_*`. The code computes with these as numbers.
  pub reg_last : ℕ
  pub invalid : ℕ
  pub rax : ℕ
  pub rcx : ℕ
  pub rdx : ℕ
  pub rbx : ℕ
  pub rsp : ℕ
  pub rbp : ℕ
  pub rip : ℕ
  pub eip : ℕ
  pub eax : ℕ
  pub ecx : ℕ
  pub esp : ℕ
  pub esi : ℕ
  pub edi : ℕ
  pub cx : ℕ
  pub sp : ℕ
  pub spl : ℕ
  pub ds : ℕ
  pub ss : ℕ
  pub rflags : ℕ
  pub eflags : ℕ
  pub tsc : ℕ
  pub tscaux : ℕ
  pub stackpush : ℕ
  pub stackpop : ℕ
  pub zmm_first : ℕ
  pub zmm_last : ℕ
  pub ymm_first : ℕ
  pub ymm_last : ℕ
  pub xmm_first : ℕ
  pub gpr8h_first : ℕ
  pub gpr8h_last : ℕ
  pub gpr8_first : ℕ
  pub gpr16_first : ℕ
  pub gpr32_first : ℕ
  pub gpr64_first : ℕ
  -- `xed_get_largest_enclosing_register`, its 32-bit version, and the other queries on registers.
  pub enclosing : ℕ → ℕ
  pub enclosing32 : ℕ → ℕ
  pub width_bits64 : ℕ → ℕ
  pub reg_class : ℕ → RegClass
  pub reg_name : ℕ → String
  -- `xed_decoded_inst_set_immediate_unsigned`: the instruction, the value, the width in bytes.
  pub set_immediate : Inst → ℕ → ℕ → Inst
  pub mmx_reg : ℕ → ℕ
  -- `xed_decode` of so many bytes, at a 32-bit or a 64-bit mode.
  pub decode : Bool → ℕ → ℕ → Option Inst
  -- `xed_convert_to_encoder_request` and `xed_encode`: class, operand width, operands.
  pub encode : Inst → ℕ → List EncoderOperand → Option (List ℕ)
