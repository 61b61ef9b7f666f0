-- ===== src/Encode.antt =====
-- Re-encoding an instruction for native execution (`microx/Executor.cpp`): the alias of the stack
-- pointer, the operands for XED's encoder, and the two passes of `EncodeInstruction`.
pub mod Alias
pub mod Relocation
pub mod Lives
mod Tests
use microx.Base.{
  ℕ, zero, suc, ◌+◌, ◌-◌, Bool, true, false, ◌||◌, ◌==◌, if◌then◌else◌, u32, sub64, to_u64, List,
  [], ◌∷◌, ◌++◌, Option, none, some, length,
}
use microx.Xed.{
  Xed, Inst, Operand, OperandName, mem0, reg0, reg1, reg2, reg3, imm0signed, imm0, imm1_bytes, imm1,
  Visibility, explicit, implicit, EncoderOperand, blank, enc_mem, enc_reg, enc_simm0, enc_imm0,
  enc_imm1,
}
use microx.Host.{Host}
use microx.State.{Memory, Globals}
use microx.Registers.{read_gpr, write_gpr}

unfoldable pub is_imm0signed : OperandName → Bool
is_imm0signed imm0signed = true
is_imm0signed _ = false

-- `XED_OPVIS_EXPLICIT` or `XED_OPVIS_IMPLICIT`.
unfoldable pub is_encoded : Visibility → Bool
is_encoded explicit = true
is_encoded implicit = true
is_encoded _ = false

module _ (x : Xed) where
  -- The first of four registers that the instruction does not use.
  unfoldable pub free_register : Globals → ℕ
  free_register g =
      if g.store_regs x.rax
      then (if g.store_regs x.rcx
          then (if g.store_regs x.rdx
              then (if g.store_regs x.rbx then x.invalid else x.rbx)
              else x.rdx)
          else x.rcx)
      else x.rax

  -- The alias is chosen once for an instruction, and takes the stack pointer's value.
  unfoldable pub choose_alias : Globals → Globals
  unfolding free_register
  choose_alias g =
      if g.stack_ptr_alias == x.invalid
      then (let alias = free_register g in
          write_gpr x alias (read_gpr x x.rsp g) (record g { stack_ptr_alias = alias }))
      else g

  -- The part of the alias that corresponds to a part of the stack pointer.
  unfoldable pub scale_alias : ℕ → ℕ → ℕ
  scale_alias alias reg =
      let offset = alias + 4294967296 - x.gpr64_first in
      if reg == x.spl
      then u32 (offset + x.gpr8_first)
      else if reg == x.sp
      then u32 (offset + x.gpr16_first)
      else if reg == x.esp
      then u32 (offset + x.gpr32_first)
      else if reg == x.rsp
      then alias
      else x.invalid

  unfoldable pub get_stack_pointer_alias : ℕ → Globals → ℕ × Globals
  unfolding choose_alias scale_alias
  get_stack_pointer_alias reg g =
      let g' = choose_alias g in (scale_alias g'.stack_ptr_alias reg, g')

  unfoldable pub decode_reg : ℕ → Globals → EncoderOperand × Globals
  unfolding get_stack_pointer_alias
  decode_reg reg g =
      let (alias, g') = get_stack_pointer_alias reg g in
      if x.enclosing reg == x.rsp
      then (enc_reg alias (x.width_bits64 alias), g')
      else (enc_reg reg (x.width_bits64 reg), g)

  unfoldable pub decode_imm0 : OperandName → Inst → EncoderOperand
  unfolding is_imm0signed
  decode_imm0 name inst =
      if is_imm0signed name || inst.immediate_is_signed
      then enc_simm0 (to_u64 inst.signed_immediate) inst.immediate_width_bits
      else enc_imm0 inst.unsigned_immediate inst.immediate_width_bits

  unfoldable pub decode_imm1 : Inst → EncoderOperand
  decode_imm1 inst = enc_imm1 inst.second_immediate inst.immediate_width_bits

  -- A placeholder for the displacement; `mem_op` is the operand's place.
  unfoldable pub decode_mem0 : ℕ → Globals → EncoderOperand × Globals
  decode_mem0 i g = (
    enc_mem x.rip 0xffff_ffff g.memory0.size,
    record g { memory0 = record (g.memory0) { mem_op = some i } },
  )

  abbrev pub decode_reg_named : OperandName → Globals → EncoderOperand × Globals
  unfolding decode_reg
  decode_reg_named name g =
      let reg = g.xedd.get_reg name in if reg == 0 then (blank, g) else decode_reg reg g

  -- One operand of the encoder, by the name of the decoded one.
  abbrev pub decode_operand : OperandName → ℕ → Globals → EncoderOperand × Globals
  unfolding decode_mem0 decode_imm0 decode_imm1
  decode_operand mem0 i g = decode_mem0 i g
  decode_operand reg0 i g = decode_reg_named reg0 g
  decode_operand reg1 i g = decode_reg_named reg1 g
  decode_operand reg2 i g = decode_reg_named reg2 g
  decode_operand reg3 i g = decode_reg_named reg3 g
  decode_operand imm0signed i g = (decode_imm0 imm0signed g.xedd, g)
  decode_operand imm0 i g = (decode_imm0 imm0 g.xedd, g)
  decode_operand imm1_bytes i g = (decode_imm1 g.xedd, g)
  decode_operand imm1 i g = (decode_imm1 g.xedd, g)
  decode_operand _ i g = (blank, g)

  -- The loop over the decoded operands, from `gEmu.noperands` on.
  unfoldable pub encoder_operands : List Operand → ℕ → Globals → List EncoderOperand × Globals
  unfolding is_encoded
  encoder_operands [] i g = ([], g)
  encoder_operands (op ∷ ops) i g =
      let (first, g') = decode_operand op.name i g in
      let taken = encoder_operands ops (i + 1) g' in
      let skipped = encoder_operands ops i g in
      if is_encoded op.visibility then (first ∷ taken.0, taken.1) else skipped

  unfoldable pub create_encodable_instruction : Globals → List EncoderOperand × Globals
  unfolding encoder_operands
  create_encodable_instruction g = encoder_operands g.xedd.operands 0 g

-- `op->disp.displacement = …`, where `op` points to a memory operand.
unfoldable pub set_displacement : List EncoderOperand → ℕ → ℕ → Option (List EncoderOperand)
set_displacement [] i disp = none
set_displacement (enc_mem base old width ∷ ops) zero disp = some (enc_mem base disp width ∷ ops)
set_displacement (op ∷ ops) zero disp = none
set_displacement (op ∷ ops) (suc i) disp = elim (set_displacement ops i disp) [
  | none ↦ none
  | some ops' ↦ some (op ∷ ops')
]

module _ (x : Xed) (h : Host) where
  unfoldable pub relocate : Option ℕ → ℕ → List EncoderOperand → List EncoderOperand
  unfolding set_displacement
  relocate none disp ops = h.wild_write none disp ops
  relocate (some i) disp ops = elim (set_displacement ops i disp) [
    | some ops' ↦ ops'
    | none ↦ h.wild_write (some i) disp ops
  ]

  abbrev pub store_code : Option (List ℕ) → Globals → Bool × Globals
  store_code none g = (false, g)
  store_code (some code) g = (true, record g { exec_area = code })

  -- The second pass, from the size of the first.
  unfoldable pub encode_again : List ℕ → List EncoderOperand → Globals → Bool × Globals
  unfolding relocate
  encode_again code ops g =
      let rip = h.exec_area_address + length code in
      let disp = sub64 h.memory_data_address rip in
      if g.memory0.present
      then store_code (x.encode g.xedd g.operand_width (relocate g.memory0.mem_op disp ops)) g
      else (true, g)

  unfoldable pub encode_instruction : Globals → Bool × Globals
  unfolding create_encodable_instruction encode_again
  encode_instruction g =
      let (ops, g') = create_encodable_instruction x g in
      elim (x.encode g'.xedd g'.operand_width ops) [
        | none ↦ (false, g')
        | some code ↦ encode_again code ops (record g' { exec_area = code })
      ]
