-- ===== src/Encode/Lives.antt =====
-- `EncodeInstruction` (`microx/Executor.cpp`), and the register that stays in use.
use microx.Base.{
  ℕ, ◌+◌, Bool, true, false, ◌==◌, Bool-cases, inl, inr, List, [], ◌∷◌, Option, none, some,
}
use microx.Xed.{Xed, Operand, OperandName, mem0, reg0, reg1, reg2, reg3, EncoderOperand}
use microx.Host.{Host}
use microx.State.{Globals}
use microx.State.Lives.{IsLive, IsLive-if, IsLive-second}
use microx.Registers.{read_gpr}
use microx.Registers.Lives.{write_gpr-IsLive}
use microx.Encode.{
  free_register, choose_alias, get_stack_pointer_alias, decode_reg, decode_mem0, decode_reg_named,
  decode_operand, is_encoded, encoder_operands, create_encodable_instruction, store_code,
  encode_again, encode_instruction,
}

module _ (x : Xed) (pc : ℕ) where
  choose_alias-IsLive : (g : Globals) → IsLive pc g → IsLive pc (choose_alias x g)
  unfolding choose_alias
  choose_alias-IsLive g i =
      let alias = free_register x g in
      IsLive-if (g.stack_ptr_alias == x.invalid)
        (write_gpr-IsLive x alias (read_gpr x x.rsp g) (record g { stack_ptr_alias = alias })
          (record { initialized = i.initialized; in_use = i.in_use }))
        i

  decode_reg-IsLive : (reg : ℕ) (g : Globals) → IsLive pc g → IsLive pc (decode_reg x reg g).1
  unfolding decode_reg get_stack_pointer_alias
  decode_reg-IsLive reg g i = elim (Bool-cases (x.enclosing reg == x.rsp)) [
    | inl y ↦ rw y (choose_alias-IsLive g i)
    | inr n ↦ rw n i
  ]

  decode_reg_named-IsLive :
      (name : OperandName) (g : Globals) → IsLive pc g → IsLive pc (decode_reg_named x name g).1
  unfolding decode_reg_named
  decode_reg_named-IsLive name g i = elim (Bool-cases (g.xedd.get_reg name == 0)) [
    | inl y ↦ rw y i
    | inr n ↦ rw n (decode_reg-IsLive (g.xedd.get_reg name) g i)
  ]

  decode_operand-IsLive :
      (name : OperandName) (k : ℕ) (g : Globals)
      → IsLive pc g
      → IsLive pc (decode_operand x name k g).1
  unfolding decode_mem0 decode_operand
  decode_operand-IsLive mem0 k g i = record { initialized = i.initialized; in_use = i.in_use }
  decode_operand-IsLive reg0 k g i = decode_reg_named-IsLive reg0 g i
  decode_operand-IsLive reg1 k g i = decode_reg_named-IsLive reg1 g i
  decode_operand-IsLive reg2 k g i = decode_reg_named-IsLive reg2 g i
  decode_operand-IsLive reg3 k g i = decode_reg_named-IsLive reg3 g i
  decode_operand-IsLive _ k g i = i

  encoder_operands-IsLive :
      (ops : List Operand) (k : ℕ) (g : Globals)
      → IsLive pc g
      → IsLive pc (encoder_operands x ops k g).1
  unfolding encoder_operands
  encoder_operands-IsLive [] k g i = i
  encoder_operands-IsLive (op ∷ ops) k g i = elim (Bool-cases (is_encoded op.visibility)) [
    | inl y ↦ rw y (encoder_operands-IsLive ops (k + 1) _ (decode_operand-IsLive op.name k g i))
    | inr n ↦ rw n (encoder_operands-IsLive ops k g i)
  ]

  store_code-IsLive :
      (h : Host) (code : Option (List ℕ)) (g : Globals)
      → IsLive pc g
      → IsLive pc (store_code x h code g).1
  store_code-IsLive h none g i = i
  store_code-IsLive h (some code) g i = record { initialized = i.initialized; in_use = i.in_use }

  encode_again-IsLive :
      (h : Host) (code : List ℕ) (ops : List EncoderOperand) (g : Globals)
      → IsLive pc g
      → IsLive pc (encode_again x h code ops g).1
  unfolding encode_again
  encode_again-IsLive h code ops g i =
      IsLive-second g.memory0.present _ (true, g) (store_code-IsLive h _ g i) i

  -- What follows the encoder's first pass.
  abbrev encoded : Host → List EncoderOperand → Globals → Option (List ℕ) → Bool × Globals
  encoded h ops g code = elim code [
    | none ↦ (false, g)
    | some code' ↦ encode_again x h code' ops (record g { exec_area = code' })
  ]

  encoded-IsLive :
      (h : Host) (ops : List EncoderOperand) (g : Globals) (code : Option (List ℕ))
      → IsLive pc g
      → IsLive pc (encoded h ops g code).1
  encoded-IsLive h ops g none i = i
  encoded-IsLive h ops g (some code) i =
      encode_again-IsLive h code ops _ (record { initialized = i.initialized; in_use = i.in_use })

  pub encode_instruction-IsLive :
      (h : Host) (g : Globals) → IsLive pc g → IsLive pc (encode_instruction x h g).1
  unfolding encode_instruction create_encodable_instruction
  encode_instruction-IsLive h g i =
      let (ops, g') = encoder_operands x g.xedd.operands 0 g in
      encoded-IsLive h ops g' (x.encode g'.xedd g'.operand_width ops)
        (encoder_operands-IsLive g.xedd.operands 0 g i)
