-- ===== src/MemoryOps/BitOps.antt =====
-- The byte offset that a bit test with a large bit offset moves its memory operand by, against the
-- string of bits that the processor's manual describes.
use microx.Base.{
  zero, ap, ◌∙◌, suc, false, ℕ, ◌+◌, ◌*◌, ◌/◌, ◌%◌, ◌^◌, ◌<◌, ◌≡◌, refl, ◌↔◌, ◌⊎◌, inl, inr, arith,
  u64,
}
use microx.Xed.{Xed, Iform, reg0}
use microx.State.{Globals}
use microx.Registers.{is_gpr8h, read_gpr, write_gpr}
use microx.Registers.Gpr.{HighBytes, IsGprWidth, read_gpr-write_gpr}
use microx.MemoryOps.Forms.{from_register, bit_source}
use microx.MemoryOps.{get_bit_op_byte_offset, bit_op_byte_offset}

-- The sizes of the operand of a bit test.
pub data IsBitTestWidth : ℕ → Type 0 where
  width16 : IsBitTestWidth 16
  width32 : IsBitTestWidth 32
  width64 : IsBitTestWidth 64

-- The bit that is tested, as a distance in bits from the operand's base, when the operand is moved
-- by `bytes` and the offset that remains is `rest`.
abbrev pub tested_bit : ℕ → ℕ → ℕ
tested_bit bytes rest = 8 * bytes + rest

is64 : ◌≡◌ {A = ℕ} 64 64
is64 = refl

same_bit :
    (w b : ℕ)
    → IsBitTestWidth w
    → b < 2 ^ 64
    → (tested_bit (u64 (8 * (b / w))) (b % w % 2 ^ w) ≡ b) ↔ ((w ≡ 64) ⊎ (b < w))
same_bit _ b width16 fits =
    (λ e. inr (omega arith), λ s. elim s [ inl e ↦ omega arith | inr l ↦ omega arith ])
same_bit _ b width32 fits =
    (λ e. inr (omega arith), λ s. elim s [ inl e ↦ omega arith | inr l ↦ omega arith ])
same_bit _ b width64 fits = (λ e. inl is64, λ s. omega arith)

-- The bit that is tested after `GetBitOpByteOffset`.
unfoldable pub tested : Xed → Globals → ℕ
tested x g =
    let (bytes, g') = get_bit_op_byte_offset x g in
    tested_bit bytes (read_gpr x (g.xedd.get_reg reg0) g')

register_width : {w v : ℕ} → IsBitTestWidth w → v ≡ w → IsGprWidth v
register_width width16 e = inr (inr (inl e))
register_width width32 e = inr (inl e)
register_width width64 e = inl e

zero_quotient : (w : ℕ) → u64 (8 * (0 / w)) ≡ 0
zero_quotient zero = omega arith
zero_quotient (suc w) = omega arith

no_register :
    (x : Xed) (g : Globals)
    → is_gpr8h x (g.xedd.get_reg reg0) ≡ false
    → x.width_bits64 (g.xedd.get_reg reg0) ≡ 0
    → bit_op_byte_offset x from_register g ≡ (0, g)
unfolding bit_op_byte_offset read_gpr write_gpr
no_register x g low none = rw (low, none, zero_quotient g.operand_width) refl

-- A bit test with its bit offset in the register `reg0`, of the operand's width 16, 32 or 64: the
-- bit that is tested is the one at the (unsigned) offset exactly if the operand has 64 bits or the
-- offset lies inside the operand.
-- The high byte registers have 8 bits.
pub bit_op_offset_iff :
    (x : Xed) (g : Globals)
    → HighBytes x
    → bit_source g.xedd.iform ≡ from_register
    → IsBitTestWidth g.operand_width
    → x.width_bits64 (g.xedd.get_reg reg0) ≡ g.operand_width
    → read_gpr x (g.xedd.get_reg reg0) g < 2 ^ 64
    → (tested x g ≡ read_gpr x (g.xedd.get_reg reg0) g)
      ↔ ((g.operand_width ≡ 64) ⊎ (read_gpr x (g.xedd.get_reg reg0) g < g.operand_width))
unfolding get_bit_op_byte_offset bit_op_byte_offset tested
bit_op_offset_iff x g high from width same fits =
    let r0 = g.xedd.get_reg reg0 in
    rw
      (
        from,
        read_gpr-write_gpr x r0 (read_gpr x r0 g % g.operand_width) g high
            (register_width width same),
        same,
      )
      (same_bit g.operand_width (read_gpr x r0 g) width fits)

-- For the forms of BTC and BTR with an immediate offset and no LOCK prefix, which name no register:
-- neither the operand's address nor the immediate changes, whatever the immediate is.
bit_op_immediate_ignored :
    (x : Xed) (g : Globals)
    → (g.xedd.iform ≡ Iform.btc_memv_immb) ⊎ (g.xedd.iform ≡ Iform.btr_memv_immb)
    → is_gpr8h x (g.xedd.get_reg reg0) ≡ false
    → x.width_bits64 (g.xedd.get_reg reg0) ≡ 0
    → get_bit_op_byte_offset x g ≡ (0, g)
unfolding get_bit_op_byte_offset bit_source
bit_op_immediate_ignored x g (inl form) low none =
    ap (λ source. bit_op_byte_offset x source g) (ap bit_source form) ∙ no_register x g low none
bit_op_immediate_ignored x g (inr form) low none =
    ap (λ source. bit_op_byte_offset x source g) (ap bit_source form) ∙ no_register x g low none
