-- ===== src/Flags/Sub.antt =====
-- The flags of a subtraction.
use microx.Base.{
  ℕ, ◌-◌, ◌/◌, ◌%◌, ◌^◌, ◌<◌, ◌≡◌, ◌≢◌, ◌⊎◌, inl, inr, not, ◌==◌, ltb, sub64, u8, bit, bit_and,
  bit_xor, bit-set_bit, arith,
}
use microx.Base.Bits.{xor_bit_four, bit_and_sixteen}
use microx.Host.{Host, shr64}
use microx.Flags.Fields.{cf_bit, pf_bit, af_bit, zf_bit, sf_bit, of_bit}
use microx.Flags.{update_flags_sub}
use microx.Flags.Parity.{ones, parity_flag-ones}

module _ (h : Host) (lhs rhs size flags : ℕ) where
  abbrev result : ℕ
  result = update_flags_sub h lhs rhs (sub64 lhs rhs) size flags

  -- The borrow out of bit 3.
  borrow_digit :
      lhs < 2 ^ 64
      → rhs < 2 ^ 64
      → not (bit_and (bit_xor (bit_xor (sub64 lhs rhs) lhs) rhs) 0x10 == 0)
        ≡ ltb (lhs % 16) (rhs % 16)
  borrow_digit p q = ground (
    arith,
    bit_and_sixteen (bit_xor (bit_xor (sub64 lhs rhs) lhs) rhs),
    xor_bit_four (bit_xor (sub64 lhs rhs) lhs) rhs,
    xor_bit_four (sub64 lhs rhs) lhs,
  )

  -- For operands of at most 64 bits, the carry, zero, adjust and parity flags after
  -- `UpdateFlagsSub` are those of the subtraction: an unsigned borrow, equality, a borrow out of
  -- the low four bits, and an even number of ones in the low byte of the difference.
  pub update_flags_sub-unsigned :
      lhs < 2 ^ 64
      → rhs < 2 ^ 64
      → (bit cf_bit result ≡ ltb lhs rhs)
        × (bit zf_bit result ≡ (lhs == rhs))
        × (bit af_bit result ≡ ltb (lhs % 16) (rhs % 16))
        × (bit pf_bit result ≡ (ones 8 (u8 (sub64 lhs rhs)) % 2 == 0))
  unfolding update_flags_sub
  update_flags_sub-unsigned p q = (
    simp bit-set_bit,
    simp bit-set_bit same_value,
    simp bit-set_bit (borrow_digit p q),
    simp bit-set_bit (parity_flag-ones (u8 (sub64 lhs rhs)) (omega arith)),
  )
    where
      same_value : (sub64 lhs rhs == 0) ≡ (lhs == rhs)
      same_value = ground arith

  -- `UpdateFlagsSub` changes no bit of the flags register but the six arithmetic flags.
  update_flags_sub_others :
      (j : ℕ)
      → j ≢ cf_bit
      → j ≢ pf_bit
      → j ≢ af_bit
      → j ≢ zf_bit
      → j ≢ sf_bit
      → j ≢ of_bit
      → bit j result ≡ bit j flags
  unfolding update_flags_sub
  update_flags_sub_others j cf pf af zf sf of = simp bit-set_bit (ground arith)

-- The operand sizes of the instructions that compare.
abbrev pub IsOperandSize : ℕ → Type 0
IsOperandSize w = (w ≡ 8) ⊎ (w ≡ 16) ⊎ (w ≡ 32) ⊎ (w ≡ 64)

shr64-sign_shift :
    (h : Host) (n size : ℕ)
    → ((m k : ℕ) → h.shift_out_of_range m k ≡ m / 2 ^ (k % 64))
    → IsOperandSize size
    → shr64 h n (2 ^ (size - 1)) ≡ n
unfolding shr64
shr64-sign_shift h n size x86 (inl e) = rw (e, x86 n (2 ^ 7)) (omega arith)
shr64-sign_shift h n size x86 (inr (inl e)) = rw (e, x86 n (2 ^ 15)) (omega arith)
shr64-sign_shift h n size x86 (inr (inr (inl e))) = rw (e, x86 n (2 ^ 31)) (omega arith)
shr64-sign_shift h n size x86 (inr (inr (inr e))) = rw (e, x86 n (2 ^ 63)) (omega arith)

-- On a machine that takes the count of a 64-bit shift modulo 64, as x86 does, the sign flag that
-- `UpdateFlagsSub` computes is the lowest bit of the difference, at every operand size: the
-- operands are shifted by `1 << (size - 1)` in place of `size - 1`.
pub update_flags_sub_sign :
    (h : Host) (lhs rhs size flags : ℕ)
    → ((n k : ℕ) → h.shift_out_of_range n k ≡ n / 2 ^ (k % 64))
    → IsOperandSize size
    → bit sf_bit (update_flags_sub h lhs rhs (sub64 lhs rhs) size flags) ≡ (sub64 lhs rhs % 2 == 1)
unfolding update_flags_sub
update_flags_sub_sign h lhs rhs size flags x86 w =
    simp bit-set_bit (rw (shr64-sign_shift h (sub64 lhs rhs) size x86 w))
