-- ===== src/Registers/Tests.antt =====
-- The theorems on registers at concrete inputs.
use microx.Base.{
  ℕ, ◌-◌, true, false, ◌&&◌, leb, ltb, if◌then◌else◌, ◌+◌, ◌*◌, ◌/◌, ◌%◌, ◌^◌, ◌≡◌, refl, inl, inr,
  arith, [], ◌∷◌,
}
use microx.Xed.{Xed}
use microx.State.{Executor}
use microx.Registers.{
  widest_register, read_gpr, write_gpr, write_registers, is_gpr8h, restore_stack_ptr,
}
use microx.Registers.Gpr.{
  merged, stored, write_gpr-merged, read_gpr-write_gpr, read_gpr-write_gpr_ne,
}
use microx.Registers.Widest.{IsVectorRanges, vector_register, widest_register-vector}
use microx.Registers.WriteBack.{write_each, write_plan, write_registers-plan}
use microx.Fixture.{xed, client, globals, state, xed-HighBytes}

-- BH is written into RBX.
write_gpr-merged_example :
    stored xed 83 (write_gpr xed 83 0x56 globals)
    ≡ stored xed 83 globals / 2 ^ 64 * 2 ^ 64
      + merged (xed.width_bits64 83) (is_gpr8h xed 83) 0x56 (stored xed 83 globals % 2 ^ 64)
write_gpr-merged_example = write_gpr-merged xed 83 0x56 globals xed-HighBytes (inr (inr (inr refl)))

-- 2^32 + 9 through ECX.
read_gpr-write_gpr_example :
    read_gpr xed 31 (write_gpr xed 31 0x1_0000_0009 globals)
    ≡ 0x1_0000_0009 % 2 ^ xed.width_bits64 31
read_gpr-write_gpr_example =
    read_gpr-write_gpr xed 31 0x1_0000_0009 globals xed-HighBytes (inr (inl refl))

-- A write of AH, and RBX.
read_gpr-write_gpr_ne_example :
    read_gpr xed 13 (write_gpr xed 80 5 globals) ≡ read_gpr xed 13 globals
read_gpr-write_gpr_ne_example = read_gpr-write_gpr_ne xed 80 13 5 globals (omega arith)

-- RCX is the one register that is used and modified; the program counter follows.
write_registers-plan_example :
    write_registers xed client state
    ≡ write_each xed client
        (write_plan xed (restore_stack_ptr xed client globals))
        (record state { globals = restore_stack_ptr xed client globals })
write_registers-plan_example = write_registers-plan xed client state

plan_of_state : write_plan xed globals ≡ 11 ∷ 90 ∷ []
unfolding write_plan microx.Registers.WriteBack.modified_from microx.Registers.WriteBack.pc_from
plan_of_state = refl

-- XED answers for an XMM register with the YMM register.
abbrev vectors : Xed
vectors = record xed {
  enclosing = λ r.
      if leb xed.xmm_first r && ltb r (xed.xmm_first + 8)
      then r - xed.xmm_first + xed.ymm_first
      else r;
}

vector_ranges : IsVectorRanges vectors
vector_ranges = record {
  ymm_length = refl;
  ymm_below_zmm = omega arith;
  invalid_below = omega arith;
}

abbrev with_avx : Executor ℕ
with_avx = record client { has_avx = true; has_avx512 = true }

-- XMM2 is requested as YMM2, by a client with AVX512 too.
widest_register-vector_example :
    widest_register vectors with_avx (xed.xmm_first + 2)
    ≡ vector_register vectors true (true && false) 2
widest_register-vector_example =
    widest_register-vector vectors with_avx (xed.xmm_first + 2) 2 false vector_ranges refl
      (omega arith) refl
