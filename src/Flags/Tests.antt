-- ===== src/Flags/Tests.antt =====
-- The theorems on flags at concrete inputs.
use microx.Base.{
  ℕ, some, store_bits, ◌%◌, ◌≡◌, refl, inl, inr, arith, true, false, ◌==◌, ltb, if◌then◌else◌,
  sub64, u8, low_bits, bit,
}
use microx.Xed.{SimpleFlag}
use microx.State.{State}
use microx.Registers.{widest_register}
use microx.Flags.{
  read_flags, read_mask, parity_flag, update_flags_sub, flag_order, write_flags, cf_bit, pf_bit,
  af_bit, zf_bit, sf_bit,
}
use microx.Flags.Parity.{ones, parity_flag-ones}
use microx.Flags.Sub.{update_flags_sub-unsigned, update_flags_sub_sign}
use microx.Flags.Transfer.{
  answered, asked, planned, write_all, read_flags-answered, write_flags-planned, flags_written,
}
use microx.Fixture.{push_inst, xed, client, host, globals, state}

parity_flag-ones_example : parity_flag 0xb5 ≡ (ones 8 0xb5 % 2 == 0)
parity_flag-ones_example = parity_flag-ones 0xb5 (omega arith)

-- 3 - 5 borrows.
update_flags_sub-unsigned_example :
    (bit cf_bit (update_flags_sub host 3 5 (sub64 3 5) 64 0) ≡ ltb 3 5)
    × (bit zf_bit (update_flags_sub host 3 5 (sub64 3 5) 64 0) ≡ (3 == 5))
    × (bit af_bit (update_flags_sub host 3 5 (sub64 3 5) 64 0) ≡ ltb (3 % 16) (5 % 16))
    × (bit pf_bit (update_flags_sub host 3 5 (sub64 3 5) 64 0) ≡ (ones 8 (u8 (sub64 3 5)) % 2 == 0))
update_flags_sub-unsigned_example =
    update_flags_sub-unsigned host 3 5 64 0 (omega arith) (omega arith)

-- 3 - 5 is negative, and its lowest bit is 0.
update_flags_sub_sign_example :
    bit sf_bit (update_flags_sub host 3 5 (sub64 3 5) 32 0) ≡ (sub64 3 5 % 2 == 1)
update_flags_sub_sign_example =
    update_flags_sub_sign host 3 5 32 0 (λ n k. refl) (inr (inr (inl refl)))

-- The carry flag is read, and the client answers 7, whose lowest bit is 1.
abbrev reads_carry : SimpleFlag
reads_carry = record { flags_read = 1; flags_written = 0x41; may_write = false }

abbrev add_with_carry : State ℕ
add_with_carry = record state {
  globals = record globals { xedd = record push_inst { rflags_info = some reads_carry } };
}

read_flags-answered_example :
    (aflag : ℕ) × ((read_flags xed client host add_with_carry).0 ≡ true)
    × ((read_flags xed client host add_with_carry).1.globals.regs xed.rflags
        ≡ store_bits 64 aflag (globals.regs xed.rflags))
    × ((j : ℕ)
        → bit j aflag
          ≡ answered
              (λ name. 7)
              (asked flag_order (read_mask xed client reads_carry) j)
              (bit j host.native_flags))
read_flags-answered_example =
    read_flags-answered xed client (λ name. 7) host reads_carry add_with_carry (λ name val w. refl)
      refl

-- The carry and the zero flag are to be written.
write_flags-planned_example :
    let (finished, env) =
      write_all xed client
        (planned flag_order globals.write_back_flags (low_bits 64 (globals.regs xed.rflags)))
        0 in
    write_flags xed client state ≡ (
      if globals.modified_regs (widest_register xed client xed.eflags)
      then (
        finished,
        record state { globals = flags_written xed client finished globals; env = env },
      )
      else (true, state))
write_flags-planned_example = write_flags-planned xed client state
