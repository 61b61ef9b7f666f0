-- ===== src/Emulate/Tests.antt =====
-- The theorems on emulated instructions at concrete inputs.
use microx.Base.{
  ℕ, ◌+◌, ◌*◌, ◌%◌, ◌^◌, ◌≡◌, ◌≢◌, ◌↔◌, refl, true, not, ◌==◌, ltb, leb, if◌then◌else◌, sub64, some,
  arith,
}
use microx.Base.Word.{bit}
use microx.Xed.{Iform}
use microx.State.{Globals}
use microx.Registers.{read_gpr, read_value, is_gpr8h}
use microx.Emulate.Machine.{flag}
use microx.Flags.{zf_bit}
use microx.Emulate.Dispatch.{emulate_form}
use microx.Emulate.Conditions.{
  IsCompared, AllGo, is_negative, overflows, signed_lt, branches_compare,
}
use microx.Emulate.Loops.{pc_after, loop_agrees_iff}
use microx.Emulate.Rep.{IsRepStos, run_rep, rep_stos_completes}
use microx.Emulate.Scan.{search, IsScan, run_scan}
use microx.Emulate.Scan.Search.{run_scan-search}
use microx.Fixture.{xed, host, globals, xed-HighBytes}
use microx.Fixture.Operation.{here}

here-IsRepStos : IsRepStos xed here
here-IsRepStos = record {
  high_bytes = xed-HighBytes;
  count_width = refl;
  dest_width = refl;
  apart = omega arith;
  moves_on = omega arith;
}

rep_stos_completes_example :
    (g' : Globals) × (run_rep xed 5 here globals ≡ some (g', 0x102))
    × (read_gpr xed 11 g' ≡ 0)
    × (read_gpr xed 17 g' ≡ (read_gpr xed 17 globals + read_gpr xed 11 globals * 8) % 2 ^ 64)
unfolding read_gpr read_value is_gpr8h
rep_stos_completes_example =
    rep_stos_completes xed here here-IsRepStos 5 globals (omega arith) (omega arith)

here-IsScan : IsScan xed here
here-IsScan = record {
  high_bytes = xed-HighBytes;
  count_width = refl;
  dest_width = refl;
  apart = omega arith;
  count_no_flags = omega arith;
  dest_no_flags = omega arith;
  value_no_flags = omega arith;
  value_no_count = omega arith;
  value_no_dest = omega arith;
  moves_on = omega arith;
}

-- The elements are 0 below some address and 7 from there on.
abbrev step_at : ℕ → ℕ → ℕ
step_at a p = if ltb p a then 0 else 7

run_scan-search_example :
    let n = read_gpr xed 11 globals in
    let (left, pointer, equal) =
      search true (step_at 0x1000) (read_gpr xed 13 globals) 8 n (read_gpr xed 17 globals) in
    (g' : Globals) × (run_scan xed host true (step_at 0x1000) 100 here globals ≡ some (g', 0x102))
    × (read_gpr xed 11 g' ≡ left)
    × (read_gpr xed 17 g' ≡ pointer)
    × (flag xed zf_bit g' ≡ (if n == 0 then flag xed zf_bit globals else equal))
unfolding read_gpr read_value is_gpr8h
run_scan-search_example =
    run_scan-search xed host true (step_at 0x1000) here here-IsScan 100 globals (λ p. ground arith)
      (omega arith)

loop_agrees_iff_example :
    (pc_after (emulate_form xed host Iform.loop_relbrb here globals)
      ≡ (if sub64 3 1 == 0 then 0x102 else 0x112))
    ↔ ((here.count ≢ 0) × (here.count ≢ 1))
loop_agrees_iff_example = loop_agrees_iff xed host here globals (omega arith) (omega arith)

-- The flags after a comparison of 3 with 5.
abbrev after_comparison : Globals
after_comparison = record globals { regs = λ r. 0x81 }

comparison : IsCompared xed (2 ^ 63) 3 5 after_comparison
unfolding bit
comparison = record {
  a_fits = omega arith;
  b_fits = omega arith;
  carry = refl;
  zero_flag = refl;
  sign = refl;
  overflow = refl;
}

branches_compare_example :
    let g = after_comparison in
    AllGo xed host Iform.jb_relbrb Iform.jb_relbrz Iform.jb_relbrd (ltb 3 5) here g
    × AllGo xed host Iform.jnb_relbrb Iform.jnb_relbrz Iform.jnb_relbrd (not (ltb 3 5)) here g
    × AllGo xed host Iform.jbe_relbrb Iform.jbe_relbrz Iform.jbe_relbrd (leb 3 5) here g
    × AllGo xed host Iform.jnbe_relbrb Iform.jnbe_relbrz Iform.jnbe_relbrd (not (leb 3 5)) here g
    × AllGo xed host Iform.jz_relbrb Iform.jz_relbrz Iform.jz_relbrd (3 == 5) here g
    × AllGo xed host Iform.jnz_relbrb Iform.jnz_relbrz Iform.jnz_relbrd (not (3 == 5)) here g
    × AllGo xed host Iform.jl_relbrb Iform.jl_relbrz Iform.jl_relbrd (signed_lt (2 ^ 63) 3 5) here g
    × AllGo xed host Iform.jnl_relbrb Iform.jnl_relbrz Iform.jnl_relbrd
        (not (signed_lt (2 ^ 63) 3 5))
        here
        g
    × AllGo xed host Iform.jle_relbrb Iform.jle_relbrz Iform.jle_relbrd
        (not (signed_lt (2 ^ 63) 5 3))
        here
        g
    × AllGo xed host Iform.jnle_relbrb Iform.jnle_relbrz Iform.jnle_relbrd
        (signed_lt (2 ^ 63) 5 3)
        here
        g
    × AllGo xed host Iform.js_relbrb Iform.js_relbrz Iform.js_relbrd
        (is_negative (2 ^ 63) 3 5)
        here
        g
    × AllGo xed host Iform.jns_relbrb Iform.jns_relbrz Iform.jns_relbrd
        (not (is_negative (2 ^ 63) 3 5))
        here
        g
    × AllGo xed host Iform.jo_relbrb Iform.jo_relbrz Iform.jo_relbrd (overflows (2 ^ 63) 3 5) here g
    × AllGo xed host Iform.jno_relbrb Iform.jno_relbrz Iform.jno_relbrd
        (not (overflows (2 ^ 63) 3 5))
        here
        g
branches_compare_example = branches_compare xed (2 ^ 63) 3 5 after_comparison comparison host here
