-- ===== src/Emulate/Conditions.antt =====
-- The conditional branches of `Emulate` after a comparison.
use microx.Base.{
  ℕ, ◌+◌, ◌-◌, ◌<◌, ◌≡◌, ap, Bool, not, differs, ◌&&◌, ◌==◌, ltb, leb, if◌then◌else◌, arith,
}
use microx.Xed.{Xed, Iform}
use microx.Host.{Host}
use microx.State.{Globals}
use microx.Flags.{cf_bit, zf_bit, sf_bit, of_bit}
use microx.Emulate.Machine.{Emulated, handled, Locals, flag}
use microx.Emulate.Branch.{
  branch_if, jnle, jl, jnz, jnb, jnl, jnbe, jbe, jz, jb, jle, js, jns, jo, jno,
}
use microx.Emulate.Dispatch.{emulate_form}

-- `half` is the weight of the sign bit of the compared words.
abbrev pub difference : ℕ → ℕ → ℕ → ℕ
difference half a b = if leb b a then a - b else a + (half + half) - b

-- The order of signed words is that of the words with the sign bit turned over.
abbrev pub turned : ℕ → ℕ → ℕ
turned half a = if ltb a half then a + half else a - half

abbrev pub signed_lt : ℕ → ℕ → ℕ → Bool
signed_lt half a b = ltb (turned half a) (turned half b)

-- The sign of the difference, and the signed overflow of the subtraction.
abbrev pub is_negative : ℕ → ℕ → ℕ → Bool
is_negative half a b = leb half (difference half a b)

abbrev pub overflows : ℕ → ℕ → ℕ → Bool
overflows half a b =
    differs (leb half a) (leb half b) && differs (leb half a) (leb half (difference half a b))

-- The flags after the processor's comparison of `a` with `b`.
pub record IsCompared (x : Xed) (half a b : ℕ) (g : Globals) : Type 0 where
  pub a_fits : a < half + half
  pub b_fits : b < half + half
  pub carry : flag x cf_bit g ≡ ltb a b
  pub zero_flag : flag x zf_bit g ≡ (a == b)
  pub sign : flag x sf_bit g ≡ is_negative half a b
  pub overflow : flag x of_bit g ≡ overflows half a b

-- Where the program goes after a branch that is taken under a condition.
abbrev pub goes : Bool → Locals → Globals → Emulated
goes taken l g = handled g (if taken then l.branch_target_pc else l.next_pc)

all_forms :
    (test taken : Bool) (l : Locals) (g : Globals)
    → test ≡ taken
    → (branch_if test l g ≡ goes taken l g)
      × (branch_if test l g ≡ goes taken l g)
      × (branch_if test l g ≡ goes taken l g)
all_forms test taken l g same = let e = ap (λ b. branch_if b l g) same in (e, e, e)

-- A branch with a displacement of 8, of 16 or 32, and of 32 bits.
abbrev pub AllGo : Xed → Host → Iform → Iform → Iform → Bool → Locals → Globals → Type 0
AllGo x h short near long taken l g =
    (emulate_form x h short l g ≡ goes taken l g)
    × (emulate_form x h near l g ≡ goes taken l g)
    × (emulate_form x h long l g ≡ goes taken l g)

module _ (x : Xed) (half a b : ℕ) (g : Globals) (c : IsCompared x half a b g) where
  sign_ne_overflow : differs (flag x sf_bit g) (flag x of_bit g) ≡ signed_lt half a b
  sign_ne_overflow = rw (c.sign, c.overflow) (let p = c.a_fits in let q = c.b_fits in ground arith)

  -- After a comparison of two words, each conditional branch that names an order of them, with each
  -- form of its displacement, is taken exactly in that order: below and above compare the words
  -- unsigned, less and greater signed. JS and JNS go by the sign of the difference, JO and JNO by the
  -- signed overflow of the subtraction.
  pub branches_compare :
      (h : Host) (l : Locals)
      → AllGo x h Iform.jb_relbrb Iform.jb_relbrz Iform.jb_relbrd (ltb a b) l g
        × AllGo x h Iform.jnb_relbrb Iform.jnb_relbrz Iform.jnb_relbrd (not (ltb a b)) l g
        × AllGo x h Iform.jbe_relbrb Iform.jbe_relbrz Iform.jbe_relbrd (leb a b) l g
        × AllGo x h Iform.jnbe_relbrb Iform.jnbe_relbrz Iform.jnbe_relbrd (not (leb a b)) l g
        × AllGo x h Iform.jz_relbrb Iform.jz_relbrz Iform.jz_relbrd (a == b) l g
        × AllGo x h Iform.jnz_relbrb Iform.jnz_relbrz Iform.jnz_relbrd (not (a == b)) l g
        × AllGo x h Iform.jl_relbrb Iform.jl_relbrz Iform.jl_relbrd (signed_lt half a b) l g
        × AllGo x h Iform.jnl_relbrb Iform.jnl_relbrz Iform.jnl_relbrd
            (not (signed_lt half a b))
            l
            g
        × AllGo x h Iform.jle_relbrb Iform.jle_relbrz Iform.jle_relbrd
            (not (signed_lt half b a))
            l
            g
        × AllGo x h Iform.jnle_relbrb Iform.jnle_relbrz Iform.jnle_relbrd (signed_lt half b a) l g
        × AllGo x h Iform.js_relbrb Iform.js_relbrz Iform.js_relbrd (is_negative half a b) l g
        × AllGo x h Iform.jns_relbrb Iform.jns_relbrz Iform.jns_relbrd
            (not (is_negative half a b))
            l
            g
        × AllGo x h Iform.jo_relbrb Iform.jo_relbrz Iform.jo_relbrd (overflows half a b) l g
        × AllGo x h Iform.jno_relbrb Iform.jno_relbrz Iform.jno_relbrd
            (not (overflows half a b))
            l
            g
  unfolding emulate_form jb jnb jbe jnbe jz jnz jl jnl jle jnle js jns jo jno
  branches_compare h l =
      let p = c.a_fits in
      let q = c.b_fits in
      (
        all_forms (jb x g) (ltb a b) l g c.carry,
        all_forms (jnb x g) (not (ltb a b)) l g (ap not c.carry),
        all_forms (jbe x g) (leb a b) l g (rw (c.carry, c.zero_flag) (ground arith)),
        all_forms (jnbe x g) (not (leb a b)) l g (rw (c.carry, c.zero_flag) (ground arith)),
        all_forms (jz x g) (a == b) l g c.zero_flag,
        all_forms (jnz x g) (not (a == b)) l g (ap not c.zero_flag),
        all_forms (jl x g) (signed_lt half a b) l g sign_ne_overflow,
        all_forms (jnl x g) (not (signed_lt half a b)) l g (ap not sign_ne_overflow),
        all_forms (jle x g) (not (signed_lt half b a)) l g
            (rw (sign_ne_overflow, c.zero_flag) (ground arith)),
        all_forms (jnle x g) (signed_lt half b a) l g
            (rw (sign_ne_overflow, c.zero_flag) (ground arith)),
        all_forms (js x g) (is_negative half a b) l g c.sign,
        all_forms (jns x g) (not (is_negative half a b)) l g (ap not c.sign),
        all_forms (jo x g) (overflows half a b) l g c.overflow,
        all_forms (jno x g) (not (overflows half a b)) l g (ap not c.overflow),
      )
