-- ===== src/Flags/Parity.antt =====
-- The parity flag, over all values of a byte.
use microx.Base.{
  ℕ, zero, suc, ◌+◌, ◌/◌, ◌%◌, ◌<◌, ◌≡◌, refl, Bool, true, false, ◌&&◌, ◌==◌, arith, &&-left,
  &&-right,
}
use native.Mathlib.Decide.{dec_lt}
use microx.Flags.{parity_flag}

-- The number of ones among the low `k` bits.
unfoldable pub ones : ℕ → ℕ → ℕ
ones zero n = 0
ones (suc k) n = n % 2 + ones k (n / 2)

same_truth : Bool → Bool → Bool
same_truth true b = b
same_truth false true = false
same_truth false false = true

same_truth→eq : (a b : Bool) → same_truth a b ≡ true → a ≡ b
unfolding same_truth
same_truth→eq true true h = refl
same_truth→eq true false h = cc
same_truth→eq false true h = cc
same_truth→eq false false h = refl

agrees_below : ℕ → Bool
agrees_below zero = true
agrees_below (suc n) = same_truth (parity_flag n) (ones 8 n % 2 == 0) && agrees_below n

agrees_below_sound : (n r : ℕ) → agrees_below n ≡ true → r < n → parity_flag r ≡ (ones 8 r % 2 == 0)
unfolding agrees_below
agrees_below_sound zero r h p = absurd (omega arith)
agrees_below_sound (suc n) r h p = elim (dec_lt r n) [
  | yes q ↦ agrees_below_sound n r (&&-right _ _ h) q
  | no q ↦ let e : r ≡ n = omega arith in rw e (same_truth→eq _ _ (&&-left _ _ h))
]

agrees_on_bytes : agrees_below 256 ≡ true
unfolding agrees_below same_truth parity_flag ones
agrees_on_bytes = refl

-- `ParityFlag` of a byte is set exactly when the byte has an even number of ones.
pub parity_flag-ones : (r : ℕ) → r < 256 → parity_flag r ≡ (ones 8 r % 2 == 0)
parity_flag-ones r h = agrees_below_sound 256 r agrees_on_bytes h
