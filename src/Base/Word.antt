-- ===== src/Base/Word.antt =====
-- Casts to the fixed widths, wrapping arithmetic of `uintptr_t`, and single bits.
use Prim.Native.Nat.{ℕ, zero, suc, ◌+◌, ◌-◌, ◌*◌, ◌/◌, ◌%◌, ◌^◌, ◌<◌}
use mathlib.Core.Bool.{Bool, true, false}
use mathlib.Core.Path.{◌≡◌}
use native.Mathlib.Omega.{arith}
use microx.Base.Tests.{◌==◌, if◌then◌else◌}

abbrev pub u8 : ℕ → ℕ
u8 n = n % 2 ^ 8

abbrev pub u16 : ℕ → ℕ
u16 n = n % 2 ^ 16

abbrev pub u32 : ℕ → ℕ
u32 n = n % 2 ^ 32

abbrev pub u64 : ℕ → ℕ
u64 n = n % 2 ^ 64

-- `a + b` and `a - b` of `uintptr_t`; the modulus comes first, since `-` stops at 0.
abbrev pub add64 : ℕ → ℕ → ℕ
add64 a b = u64 (a + b)

abbrev pub sub64 : ℕ → ℕ → ℕ
sub64 a b = u64 (a + (2 ^ 64 - u64 b))

-- The low `w` bits of the bytes at an address, and a store of `w` bits there (little endian).
abbrev pub low_bits : ℕ → ℕ → ℕ
low_bits w d = d % 2 ^ w

abbrev pub store_bits : ℕ → ℕ → ℕ → ℕ
store_bits w v d = d / 2 ^ w * 2 ^ w + v % 2 ^ w

abbrev pub of_bool : Bool → ℕ
of_bool true = 1
of_bool false = 0

-- A one-bit field of a packed union, and an assignment to it. Bit 0 is the lowest.
unfoldable pub bit : ℕ → ℕ → Bool
bit zero n = n % 2 == 1
bit (suc k) n = bit k (n / 2)

unfoldable pub set_bit : ℕ → Bool → ℕ → ℕ
set_bit zero b n = n / 2 * 2 + of_bool b
set_bit (suc k) b n = set_bit k b (n / 2) * 2 + n % 2

half_of_digits : (a d : ℕ) → d < 2 → (a * 2 + d) / 2 ≡ a
half_of_digits a d h = omega arith

of_bool-lt : (b : Bool) → of_bool b < 2
of_bool-lt true = omega arith
of_bool-lt false = omega arith

-- An assignment changes its own field, and no other.
pub bit-set_bit : (j k n : ℕ) (b : Bool) → bit j (set_bit k b n) ≡ (if j == k then b else bit j n)
unfolding bit set_bit
bit-set_bit zero zero n true = ground arith
bit-set_bit zero zero n false = ground arith
bit-set_bit zero (suc k) n b = ground arith
bit-set_bit (suc j) zero n b = rw (half_of_digits (n / 2) (of_bool b) (of_bool-lt b)) (ground arith)
bit-set_bit (suc j) (suc k) n b =
    rw (half_of_digits (set_bit k b (n / 2)) (n % 2) (omega arith))
      (ground (arith, bit-set_bit j k (n / 2) b))
