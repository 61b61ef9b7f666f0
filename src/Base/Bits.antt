-- ===== src/Base/Bits.antt =====
-- `&` and `|` of machine words, field by field: both split at any bit position.
use Prim.Native.Nat.{
  ℕ, zero, suc, ◌+◌, ◌-◌, ◌*◌, ◌/◌, ◌%◌, ◌^◌, ◌≤◌, ◌<◌, min, max, bit_and, bit_or, digits,
  bit_and-bitwise, bit_or-bitwise, bit_xor, bit_xor-bitwise, differ,
}
use mathlib.Core.Path.{◌≡◌, refl, ap}
use native.Mathlib.Nat.{le_refl, one-le-pow, pow-suc}
use native.Mathlib.Omega.{arith}

-- The recursion on digits that the operations stand for does not depend on its fuel.
digits_enough :
    (z : ℕ → ℕ) (f : ℕ → ℕ → ℕ) (n m a b : ℕ) → a ≤ n → a ≤ m → digits z f n a b ≡ digits z f m a b
digits_enough z f zero zero zero b p q = refl
digits_enough z f zero zero (suc a) b p q = absurd (omega arith)
digits_enough z f zero (suc m) zero b p q = refl
digits_enough z f zero (suc m) (suc a) b p q = absurd (omega arith)
digits_enough z f (suc n) zero zero b p q = refl
digits_enough z f (suc n) zero (suc a) b p q = absurd (omega arith)
digits_enough z f (suc n) (suc m) zero b p q = refl
digits_enough z f (suc n) (suc m) (suc a) b p q =
    rw (digits_enough z f n m (suc a / 2) (b / 2) (omega arith) (omega arith))

-- The lowest digit and the rest.
bit_and_digit : (a b : ℕ) → bit_and a b ≡ 2 * bit_and (a / 2) (b / 2) + min (a % 2) (b % 2)
bit_and_digit zero b = simp bit_and-bitwise (omega arith)
bit_and_digit (suc a) b = simp bit_and-bitwise (
    omega (
      arith,
      digits_enough (λ y. 0) min a (suc a / 2) (suc a / 2) (b / 2) (omega arith) (le_refl _),
    ))

bit_or_digit : (a b : ℕ) → bit_or a b ≡ 2 * bit_or (a / 2) (b / 2) + max (a % 2) (b % 2)
bit_or_digit zero b = simp bit_or-bitwise (omega arith)
bit_or_digit (suc a) b = simp bit_or-bitwise (
    omega (
      arith,
      digits_enough (λ y. y) max a (suc a / 2) (suc a / 2) (b / 2) (omega arith) (le_refl _),
    ))

double_field : (q k : ℕ) → q * 2 ^ suc k ≡ 2 * (q * 2 ^ k)
double_field q k = omega (arith, ap (λ (t : ℕ). q * t) (pow-suc 2 k))

-- At bit `k` a word is a high part times `2 ^ k` and a low part.
pub bit_and_split :
    (k p q r s : ℕ)
    → r < 2 ^ k
    → s < 2 ^ k
    → bit_and (p * 2 ^ k + r) (q * 2 ^ k + s) ≡ bit_and p q * 2 ^ k + bit_and r s
bit_and_split zero p q zero zero hr hs = ground (arith, bit_and_digit 0 0)
bit_and_split zero p q zero (suc s) hr hs = absurd (omega arith)
bit_and_split zero p q (suc r) s hr hs = absurd (omega arith)
bit_and_split (suc k) p q r s hr hs = ground (
  arith,
  pow-suc 2 k,
  double_field p k,
  double_field q k,
  double_field (bit_and p q) k,
  bit_and_digit (p * 2 ^ suc k + r) (q * 2 ^ suc k + s),
  bit_and_digit r s,
  bit_and_split k p q (r / 2) (s / 2) (omega (arith, pow-suc 2 k)) (omega (arith, pow-suc 2 k)),
)

pub bit_or_split :
    (k p q r s : ℕ)
    → r < 2 ^ k
    → s < 2 ^ k
    → bit_or (p * 2 ^ k + r) (q * 2 ^ k + s) ≡ bit_or p q * 2 ^ k + bit_or r s
bit_or_split zero p q zero zero hr hs = ground (arith, bit_or_digit 0 0)
bit_or_split zero p q zero (suc s) hr hs = absurd (omega arith)
bit_or_split zero p q (suc r) s hr hs = absurd (omega arith)
bit_or_split (suc k) p q r s hr hs = ground (
  arith,
  pow-suc 2 k,
  double_field p k,
  double_field q k,
  double_field (bit_or p q) k,
  bit_or_digit (p * 2 ^ suc k + r) (q * 2 ^ suc k + s),
  bit_or_digit r s,
  bit_or_split k p q (r / 2) (s / 2) (omega (arith, pow-suc 2 k)) (omega (arith, pow-suc 2 k)),
)

-- With nothing, and with a mask of `k` ones.
pub bit_and-zero : (k a : ℕ) → a < 2 ^ k → bit_and a 0 ≡ 0
bit_and-zero zero zero h = refl
bit_and-zero zero (suc a) h = absurd (omega arith)
bit_and-zero (suc k) a h =
    omega (arith, bit_and_digit a 0, bit_and-zero k (a / 2) (omega (arith, pow-suc 2 k)))

pub bit_or-zero : (k a : ℕ) → a < 2 ^ k → bit_or a 0 ≡ a
bit_or-zero zero zero h = refl
bit_or-zero zero (suc a) h = absurd (omega arith)
bit_or-zero (suc k) a h =
    omega (arith, bit_or_digit a 0, bit_or-zero k (a / 2) (omega (arith, pow-suc 2 k)))

pub bit_and_mask : (k a : ℕ) → a < 2 ^ k → bit_and a (2 ^ k - 1) ≡ a
bit_and_mask zero zero h = refl
bit_and_mask zero (suc a) h = absurd (omega arith)
bit_and_mask (suc k) a h = ground (
  arith,
  pow-suc 2 k,
  one-le-pow k 2,
  bit_and_digit a (2 ^ suc k - 1),
  bit_and_mask k (a / 2) (omega (arith, pow-suc 2 k)),
)

below_pow : (a : ℕ) → a < 2 ^ a
below_pow zero = omega arith
below_pow (suc a) = omega (arith, pow-suc 2 a, below_pow a)

-- A mask of `k` ones keeps the low `k` bits of any number.
pub bit_and_low : (k a : ℕ) → bit_and a (2 ^ k - 1) ≡ a % 2 ^ k
bit_and_low k a = ground (
  arith,
  one-le-pow k 2,
  bit_and_split k (a / 2 ^ k) 0 (a % 2 ^ k) (2 ^ k - 1),
  bit_and-zero (a / 2 ^ k) (a / 2 ^ k) (below_pow (a / 2 ^ k)),
  bit_and_mask k (a % 2 ^ k),
)

-- The bits of `^`: at bit `k` it is the sum of the two bits.
bit_xor_digit : (a b : ℕ) → bit_xor a b ≡ 2 * bit_xor (a / 2) (b / 2) + differ (a % 2) (b % 2)
bit_xor_digit zero b = simp bit_xor-bitwise (omega arith)
bit_xor_digit (suc a) b = simp bit_xor-bitwise (
    omega (
      arith,
      digits_enough (λ y. y) differ a (suc a / 2) (suc a / 2) (b / 2) (omega arith) (le_refl _),
    ))

differ_digits : (c d : ℕ) → c < 2 → d < 2 → differ c d ≡ (c + d) % 2
differ_digits zero d p q = omega arith
differ_digits (suc zero) zero p q = omega arith
differ_digits (suc zero) (suc zero) p q = omega arith
differ_digits (suc zero) (suc (suc d)) p q = absurd (omega arith)
differ_digits (suc (suc c)) d p q = absurd (omega arith)

xor_lowest : (a b : ℕ) → bit_xor a b % 2 ≡ (a + b) % 2
xor_lowest a b =
    omega (arith, bit_xor_digit a b, differ_digits (a % 2) (b % 2) (omega arith) (omega arith))

xor_half : (a b : ℕ) → bit_xor a b / 2 ≡ bit_xor (a / 2) (b / 2)
xor_half a b =
    omega (arith, bit_xor_digit a b, differ_digits (a % 2) (b % 2) (omega arith) (omega arith))

-- The bit of value 16.
pub xor_bit_four : (a b : ℕ) → bit_xor a b / 16 % 2 ≡ (a / 16 + b / 16) % 2
xor_bit_four a b = omega (
  arith,
  xor_half a b,
  xor_half (a / 2) (b / 2),
  xor_half (a / 2 / 2) (b / 2 / 2),
  xor_half (a / 2 / 2 / 2) (b / 2 / 2 / 2),
  xor_lowest (a / 2 / 2 / 2 / 2) (b / 2 / 2 / 2 / 2),
)

pub bit_and_sixteen : (a : ℕ) → bit_and a 16 ≡ a / 16 % 2 * 16
bit_and_sixteen a =
    ground (
      arith,
      bit_and_split 4 (a / 16) 1 (a % 16) 0,
      bit_and_low 1 (a / 16),
      bit_and-zero 4 (a % 16),
    )
