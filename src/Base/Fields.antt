-- ===== src/Base/Fields.antt =====
-- Fields of a number: `w` bits from bit `o` on, as they are read and stored in a packed structure.
use native.Mathlib.Nat.{
  mul_assoc, one-le-pow, pow-suc, mul-add-div_right, mul-add-mod_self_right, mod-mod, mod-lt,
  div-eq_of_lt, div-add-mod',
}
use Prim.Native.Nat.{ℕ, zero, suc, ◌+◌, ◌*◌, ◌/◌, ◌%◌, ◌^◌, ◌<◌}
use mathlib.Core.Path.{◌≡◌, sym, ap, ◌∙◌}
use native.Mathlib.Omega.{arith}

abbrev field : ℕ → ℕ → ℕ → ℕ
field w o d = d / 2 ^ o % 2 ^ w

-- A number that is put together at bit `o`.
abbrev joined : ℕ → ℕ → ℕ → ℕ
joined o high low = high * 2 ^ o + low

pub pos-pow : (n : ℕ) → 0 < 2 ^ n
pos-pow n = one-le-pow n 2 (omega arith)

pow-add : (a b : ℕ) → 2 ^ (a + b) ≡ 2 ^ b * 2 ^ a
pow-add a zero = let e : a + 0 ≡ a = omega arith in rw e (omega arith)
pow-add a (suc b) =
    let e : a + suc b ≡ suc (a + b) = omega arith in
    rw (e, pow-suc 2 (a + b), pow-suc 2 b, pow-add a b) (grind arith)

-- The part from bit `o` on.
high-joined : (o high low : ℕ) → low < 2 ^ o → joined o high low / 2 ^ o ≡ high
high-joined o high low small =
    mul-add-div_right (pos-pow o) high low ∙ rw (div-eq_of_lt small) (omega arith)

-- A field below the joint.
low-joined : (w o k high low : ℕ) → field w o (joined (o + (w + k)) high low) ≡ field w o low
low-joined w o k high low =
    let split : high * 2 ^ (o + (w + k)) ≡ high * 2 ^ k * 2 ^ w * 2 ^ o =
      rw (pow-add o (w + k), pow-add w k)
        (sym (mul_assoc high (2 ^ k * 2 ^ w) (2 ^ o))
          ∙ ap (λ m. m * 2 ^ o) (sym (mul_assoc high (2 ^ k) (2 ^ w)))) in
    rw split (
      ap (λ m. m % 2 ^ w) (mul-add-div_right (pos-pow o) (high * 2 ^ k * 2 ^ w) low)
      ∙ mul-add-mod_self_right (high * 2 ^ k) (2 ^ w) (low / 2 ^ o))

-- A store at bit `o` of `v`, `w` bits wide.
abbrev stored : ℕ → ℕ → ℕ → ℕ → ℕ
stored w o v d = joined o (joined w (d / 2 ^ o / 2 ^ w) (v % 2 ^ w)) (d % 2 ^ o)

-- What is stored is read back.
pub field-stored : (w o v d : ℕ) → field w o (stored w o v d) ≡ v % 2 ^ w
field-stored w o v d =
    ap (λ m. m % 2 ^ w) (high-joined o _ (d % 2 ^ o) (mod-lt d (pos-pow o)))
    ∙ mul-add-mod_self_right (d / 2 ^ o / 2 ^ w) (2 ^ w) (v % 2 ^ w)
    ∙ mod-mod v (2 ^ w)

-- A field that ends where the store begins, or before, is not changed.
pub field-stored_above :
    (w o w' o' k v d : ℕ) → o' ≡ o + (w + k) → field w o (stored w' o' v d) ≡ field w o d
field-stored_above w o w' o' k v d place = rw place (
    low-joined w o k _ (d % 2 ^ (o + (w + k)))
    ∙ sym (low-joined w o k (d / 2 ^ (o + (w + k))) (d % 2 ^ (o + (w + k))))
    ∙ ap (field w o) (div-add-mod' d (2 ^ (o + (w + k)))))
