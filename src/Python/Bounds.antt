-- ===== src/Python/Bounds.antt =====
-- The size of the values that `ReadValue` accepts (`microx/Python.cpp`).
use native.Mathlib.Nat.{mod-lt}
use microx.Base.Fields.{pos-pow}
use microx.Base.{
  ℕ, ◌*◌, ◌^◌, ◌≤◌, ◌<◌, ◌≡◌, ◌⊎◌, inl, inr, refl, Bool, true, false, ◌==◌, if◌then◌else◌,
  Bool-cases, low_bits, arith,
}
use microx.Python.Api.{Api, Usage}
use microx.Python.Values.{
  Client, value_size, data_size, read_value, read_bytes_value, read_exact_long_value,
  read_float_value,
}

value_size-le : (num_bits : ℕ) → value_size num_bits ≤ data_size
unfolding value_size
value_size-le num_bits = ground arith

module _ {O W : Type 0} (api : Api O W) (o : O) (num_bits val : ℕ) (usage : Usage) where
  -- A result that fits if it passed.
  abbrev FitsIf : Bool → ℕ → Type 0
  FitsIf passed v = passed ≡ true → v < 2 ^ (8 * value_size num_bits)

  abbrev Fits : Bool × ℕ × Client W → Type 0
  Fits r = FitsIf r.0 r.1

  either :
      (b : Bool) (p q : Bool × ℕ × Client W)
      → (b ≡ true → Fits p)
      → (b ≡ false → Fits q)
      → Fits (if b then p else q)
  either true p q l r = l refl
  either false p q l r = r refl

  fill-Fits : (v : ℕ) → FitsIf true (low_bits (8 * value_size num_bits) v)
  fill-Fits v passed = mod-lt v (pos-pow (8 * value_size num_bits))

  fails-Fits : (v : ℕ) → FitsIf false v
  fails-Fits v passed = cc

  bytes-Fits : (c : Client W) → Fits (read_bytes_value api o (value_size num_bits) val usage c)
  unfolding read_bytes_value
  bytes-Fits c =
      either (value_size num_bits == api.bytes_size o) _ _ (λ _. fill-Fits _) (λ _. fails-Fits _)

  read_value-Fits :
      (c : Client W) → api.long_check o ≡ false → Fits (read_value api o num_bits val usage c)
  unfolding read_value read_exact_long_value read_float_value
  read_value-Fits c other =
      either c.has_error _ _ (λ _. fails-Fits _)
        (λ _.
          either (api.bytes_check o) _ _ (λ _. bytes-Fits c)
            (λ _.
              either (api.long_check o) _ _ (λ y. cc)
                (λ _.
                  either (api.long_check_exact o) _ _ (λ _. fill-Fits _)
                    (λ _. either (api.float_check o) _ _ (λ _. fill-Fits _) (λ _. fails-Fits _)))))

  -- If `ReadValue` accepts a value, then the value fits into the bytes that were asked for, at most
  -- 64, or the object is an integer.
  pub read_value-bounds :
      (c : Client W)
      → (read_value api o num_bits val usage c).0 ≡ true
      → ((read_value api o num_bits val usage c).1 < 2 ^ (8 * value_size num_bits))
        ⊎ (api.long_check o ≡ true)
  read_value-bounds c passed = elim (Bool-cases (api.long_check o)) [
    | inl y ↦ inr y
    | inr n ↦ inl (read_value-Fits c n passed)
  ]
