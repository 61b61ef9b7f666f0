-- ===== src/Python/RoundTrip.antt =====
-- What a Python object that keeps its registers as bytes gives back (`microx/Python.cpp`).
use native.Mathlib.Nat.{mul-add-mod_self_right, mod-mod}
use microx.Base.{
  ℕ, ◌+◌, ◌*◌, ◌/◌, ◌%◌, ◌^◌, ◌≤◌, ◌≡◌, refl, ap, ◌∙◌, Bool, true, false, ==-refl, leb, low_bits,
  store_bits, [], ◌∷◌, some, String, arith,
}
use microx.State.{RegRequestHint}
use microx.Python.Api.{
  Api, string_argument, reg_hint_argument, bytes_argument, Usage, read_register_usage,
}
use microx.Python.Values.{Client, value_size, data_size, read_value, read_bytes_value}
use microx.Python.Client.{calling, converted, data_bytes, read_reg, write_reg}

-- A Python object that keeps what it is given: a method `set` of a name and some bytes, and a method
-- `get` of the name and a hint that returns a bytes object with the bytes that were set last.
pub record KeepsRegisters {O W : Type 0} (api : Api O W) : Type 0 where
  pub done : O
  pub object : ℕ → ℕ → O
  pub kept : String → ℕ → ℕ → W → W
  pub is_bytes : (n v : ℕ) → api.bytes_check (object n v) ≡ true
  pub size_of : (n v : ℕ) → api.bytes_size (object n v) ≡ n
  pub value_of : (n v : ℕ) → api.bytes_value (object n v) ≡ v
  pub set :
      (name : String) (n v : ℕ) (w : W)
      → api.call_method "write_register" (string_argument name ∷ bytes_argument n v ∷ []) w
        ≡ (some done, kept name n v w)
  pub get :
      (name : String) (hint : RegRequestHint) (n v : ℕ) (w : W)
      → api.call_method "read_register"
          (string_argument name ∷ reg_hint_argument hint ∷ [])
          (kept name n v w)
        ≡ (some (object n v), kept name n v w)

stored_low : (n v old : ℕ) → low_bits n (store_bits n v old) ≡ low_bits n v
stored_low n v old = mul-add-mod_self_right (old / 2 ^ n) (2 ^ n) (v % 2 ^ n) ∙ mod-mod v (2 ^ n)

module _ {O W : Type 0} (api : Api O W) (k : KeepsRegisters api) where
  write_reg_kept :
      (name : String) (size val : ℕ) (c : Client W)
      → size ≤ 512
      → c.has_error ≡ false
      → write_reg api name size val c ≡ (
        true,
        record c {
          python = k.kept name ((size + 7) / 8) (low_bits (8 * ((size + 7) / 8)) val) c.python;
        },
      )
  unfolding write_reg calling data_bytes
  write_reg_kept name size val c fits no_error =
      let inside : leb ((size + 7) / 8) data_size ≡ true = ground arith in
      rw
        (
          no_error,
          inside,
          k.set name ((size + 7) / 8) (low_bits (8 * ((size + 7) / 8)) val) c.python,
        )
        refl

  bytes_kept :
      (n v old : ℕ) (usage : Usage) (c : Client W)
      → read_bytes_value api (k.object n v) n old usage c ≡ (true, low_bits (8 * n) v, c)
  unfolding read_bytes_value
  bytes_kept n v old usage c =
      rw (k.size_of n v, ==-refl n, k.value_of n v)
        (ap (λ stored. (true, stored, c)) (stored_low (8 * n) v old))

  read_reg_kept :
      (name : String) (size n v old : ℕ) (hint : RegRequestHint) (c : Client W) (w : W)
      → c.has_error ≡ false
      → value_size size ≡ n
      → c.python ≡ k.kept name n v w
      → read_reg api name size hint old c ≡ (true, low_bits (8 * n) v, c)
  unfolding read_reg calling converted read_value
  read_reg_kept name size n v old hint c w no_error same now =
      rw (no_error, now, k.get name hint n v w, k.is_bytes n v, same)
        (bytes_kept n v old (read_register_usage name)
          (record c { has_error = false; python = k.kept name n v w }))

  whole_bytes : (size : ℕ) → size ≤ 512 → value_size size ≡ (size + 7) / 8
  unfolding value_size
  whole_bytes size fits = ground arith

  -- For a Python object that keeps its registers as bytes, before an error was kept and for a
  -- register of at most 512 bits: `WriteReg` succeeds, and `ReadReg` of the same name and size then
  -- succeeds and gives the register's value back, cut to its whole bytes.
  pub read_reg-write_reg :
      (name : String) (size val old : ℕ) (hint : RegRequestHint) (c : Client W)
      → size ≤ 512
      → c.has_error ≡ false
      → let (written, c') = write_reg api name size val c in
        let (passed, v, c'') = read_reg api name size hint old c' in
        (written ≡ true)
        × (passed ≡ true)
        × (v ≡ low_bits (8 * ((size + 7) / 8)) val)
        × (c''.has_error ≡ false)
  read_reg-write_reg name size val old hint c fits no_error =
      let n = (size + 7) / 8 in
      let stored = low_bits (8 * n) val in
      let after = record c { python = k.kept name n stored c.python } in
      let w = write_reg_kept name size val c fits no_error in
      let r =
        read_reg_kept name size n stored old hint after c.python no_error (whole_bytes size fits)
          refl in
      (
        ap (λ (p : Bool × Client W). p.0) w,
        ap (λ (p : Bool × Client W). (read_reg api name size hint old p.1).0) w
            ∙ ap (λ (p : Bool × ℕ × Client W). p.0) r,
        ap (λ (p : Bool × Client W). (read_reg api name size hint old p.1).1) w
            ∙ ap (λ (p : Bool × ℕ × Client W). p.1) r
            ∙ mod-mod val (2 ^ (8 * n)),
        ap (λ (p : Bool × Client W). (read_reg api name size hint old p.1).2.has_error) w
            ∙ ap (λ (p : Bool × ℕ × Client W). p.2.has_error) r
            ∙ no_error,
      )
