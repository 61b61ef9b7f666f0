-- ===== src/Python/Values.antt =====
-- The state of `PythonExecutor` and its conversion of Python values, `ReadValue`
-- (`microx/Python.cpp`).
use microx.Base.{
  ℕ, ◌+◌, ◌*◌, ◌/◌, Bool, true, false, ◌||◌, ◌==◌, leb, if◌then◌else◌, low_bits, store_bits, Option,
  some,
}
use microx.Python.Api.{
  Api, Exception, value_error, type_error, Usage, Message, incorrect_bytes, cannot_convert,
}

-- The members of `PythonExecutor` that change, and the interpreter. `error_message` is read only
-- together with `error`, and written with it.
pub record Client (W : Type 0) : Type 0 where
  pub has_error : Bool
  pub error : Option (Exception × Message)
  pub python : W

-- `sizeof(Data)` and `sizeof(FPU)`.
abbrev pub data_size : ℕ
data_size = 64

abbrev pub fpu_size : ℕ
fpu_size = 512

-- `num_bytes` of `ReadValue`.
unfoldable pub value_size : ℕ → ℕ
value_size num_bits = let n = (num_bits + 7) / 8 in if leb n data_size then n else data_size

module _ {W : Type 0} where
  -- The error that the executor keeps, and whether it stops all further calls.
  abbrev pub record_error : Bool → Exception → Message → Client W → Client W
  record_error stops exception message c = record c {
    has_error = c.has_error || stops;
    error = some (exception, message);
  }

  abbrev pub set_python : W → Client W → Client W
  set_python w c = record c { python = w }

  -- What follows the branches of `ReadValue` that do not return: only the value's bytes are kept.
  abbrev pub fill : ℕ → ℕ → Client W → Bool × ℕ × Client W
  fill num_bytes val c = (true, low_bits (8 * num_bytes) val, c)

module _ {O W : Type 0} (api : Api O W) where
  -- The branches of `ReadValue`, by the kind of the object.
  unfoldable pub read_bytes_value : O → ℕ → ℕ → Usage → Client W → Bool × ℕ × Client W
  read_bytes_value o num_bytes val usage c =
      let size = api.bytes_size o in
      if num_bytes == size
      then fill num_bytes (store_bits (8 * num_bytes) (api.bytes_value o) val) c
      else (false, val, record_error true value_error (incorrect_bytes usage num_bytes size) c)

  unfoldable pub read_long_value : O → ℕ → Client W → Bool × ℕ × Client W
  read_long_value o val c =
      let (passed, val', w) = api.long_as_byte_array o data_size val c.python in
      let c' = set_python w c in
      if passed
      then (true, val', c')
      else (false, val', (if api.err_occurred w then record c' { has_error = true } else c'))

  unfoldable pub read_exact_long_value : O → ℕ → ℕ → Client W → Bool × ℕ × Client W
  read_exact_long_value o num_bytes val c =
      let (n, w) = api.long_as_long o c.python in
      fill num_bytes (store_bits 64 n val) (set_python w c)

  unfoldable pub read_float_value : O → ℕ → ℕ → ℕ → Client W → Bool × ℕ × Client W
  read_float_value o num_bits num_bytes val c =
      let (d, w) = api.float_as_double o c.python in
      let stored =
        if num_bits == 32 then store_bits 32 (api.float_of_double d) val else store_bits 64 d val in
      fill num_bytes stored (set_python w c)

  unfoldable pub read_value : O → ℕ → ℕ → Usage → Client W → Bool × ℕ × Client W
  unfolding read_bytes_value read_long_value read_exact_long_value read_float_value
  read_value o num_bits val usage c =
      let num_bytes = value_size num_bits in
      if c.has_error
      then (false, val, c)
      else if api.bytes_check o
      then read_bytes_value o num_bytes val usage c
      else if api.long_check o
      then read_long_value o val c
      else if api.long_check_exact o
      then read_exact_long_value o num_bytes val c
      else if api.float_check o
      then read_float_value o num_bits num_bytes val c
      else (false, val, record_error false type_error (cannot_convert (api.type_name o) usage) c)
