-- ===== src/Python/Client.antt =====
-- `PythonExecutor` of `microx/Python.cpp`: the methods of the class `Executor`, which call into Python.
use microx.Base.{
  ℕ, ◌+◌, ◌*◌, ◌/◌, Bool, true, false, not, ◌==◌, leb, if◌then◌else◌, u32, low_bits, List, [], ◌∷◌,
  Option, none, some, String,
}
use microx.State.{Executor, RegRequestHint, MemRequestHint}
use microx.MemoryOps.{compute_address}
use microx.Python.Values.{Client, data_size, fpu_size, record_error, set_python, read_value}
use microx.Python.Api.{
  Api, value_error, Usage, compute_address_usage, read_register_usage, read_memory_usage,
  fpu_not_bytes, incorrect_fpu_bytes, Argument, string_argument, unsigned_argument,
  reg_hint_argument, mem_hint_argument, bytes_argument,
}

module _ {O W : Type 0} (api : Api O W) where
  -- A method of the Python object is called, and its result is used, null included.
  unfoldable pub calling {ℓ} :
      {A : Type ℓ} → String → List Argument → (Option O → Client W → A) → Client W → A
  calling name arguments k c =
      let (result, w) = api.call_method name arguments c.python in k result (set_python w c)

  -- A result that is converted, where null is a failure.
  unfoldable pub converted : ℕ → ℕ → Usage → Option O → Client W → Bool × ℕ × Client W
  unfolding read_value
  converted num_bits val usage none c = (false, val, c)
  converted num_bits val usage (some o) c = read_value api o num_bits val usage c

  -- A result of which only null matters.
  abbrev pub succeeded : Option O → Client W → Bool × Client W
  succeeded none c = (false, c)
  succeeded (some o) c = (true, c)

  unfoldable pub read_reg : String → ℕ → RegRequestHint → ℕ → Client W → Bool × ℕ × Client W
  unfolding calling converted
  read_reg name size hint val c =
      if c.has_error
      then (false, val, c)
      else calling "read_register" (string_argument name ∷ reg_hint_argument hint ∷ [])
          (converted size val (read_register_usage name)) c

  -- `y#`: so many bytes of a `Data`.
  unfoldable pub data_bytes : ℕ → ℕ → Argument
  data_bytes size val =
      bytes_argument size
        (if leb size data_size then low_bits (8 * size) val else api.bytes_beyond size val)

  unfoldable pub write_reg : String → ℕ → ℕ → Client W → Bool × Client W
  unfolding calling data_bytes
  write_reg name size val c =
      if c.has_error
      then (false, c)
      else calling "write_register" (string_argument name ∷ data_bytes ((size + 7) / 8) val ∷ [])
          succeeded c

  unfoldable pub read_mem : ℕ → ℕ → MemRequestHint → ℕ → Client W → Bool × ℕ × Client W
  unfolding calling converted
  read_mem addr size hint val c =
      if c.has_error
      then (false, val, c)
      else calling "read_memory"
          (unsigned_argument addr
            ∷ unsigned_argument (u32 (size / 8))
            ∷ mem_hint_argument hint
            ∷ [])
          (converted size val (read_memory_usage addr (size / 8) hint)) c

  unfoldable pub write_mem : ℕ → ℕ → ℕ → Client W → Bool × Client W
  unfolding calling data_bytes
  write_mem addr size val c =
      if c.has_error
      then (false, c)
      else calling "write_memory" (unsigned_argument addr ∷ data_bytes (size / 8) val ∷ [])
          succeeded c

  -- The result of `read_fpu`.
  unfoldable pub fpu_result : ℕ → Option O → Client W → Bool × ℕ × Client W
  fpu_result val none c = (false, val, c)
  fpu_result val (some o) c =
      let size = api.bytes_size o in
      let wrong = record_error false value_error (incorrect_fpu_bytes fpu_size size) c in
      if not (api.bytes_check o)
      then (false, val, record_error true value_error fpu_not_bytes c)
      else if not (fpu_size == size)
      then (false, val, elim c.error [ none ↦ wrong | some earlier ↦ c ])
      else (true, low_bits (8 * fpu_size) (api.bytes_value o), c)

  unfoldable pub read_fpu : ℕ → Client W → Bool × ℕ × Client W
  unfolding calling fpu_result
  read_fpu val c = if c.has_error then (false, val, c) else calling "read_fpu" [] (fpu_result val) c

  -- There is no test of `has_error` here.
  unfoldable pub write_fpu : ℕ → Client W → Bool × Client W
  unfolding calling
  write_fpu val c = calling "write_fpu" (bytes_argument fpu_size val ∷ []) succeeded c

-- `ComputeAddress`. The local `Data` is uninitialized before the conversion.
module _ {O W : Type 0} (api : Api O W) (addr_size uninitialized : ℕ) where
  unfoldable pub address_result : Usage → ℕ → Option O → Client W → ℕ × Client W
  unfolding read_value
  address_result usage address none c =
      (address, (if api.err_occurred c.python then record c { has_error = true } else c))
  address_result usage address (some o) c =
      let (passed, val, c') = read_value api o addr_size uninitialized usage c in
      ((if passed then low_bits 64 val else address), c')

  unfoldable pub python_compute_address :
      String → ℕ → ℕ → ℕ → ℕ → ℕ → MemRequestHint → Client W → ℕ × Client W
  unfolding calling address_result
  python_compute_address seg_name base index scale displacement size hint c =
      let arguments =
        string_argument seg_name
        ∷ unsigned_argument base
        ∷ unsigned_argument index
        ∷ unsigned_argument scale
        ∷ unsigned_argument displacement
        ∷ unsigned_argument (u32 (size / 8))
        ∷ mem_hint_argument hint
        ∷ [] in
      let usage = compute_address_usage seg_name base index scale displacement (size / 8) hint in
      let address = compute_address seg_name base index scale displacement size hint in
      if c.has_error
      then (0, c)
      else calling api "compute_address" arguments (address_result usage address) c

  -- The object as a client of the executor; the constructor leaves AVX and AVX512 out.
  abbrev pub python_executor : Executor (Client W)
  python_executor = record {
    addr_size = addr_size;
    has_avx = false;
    has_avx512 = false;
    compute_address = python_compute_address;
    read_reg = read_reg api;
    write_reg = write_reg api;
    read_mem = read_mem api;
    write_mem = write_mem api;
    read_fpu = read_fpu api;
    write_fpu = write_fpu api;
  }
