-- ===== src/Python/Fetching.antt =====
-- The fetch of instruction bytes from a Python object: how the object refuses a read that is too long
-- makes a difference (`Execute` of `microx/Executor.cpp`, `ReadMem` of `microx/Python.cpp`).
use microx.Base.{
  ℕ, ◌*◌, ◌/◌, ◌≤◌, ◌≡◌, refl, ap, ◌∙◌, Bool, true, false, ==-refl, if◌then◌else◌, u32, List, [],
  ◌∷◌, none, some, Bool-cases, inl, inr, arith,
}
use microx.Xed.{Xed}
use microx.Host.{Host}
use microx.State.{read_executable}
use microx.Execute.{fetch}
use microx.Execute.Fetch.{IsLongest, ReadsBySize, fetch_by_size-IsLongest}
use microx.Python.Api.{
  Api, Argument, unsigned_argument, mem_hint_argument, Usage, read_memory_usage,
}
use microx.Python.Values.{Client, value_size, read_value, read_bytes_value}
use microx.Python.Client.{python_executor, calling, converted, read_mem}
use microx.Python.Module.{clear_errors}

module _ {O W : Type 0} (api : Api O W) where
  -- The call for so many bytes of code.
  abbrev pub code_arguments : ℕ → ℕ → List Argument
  code_arguments pc n =
      unsigned_argument pc ∷ unsigned_argument n ∷ mem_hint_argument read_executable ∷ []

  pub clear_errors-has_error : (c : Client W) → (clear_errors api c).has_error ≡ c.has_error
  unfolding clear_errors
  clear_errors-has_error c = ground arith

  -- Whether `n` bytes of code are answered, and what the answer leaves behind.
  pub code_read :
      (pc n val : ℕ) (c : Client W)
      → n ≤ 15
      → c.has_error ≡ false
      → read_mem api pc (n * 8) read_executable val c ≡ (
          let (result, w) = api.call_method "read_memory" (code_arguments pc n) c.python in
          converted api
            (n * 8)
            val
            (read_memory_usage pc n read_executable)
            result
            (record c { python = w }))
  unfolding read_mem calling
  code_read pc n val c small no_error =
      let bytes : n * 8 / 8 ≡ n = omega arith in
      let word : u32 n ≡ n = omega arith in rw (no_error, bytes, word) refl

  pub value_size_of_bytes : (n : ℕ) → n ≤ 15 → value_size (n * 8) ≡ n
  unfolding value_size
  value_size_of_bytes n small = ground arith

  -- A Python object that raises an exception for each read of code that is too long, and answers the
  -- others with bytes objects of the size that is asked for.
  pub record RaisesBeyond (readable : ℕ → Bool) (pc : ℕ) : Type 0 where
    pub object : ℕ → O
    pub is_bytes : (n : ℕ) → api.bytes_check (object n) ≡ true
    pub size_of : (n : ℕ) → api.bytes_size (object n) ≡ n
    pub call :
        (n : ℕ) (w : W)
        → (api.call_method "read_memory" (code_arguments pc n) w).0
          ≡ (if readable (n * 8) then some (object n) else none)

  -- Nothing stops further calls.
  abbrev pub IsOpen : Client W → Type 0
  IsOpen c = c.has_error ≡ false

  module _ (readable : ℕ → Bool) (pc : ℕ) (r : RaisesBeyond readable pc) where
    object_read :
        (n val : ℕ) (usage : Usage) (c : Client W)
        → n ≤ 15
        → IsOpen c
        → (read_value api (r.object n) (n * 8) val usage c).0 ≡ true
    unfolding read_value read_bytes_value
    object_read n val usage c small no_error =
        rw (no_error, r.is_bytes n, value_size_of_bytes n small, r.size_of n, ==-refl n) refl

    by_size :
        (addr_size uninitialized : ℕ)
        → ReadsBySize IsOpen
            (python_executor api addr_size uninitialized)
            (clear_errors api)
            pc
            15
            readable
    unfolding converted
    by_size addr_size uninitialized = record {
      answers = λ k val c i inside. elim (Bool-cases (readable (k * 8))) [
        | inl y ↦
            ap (λ (a : Bool × ℕ × Client W). a.0) (code_read pc k val c inside i)
            ∙ rw (r.call k c.python, y)
                (object_read k val _
                  (record c {
                    python = (api.call_method "read_memory" (code_arguments pc k) c.python).1;
                  })
                  inside i)
        | inr n ↦
            ap (λ (a : Bool × ℕ × Client W). a.0) (code_read pc k val c inside i)
            ∙ rw (r.call k c.python, n) refl
      ];
      recovers = λ k val c i inside failed.
          clear_errors-has_error (read_mem api pc (k * 8) read_executable val c).2
          ∙ ap (λ (a : Bool × ℕ × Client W). a.2.has_error) (code_read pc k val c inside i)
          ∙ rw (r.call k c.python, failed) i;
    }

  module _ (x : Xed) (h : Host) (addr_size : ℕ) where
    -- For a Python object that raises an exception whenever it cannot read as many bytes of code as
    -- it is asked for, and before an error was kept: the fetch of at most 15 bytes finds the
    -- greatest number of bytes that can be read, and 0 if even one byte cannot be.
    pub fetch_raising-IsLongest :
        (readable : ℕ → Bool) (pc n idata : ℕ) (c : Client W)
        → RaisesBeyond readable pc
        → n ≤ 15
        → IsOpen c
        → IsLongest readable n
            (fetch x h
              (python_executor api addr_size h.uninitialized_data)
              (clear_errors api)
              n
              pc
              idata
              c).0
    fetch_raising-IsLongest readable pc n idata c r small no_error =
        fetch_by_size-IsLongest x h (python_executor api addr_size h.uninitialized_data)
          (clear_errors api) IsOpen readable pc 15
          (by_size readable pc r addr_size h.uninitialized_data) n idata c small no_error
