-- ===== src/Python/Answers.antt =====
-- A Python object that answers every call that `PythonExecutor` (`microx/Python.cpp`) makes.
use microx.Base.{ℕ, ◌≡◌, true, false, List, some, String}
use microx.State.Serves.{Served}
use microx.Python.Api.{Api, Argument}
use microx.Python.Values.{data_size, fpu_size}

module _ {O W : Type 0} (api : Api O W) (P : W → Type 0) where
  -- An integer that fits into the bytes of a `Data`.
  pub record IsInteger (o : O) : Type 0 where
    pub no_bytes : api.bytes_check o ≡ false
    pub is_long : api.long_check o ≡ true
    pub fits :
        (val : ℕ) (w : W)
        → P w
        → let (passed, val', w') = api.long_as_byte_array o data_size val w in Served P (passed, w')

  -- Every method returns: integers where a value is wanted, and 512 bytes for the FPU.
  pub record AnswersAll : Type 0 where
    pub answer : String → List Argument → W → O
    pub answers :
        (name : String) (arguments : List Argument) (w : W)
        → P w
        → ((api.call_method name arguments w).0 ≡ some (answer name arguments w))
          × P (api.call_method name arguments w).1
    pub registers :
        (arguments : List Argument) (w : W) → IsInteger (answer "read_register" arguments w)
    pub memory : (arguments : List Argument) (w : W) → IsInteger (answer "read_memory" arguments w)
    pub addresses :
        (arguments : List Argument) (w : W) → IsInteger (answer "compute_address" arguments w)
    pub fpu_is_bytes :
        (arguments : List Argument) (w : W) → api.bytes_check (answer "read_fpu" arguments w) ≡ true
    pub fpu_size_is :
        (arguments : List Argument) (w : W)
        → api.bytes_size (answer "read_fpu" arguments w) ≡ fpu_size
    pub clears : (w : W) → P w → P (api.err_clear w)
