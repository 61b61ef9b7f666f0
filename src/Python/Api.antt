-- ===== src/Python/Api.antt =====
-- What `microx/Python.cpp` uses of the Python C API. The interpreter is not part of the repository:
-- its objects and its state are types, and its functions are the fields of `Api`, a parameter.
use microx.Base.{ℕ, Bool, List, Option, String}
use microx.State.{ExecutorStatus, RegRequestHint, MemRequestHint}

-- The exceptions that the code names: the module's own, and the interpreter's.
pub data Exception : Type 0 where
  microx_error instruction_decode_error instruction_fetch_error : Exception
  address_fault_error unsupported_error : Exception
  value_error type_error floating_point_error runtime_error : Exception

-- `usage`: the call that a value comes from, as it is printed into a message.
pub data Usage : Type 0 where
  compute_address_usage : String → ℕ → ℕ → ℕ → ℕ → ℕ → MemRequestHint → Usage
  read_register_usage : String → Usage
  read_memory_usage : ℕ → ℕ → MemRequestHint → Usage

-- `error_message`, with the values that are printed into it.
pub data Message : Type 0 where
  incorrect_bytes : Usage → ℕ → ℕ → Message
  cannot_convert : String → Usage → Message
  fpu_not_bytes : Message
  incorrect_fpu_bytes : ℕ → ℕ → Message

-- The texts of the exceptions that are raised.
pub data Text : Type 0 where
  text : String → Text
  stored : Message → Text
  address_size_text : ℕ → Text
  status_text : ExecutorStatus → Text

-- The arguments of `PyObject_CallMethod`, by the letters of its format: `s`, `K`, `I`, `i`, and `y#`
-- with the number of bytes and the number that they spell.
pub data Argument : Type 0 where
  string_argument : String → Argument
  unsigned_argument : ℕ → Argument
  reg_hint_argument : RegRequestHint → Argument
  mem_hint_argument : MemRequestHint → Argument
  bytes_argument : ℕ → ℕ → Argument

pub record Api (O W : Type 0) : Type 0 where
  -- `PyBytes_Check`, `PyBytes_Size`, and the number that the object's bytes spell.
  pub bytes_check : O → Bool
  pub bytes_size : O → ℕ
  pub bytes_value : O → ℕ
  -- `PyLong_Check` and `PyLong_CheckExact`.
  pub long_check : O → Bool
  pub long_check_exact : O → Bool
  -- `_PyLong_AsByteArray`, unsigned and little endian, to so many bytes that spell a number before:
  -- whether it returned 0, the number that they spell after, and the interpreter.
  pub long_as_byte_array : O → ℕ → ℕ → W → Bool × ℕ × W
  -- `PyLong_AsLong`, as a word, and `PyFloat_AsDouble` with its bits.
  pub long_as_long : O → W → ℕ × W
  pub float_check : O → Bool
  pub float_as_double : O → W → ℕ × W
  -- A conversion of a `double` to a `float`, by their bits.
  pub float_of_double : ℕ → ℕ
  -- `res->ob_type->tp_name`.
  pub type_name : O → String
  -- `PyObject_CallMethod` on the executor's own object: null, or what the method returned.
  pub call_method : String → List Argument → W → Option O × W
  -- `PyErr_Occurred`, `PyErr_Clear`, and `PyErr_SetString` or `PyErr_Format`.
  pub err_occurred : W → Bool
  pub err_clear : W → W
  pub err_set : Exception → Text → W → W
  -- `PyArg_ParseTuple` with "K" and with "I".
  pub parse_size : O → W → Option ℕ × W
  pub parse_unsigned : O → W → Option ℕ × W
  -- The bytes that are read from a `Data` when more than its 64 are asked for.
  pub bytes_beyond : ℕ → ℕ → ℕ
  -- `PyErr_NewException` with its name and its base, and `PyModule_AddObject`.
  pub new_exception : Exception → Option Exception → W → Bool × W
  pub add_exception : Exception → W → W
  -- The rest of the module's set-up: `PyModule_Create`, `PyErr_NoMemory`, `PyType_Ready` on the type
  -- with the methods that the code gives it, and its registration.
  pub module_create : W → Bool × W
  pub err_no_memory : W → W
  pub type_ready : W → Bool × W
  pub add_executor_type : W → W
