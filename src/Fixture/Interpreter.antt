-- ===== src/Fixture/Interpreter.antt =====
-- A small Python interpreter for the examples: bytes objects and one other object, one register that
-- is kept as bytes, and four bytes of code.
use microx.Base.{
  ℕ, ◌*◌, Bool, true, false, leb, if◌then◌else◌, List, [], ◌∷◌, Option, none, some, String,
}
use microx.Python.Api.{
  Api, Argument, string_argument, unsigned_argument, reg_hint_argument, mem_hint_argument,
  bytes_argument,
}
use microx.Python.Values.{Client}

pub data Object : Type 0 where
  bytes_object : ℕ → ℕ → Object
  other_object : Object

pub record Interpreter : Type 0 where
  pub pending : Bool
  pub kept_size : ℕ
  pub kept_value : ℕ

abbrev pub is_bytes_object : Object → Bool
is_bytes_object (bytes_object n v) = true
is_bytes_object other_object = false

abbrev object_size : Object → ℕ
object_size (bytes_object n v) = n
object_size other_object = 0

abbrev object_value : Object → ℕ
object_value (bytes_object n v) = v
object_value other_object = 0

-- The methods are told apart by their arguments.
abbrev answer : String → List Argument → Interpreter → Option Object × Interpreter
answer name (string_argument r ∷ bytes_argument n v ∷ []) w =
    (some other_object, record w { kept_size = n; kept_value = v })
answer name (string_argument r ∷ reg_hint_argument hint ∷ []) w =
    (some (bytes_object w.kept_size w.kept_value), w)
answer name (unsigned_argument pc ∷ unsigned_argument n ∷ mem_hint_argument hint ∷ []) w =
    if leb (n * 8) 32 then (some (bytes_object n 0x90), w) else (none, record w { pending = true })
answer name arguments w = (some other_object, w)

abbrev pub python : Api Object Interpreter
python = record {
  bytes_check = is_bytes_object;
  bytes_size = object_size;
  bytes_value = object_value;
  long_check = λ o. false;
  long_check_exact = λ o. false;
  long_as_byte_array = λ o n val w. (false, val, record w { pending = true });
  long_as_long = λ o w. (0, w);
  float_check = λ o. false;
  float_as_double = λ o w. (0, w);
  float_of_double = λ d. d;
  type_name = λ o. "object";
  call_method = answer;
  err_occurred = λ w. w.pending;
  err_clear = λ w. record w { pending = false };
  err_set = λ exception t w. record w { pending = true };
  parse_size = λ o w. (some (object_size o), w);
  parse_unsigned = λ o w. (some (object_value o), w);
  bytes_beyond = λ n v. v;
  new_exception = λ exception base w. (true, w);
  add_exception = λ exception w. w;
  module_create = λ w. (true, w);
  err_no_memory = λ w. record w { pending = true };
  type_ready = λ w. (true, w);
  add_executor_type = λ w. w;
}

abbrev pub fresh : Client Interpreter
fresh = record {
  has_error = false;
  error = none;
  python = record { pending = false; kept_size = 0; kept_value = 0 };
}
