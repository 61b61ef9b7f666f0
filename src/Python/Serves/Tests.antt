-- ===== src/Python/Serves/Tests.antt =====
-- A run with a Python object that returns integers.
use text.Mathlib.Text.{◌==◌ as ◌is◌}
use microx.Base.{◌+◌, ◌≡◌, refl, true, false, not, if◌then◌else◌, some, String}
use microx.State.{State}
use microx.Execute.{execute}
use microx.Execute.Clears.{is_client_error}
use microx.Python.Api.{Api}
use microx.Python.Values.{Client}
use microx.Python.Client.{python_executor}
use microx.Python.Module.{clear_errors, forget_errors}
use microx.Python.Answers.{IsInteger, AnswersAll}
use microx.Python.Serves.{execute_integers-serves}
use microx.Fixture.{xed, host, globals}
use microx.Fixture.Interpreter.{
  Object, bytes_object, other_object, is_bytes_object, Interpreter, python, fresh,
}

-- The object that stands for the integer 144, and 512 bytes for the FPU.
abbrev returned : String → Object
returned name = if name is "read_fpu" then bytes_object 512 0 else other_object

-- Each call counts the interpreter's number up.
abbrev integers : Api Object Interpreter
integers = record python {
  long_check = λ o. not (is_bytes_object o);
  long_as_byte_array = λ o n val w. (true, 144, w);
  call_method =
      λ name arguments w. (some (returned name), record w { kept_value = w.kept_value + 1 });
}

abbrev IsCalm : Interpreter → Type 0
IsCalm w = w.pending ≡ false

other_object-IsInteger : IsInteger integers IsCalm other_object
other_object-IsInteger = record {
  no_bytes = refl;
  is_long = refl;
  fits = λ val w calm. (refl, calm);
}

integers-AnswersAll : AnswersAll integers IsCalm
integers-AnswersAll = record {
  answer = λ name arguments w. returned name;
  answers = λ name arguments w calm. (refl, calm);
  registers = λ arguments w. other_object-IsInteger;
  memory = λ arguments w. other_object-IsInteger;
  addresses = λ arguments w. other_object-IsInteger;
  fpu_is_bytes = λ arguments w. refl;
  fpu_size_is = λ arguments w. refl;
  clears = λ w calm. refl;
}

abbrev start : State (Client Interpreter)
start = record { globals = globals; env = fresh }

-- `execute(3)`.
execute_integers-serves_example :
    let client = python_executor integers 64 host.uninitialized_data in
    is_client_error
      (execute xed host client
        (clear_errors integers)
        3
        (record start { env = forget_errors integers fresh })).0
    ≡ false
execute_integers-serves_example =
    execute_integers-serves integers IsCalm xed host 64 3 start integers-AnswersAll refl
