-- ===== src/Python/Tests.antt =====
-- The theorems on the Python bindings at concrete inputs.
use microx.Base.{
  ◌+◌, ◌*◌, ◌/◌, ◌^◌, ◌<◌, ◌≡◌, ◌⊎◌, refl, true, false, leb, low_bits, none, some, arith,
}
use microx.State.{State, general, read_executable}
use microx.Execute.{fetch, execute}
use microx.Execute.Fetch.{IsLongest}
use microx.Python.Api.{Api, value_error, incorrect_bytes, read_memory_usage, read_register_usage}
use microx.Python.Values.{Client, value_size, read_value, read_bytes_value}
use microx.Python.Client.{python_executor, read_reg, write_reg}
use microx.Python.Module.{clear_errors, forget_errors, size_argument, execute_method}
use microx.Python.Bounds.{read_value-bounds}
use microx.Python.RoundTrip.{KeepsRegisters, read_reg-write_reg}
use microx.Python.Raises.{is_good, execute_method-raises}
use microx.Python.Fetching.{RaisesBeyond, fetch_raising-IsLongest}
use microx.Python.ShortReads.{fetch_short-stopped}
use microx.Fixture.{xed, host, globals}
use microx.Fixture.Interpreter.{Object, bytes_object, other_object, Interpreter, python, fresh}

accepted : (read_value python (bytes_object 4 7) 32 0 (read_register_usage "EAX") fresh).0 ≡ true
unfolding read_value read_bytes_value value_size
accepted = refl

-- Four bytes for a register of four.
read_value-bounds_example :
    ((read_value python (bytes_object 4 7) 32 0 (read_register_usage "EAX") fresh).1
      < 2 ^ (8 * value_size 32))
    ⊎ (python.long_check (bytes_object 4 7) ≡ true)
read_value-bounds_example =
    read_value-bounds python (bytes_object 4 7) 32 0 (read_register_usage "EAX") fresh accepted

keeps : KeepsRegisters python
keeps = record {
  done = other_object;
  object = bytes_object;
  kept = λ name n v w. record w { kept_size = n; kept_value = v };
  is_bytes = λ n v. refl;
  size_of = λ n v. refl;
  value_of = λ n v. refl;
  set = λ name n v w. refl;
  get = λ name hint n v w. refl;
}

read_reg-write_reg_example :
    let (written, c') = write_reg python "EAX" 32 0x1_0000_0005 fresh in
    let (passed, v, c'') = read_reg python "EAX" 32 general 0 c' in
    (written ≡ true)
    × (passed ≡ true)
    × (v ≡ low_bits (8 * ((32 + 7) / 8)) 0x1_0000_0005)
    × (c''.has_error ≡ false)
read_reg-write_reg_example =
    read_reg-write_reg python keeps "EAX" 32 0x1_0000_0005 0 general fresh (omega arith) refl

abbrev start : State (Client Interpreter)
start = record { globals = globals; env = fresh }

-- `execute(2)`.
execute_method-raises_example :
    let r = execute_method python xed host 64 (bytes_object 2 0) start in
    let (size, s') = size_argument python (bytes_object 2 0) start in
    let client = python_executor python 64 host.uninitialized_data in
    let begun = record s' { env = forget_errors python s'.env } in
    ((r.0 ≡ true) ⊎ (python.err_occurred r.1.env.python ≡ true))
    × (r.0 ≡ elim size [
      | none ↦ false
      | some n ↦ is_good (execute xed host client (clear_errors python) n begun).0
    ])
execute_method-raises_example =
    execute_method-raises python xed host 64 (bytes_object 2 0) start (λ exception t w. refl)

-- Four bytes of code can be read.
four_bytes : RaisesBeyond python (λ size. leb size 32) 0x100
four_bytes = record {
  object = λ n. bytes_object n 0x90;
  is_bytes = λ n. refl;
  size_of = λ n. refl;
  call = λ n w. ground arith;
}

fetch_raising-IsLongest_example :
    IsLongest
      (λ size. leb size 32)
      15
      (fetch xed host
        (python_executor python 64 host.uninitialized_data)
        (clear_errors python)
        15
        0x100
        0
        fresh).0
fetch_raising-IsLongest_example =
    fetch_raising-IsLongest python xed host 64 (λ size. leb size 32) 0x100 15 0 fresh four_bytes
      (omega arith) refl

-- An object that answers each read with four bytes.
abbrev short : Api Object Interpreter
short = record python { call_method = λ name arguments w. (some (bytes_object 4 0x90), w) }

fetch_short-stopped_example :
    let (len, val, c') =
      fetch xed host
        (python_executor short 64 host.uninitialized_data)
        (clear_errors short)
        15
        0x100
        0
        fresh in
    (len ≡ 0)
    × (c'.error
        ≡ some (value_error, incorrect_bytes (read_memory_usage 0x100 15 read_executable) 15 4))
fetch_short-stopped_example =
    fetch_short-stopped short xed host 64 15 0x100 0 fresh (bytes_object 4 0x90) (omega arith)
      (omega arith) refl refl refl (omega arith)
