-- ===== src/Python/Serves.antt =====
-- A Python object that answers every call (`microx/Python.cpp`), as a client of `Execute`.
mod Tests
use microx.Base.{
  ℕ, ◌/◌, u32, ◌≡◌, refl, ap, ◌∙◌, Bool, true, false, not, ◌==◌, ==-refl, if◌then◌else◌, Bool-cases,
  inl, inr, List, [], ◌∷◌, Option, none, some, String,
}
use microx.Xed.{Xed}
use microx.Host.{Host}
use microx.State.{State, RegRequestHint, MemRequestHint}
use microx.State.Serves.{Served, ServesCalls}
use microx.Execute.{execute}
use microx.Execute.Clears.{is_client_error}
use microx.Execute.Blame.{execute-serves}
use microx.Python.Api.{
  Api, Argument, string_argument, unsigned_argument, reg_hint_argument, mem_hint_argument,
  bytes_argument, Usage, read_register_usage, read_memory_usage, compute_address_usage,
}
use microx.Python.Answers.{IsInteger, AnswersAll}
use microx.Python.Values.{Client, data_size, fpu_size, read_value, read_long_value}
use microx.Python.Client.{
  python_executor, succeeded, data_bytes, calling, converted, fpu_result, address_result,
  python_compute_address, read_reg, write_reg, read_mem, write_mem, read_fpu, write_fpu,
}
use microx.Python.Module.{clear_errors, forget_errors}

module _ {O W : Type 0} (api : Api O W) (P : W → Type 0) where
  -- No error stops further calls, and the interpreter is well.
  abbrev pub IsWell : Client W → Type 0
  IsWell c = (c.has_error ≡ false) × P c.python

  -- The Boolean and the state of a conversion.
  abbrev outcome : Bool × ℕ × Client W → Bool × Client W
  outcome r = (r.0, r.2)

  read_integer :
      (o : O) (num_bits val : ℕ) (usage : Usage) (c : Client W)
      → IsInteger api P o
      → IsWell c
      → Served IsWell (outcome (read_value api o num_bits val usage c))
  unfolding read_value read_long_value
  read_integer o num_bits val usage c int (open_, well) =
      let (passed, kept) = int.fits val c.python well in
      rw (open_, int.no_bytes, int.is_long, passed) (refl, (refl, kept))

  module _ (a : AnswersAll api P) where
    read_reg-Served :
        (name : String) (size : ℕ) (hint : RegRequestHint) (val : ℕ) (c : Client W)
        → IsWell c
        → Served IsWell (outcome (read_reg api name size hint val c))
    unfolding read_reg calling converted
    read_reg-Served name size hint val c (open_, well) =
        let arguments = string_argument name ∷ reg_hint_argument hint ∷ [] in
        let (found, kept) = a.answers "read_register" arguments c.python well in
        rw (open_, found)
          (read_integer (a.answer "read_register" arguments c.python) size val
            (read_register_usage name)
            (record c {
              has_error = false;
              python = (api.call_method "read_register" arguments c.python).1;
            })
            (a.registers arguments c.python) (refl, kept))

    read_mem-Served :
        (addr size : ℕ) (hint : MemRequestHint) (val : ℕ) (c : Client W)
        → IsWell c
        → Served IsWell (outcome (read_mem api addr size hint val c))
    unfolding read_mem calling converted
    read_mem-Served addr size hint val c (open_, well) =
        let arguments =
          unsigned_argument addr
          ∷ unsigned_argument (u32 (size / 8))
          ∷ mem_hint_argument hint
          ∷ [] in
        let (found, kept) = a.answers "read_memory" arguments c.python well in
        rw (open_, found)
          (read_integer (a.answer "read_memory" arguments c.python) size val
            (read_memory_usage addr (size / 8) hint)
            (record c {
              has_error = false;
              python = (api.call_method "read_memory" arguments c.python).1;
            })
            (a.memory arguments c.python) (refl, kept))

    read_fpu-Served :
        (val : ℕ) (c : Client W) → IsWell c → Served IsWell (outcome (read_fpu api val c))
    unfolding read_fpu calling fpu_result
    read_fpu-Served val c (open_, well) =
        let (found, kept) = a.answers "read_fpu" [] c.python well in
        rw (open_, found, a.fpu_is_bytes [] c.python, a.fpu_size_is [] c.python)
          (refl, (refl, kept))

    calling-Served :
        (name : String) (arguments : List Argument) (c : Client W)
        → IsWell c
        → Served IsWell (calling api name arguments (succeeded api) c)
    unfolding calling
    calling-Served name arguments c (open_, well) =
        let (found, kept) = a.answers name arguments c.python well in rw found (refl, (open_, kept))

    branch-Served :
        (b : Bool) (p r : Bool × Client W)
        → b ≡ false
        → Served IsWell r
        → Served IsWell (if b then p else r)
    branch-Served true p r closed served = cc
    branch-Served false p r closed served = served

    write_reg-Served :
        (name : String) (size val : ℕ) (c : Client W)
        → IsWell c
        → Served IsWell (write_reg api name size val c)
    unfolding write_reg
    write_reg-Served name size val c well =
        branch-Served c.has_error (false, c) _ well.0 (calling-Served "write_register" _ c well)

    write_mem-Served :
        (addr size val : ℕ) (c : Client W)
        → IsWell c
        → Served IsWell (write_mem api addr size val c)
    unfolding write_mem
    write_mem-Served addr size val c well =
        branch-Served c.has_error (false, c) _ well.0 (calling-Served "write_memory" _ c well)

    write_fpu-Served : (val : ℕ) (c : Client W) → IsWell c → Served IsWell (write_fpu api val c)
    unfolding write_fpu
    write_fpu-Served val c well = calling-Served "write_fpu" _ c well

    clear_errors-IsWell : (c : Client W) → IsWell c → IsWell (clear_errors api c)
    unfolding clear_errors
    clear_errors-IsWell c (open_, well) = elim (Bool-cases (api.err_occurred c.python)) [
      | inl y ↦ rw y (open_, a.clears c.python well)
      | inr n ↦ rw n (open_, well)
    ]

    python_compute_address-IsWell :
        (addr_size un : ℕ) (seg : String) (b i sc d sz : ℕ) (h : MemRequestHint) (c : Client W)
        → IsWell c
        → IsWell (python_compute_address api addr_size un seg b i sc d sz h c).1
    unfolding python_compute_address calling address_result
    python_compute_address-IsWell addr_size un seg b i sc d sz h c (open_, well) =
        let arguments =
          string_argument seg
          ∷ unsigned_argument b
          ∷ unsigned_argument i
          ∷ unsigned_argument sc
          ∷ unsigned_argument d
          ∷ unsigned_argument (u32 (sz / 8))
          ∷ mem_hint_argument h
          ∷ [] in
        let (found, kept) = a.answers "compute_address" arguments c.python well in
        rw (open_, found)
          (read_integer (a.answer "compute_address" arguments c.python) addr_size un
            (compute_address_usage seg b i sc d (sz / 8) h)
            (record c {
              has_error = false;
              python = (api.call_method "compute_address" arguments c.python).1;
            })
            (a.addresses arguments c.python) (refl, kept)).1

    python_executor-ServesCalls :
        (addr_size un : ℕ)
        → ServesCalls IsWell (python_executor api addr_size un) (clear_errors api)
    python_executor-ServesCalls addr_size un = record {
      serves_address = python_compute_address-IsWell addr_size un;
      serves_read_reg = read_reg-Served;
      serves_write_reg = write_reg-Served;
      serves_read_mem = read_mem-Served;
      serves_write_mem = write_mem-Served;
      serves_read_fpu = read_fpu-Served;
      serves_write_fpu = write_fpu-Served;
      serves_clear = clear_errors-IsWell;
    }

-- For a Python object that answers every call, with integers of at most 64 bytes where a value is
-- wanted and with 512 bytes for the FPU, in every state of the interpreter with a property that the
-- calls keep: from a state with that property, the execution of any number of instructions by
-- `execute`, which forgets earlier errors, never ends with a status that reports a failed read or write
-- of the program counter, the instruction bytes, registers, flags, memory or the FPU.
pub execute_integers-serves :
    {O W : Type 0} (api : Api O W) (P : W → Type 0) (x : Xed) (h : Host) (addr_size n : ℕ)
    (s : State (Client W))
    → AnswersAll api P
    → P s.env.python
    → let client = python_executor api addr_size h.uninitialized_data in
      let start = record s { env = forget_errors api s.env } in
      is_client_error (execute x h client (clear_errors api) n start).0 ≡ false
unfolding forget_errors
execute_integers-serves api P x h addr_size n s a well =
    execute-serves (IsWell api P) x h (python_executor api addr_size h.uninitialized_data)
      (clear_errors api) (python_executor-ServesCalls api P a addr_size h.uninitialized_data) n
      (record s { env = forget_errors api s.env }) (refl, well)
