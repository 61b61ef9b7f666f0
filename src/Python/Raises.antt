-- ===== src/Python/Raises.antt =====
-- How the method `execute` reports to Python (`Executor_Execute` of `microx/Python.cpp`).
use microx.Base.{ℕ, ◌≡◌, ◌⊎◌, refl, Bool, true, false, Bool-cases, inl, inr, Option, none, some}
use microx.Xed.{Xed}
use microx.Host.{Host}
use microx.State.{
  State, ExecutorStatus, good, error_not_initialized, error_decode, error_unsupported_features,
  error_unsupported_cfi, error_unsupported_stack, error_execute, error_fault,
  error_floating_point_exception, error_read_inst_mem,
}
use microx.Execute.{execute}
use microx.Python.Api.{Api, Exception, Message, Text}
use microx.Python.Values.{Client}
use microx.Python.Client.{python_executor}
use microx.Python.Module.{
  raise_stored, raise_kept, with_size, raise_other, report, clear_errors, forget_errors,
  size_argument, execute_instructions, execute_method,
}

abbrev pub is_good : ExecutorStatus → Bool
is_good good = true
is_good _ = false

module _ {O W : Type 0} (api : Api O W) where
  -- `PyErr_SetString` and `PyErr_Format` leave an exception that is set.
  abbrev pub SetsErrors : Type 0
  SetsErrors =
      (exception : Exception) (t : Text) (w : W)
      → api.err_occurred (api.err_set exception t w) ≡ true

  module _ (sets : SetsErrors) where
    raise_kept-occurred :
        (kept : Option (Exception × Message)) (status : ExecutorStatus) (c : Client W)
        → api.err_occurred (raise_kept api kept status c).python ≡ true
    unfolding raise_kept raise_stored
    raise_kept-occurred none status c = sets _ _ _
    raise_kept-occurred (some kept) status c = sets _ _ _

    raise_other-occurred :
        (status : ExecutorStatus) (c : Client W)
        → api.err_occurred (raise_other api status c).python ≡ true
    unfolding raise_other
    raise_other-occurred status c = elim (Bool-cases (api.err_occurred c.python)) [
      | inl y ↦ rw y y
      | inr n ↦ rw n (raise_kept-occurred c.error status c)
    ]

    -- An outcome that is reported as `True`, or as null with an exception.
    abbrev Reported : Bool → Bool × Client W → Type 0
    Reported succeeded r = (r.0 ≡ succeeded) × ((r.0 ≡ true) ⊎ (api.err_occurred r.1.python ≡ true))

    report-Reported :
        (status : ExecutorStatus) (c : Client W) → Reported (is_good status) (report api status c)
    unfolding report
    report-Reported good c = (refl, inl refl)
    report-Reported error_not_initialized c = (refl, inr (sets _ _ _))
    report-Reported error_decode c = (refl, inr (sets _ _ _))
    report-Reported error_unsupported_features c = (refl, inr (sets _ _ _))
    report-Reported error_unsupported_cfi c = (refl, inr (sets _ _ _))
    report-Reported error_unsupported_stack c = (refl, inr (sets _ _ _))
    report-Reported error_execute c = (refl, inr (sets _ _ _))
    report-Reported error_fault c = (refl, inr (sets _ _ _))
    report-Reported error_floating_point_exception c = (refl, inr (sets _ _ _))
    report-Reported error_read_inst_mem c = (refl, inr (raise_other-occurred _ _))
    report-Reported status c = (refl, inr (raise_other-occurred status c))

    execute_instructions-Reported :
        (x : Xed) (h : Host) (addr_size n : ℕ) (s : State (Client W))
        → let client = python_executor api addr_size h.uninitialized_data in
          let start = record s { env = forget_errors api s.env } in
          let r = execute_instructions api x h addr_size n s in
          (r.0 ≡ is_good (execute x h client (clear_errors api) n start).0)
          × ((r.0 ≡ true) ⊎ (api.err_occurred r.1.env.python ≡ true))
    unfolding execute_instructions
    execute_instructions-Reported x h addr_size n s =
        let client = python_executor api addr_size h.uninitialized_data in
        let start = record s { env = forget_errors api s.env } in
        let (status, s') = execute x h client (clear_errors api) n start in
        report-Reported status s'.env

    with_size-Reported :
        (x : Xed) (h : Host) (addr_size : ℕ) (size : Option ℕ) (s : State (Client W))
        → let r = with_size api x h addr_size size s in
          let client = python_executor api addr_size h.uninitialized_data in
          let start = record s { env = forget_errors api s.env } in
          ((r.0 ≡ true) ⊎ (api.err_occurred r.1.env.python ≡ true))
          × (r.0 ≡ elim size [
            | none ↦ false
            | some n ↦ is_good (execute x h client (clear_errors api) n start).0
          ])
    unfolding with_size
    with_size-Reported x h addr_size none s = (inr (sets _ _ _), refl)
    with_size-Reported x h addr_size (some n) s =
        let (same, raises) = execute_instructions-Reported x h addr_size n s in (raises, same)

-- The protocol of a Python method, for an interpreter in which raising an exception sets it:
-- `execute` returns `True` or an exception is set; and it returns `True` exactly if its argument is
-- parsed as a number and the execution of that many instructions, after the errors of an earlier
-- call are forgotten, ends with the status `kGood`.
pub execute_method-raises :
    {O W : Type 0} (api : Api O W) (x : Xed) (h : Host) (addr_size : ℕ) (arguments : O)
    (s : State (Client W))
    → SetsErrors api
    → let r = execute_method api x h addr_size arguments s in
      let (size, s') = size_argument api arguments s in
      let client = python_executor api addr_size h.uninitialized_data in
      let start = record s' { env = forget_errors api s'.env } in
      ((r.0 ≡ true) ⊎ (api.err_occurred r.1.env.python ≡ true))
      × (r.0 ≡ elim size [
        | none ↦ false
        | some n ↦ is_good (execute x h client (clear_errors api) n start).0
      ])
unfolding execute_method
execute_method-raises api x h addr_size arguments s sets =
    let sized = size_argument api arguments s in
    with_size-Reported api sets x h addr_size sized.0 sized.1
