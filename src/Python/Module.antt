-- ===== src/Python/Module.antt =====
-- The module `microx_core` of `microx/Python.cpp`: the type `Executor` with its method `execute`, the
-- exceptions, and the module's set-up.
use microx.Base.{
  ℕ, Bool, true, false, not, ◌&&◌, ◌==◌, if◌then◌else◌, List, [], ◌∷◌, Option, none, some,
}
use microx.Xed.{Xed}
use microx.Host.{Host}
use microx.State.{
  State, ExecutorStatus, good, error_not_initialized, error_decode, error_unsupported_features,
  error_unsupported_cfi, error_unsupported_stack, error_execute, error_fault,
  error_floating_point_exception, error_read_inst_mem,
}
use microx.Execute.{execute}
use microx.Python.Api.{
  Api, Exception, microx_error, instruction_decode_error, instruction_fetch_error,
  address_fault_error, unsupported_error, value_error, type_error, floating_point_error,
  runtime_error, Message, Text, text, stored, address_size_text, status_text,
}
use microx.Python.Values.{Client}
use microx.Python.Client.{python_executor}

module _ {O W : Type 0} (api : Api O W) where
  abbrev pub raise : Exception → Text → Client W → Client W
  raise exception message c = record c { python = api.err_set exception message c.python }

  -- The error that the executor keeps is raised with its message and dropped.
  unfoldable pub raise_stored : Exception × Message → Client W → Client W
  raise_stored (exception, message) c = record (raise exception (stored message) c) { error = none }

  unfoldable pub raise_kept : Option (Exception × Message) → ExecutorStatus → Client W → Client W
  unfolding raise_stored
  raise_kept none status c = raise runtime_error (status_text status) c
  raise_kept (some kept) status c = raise_stored kept c

  -- The `default` of the switch in `Executor_Execute`.
  unfoldable pub raise_other : ExecutorStatus → Client W → Client W
  unfolding raise_kept
  raise_other status c = if api.err_occurred c.python then c else raise_kept c.error status c

  unfoldable pub raise_fetch : Client W → Client W
  raise_fetch c = if api.err_occurred c.python then c else elim c.error [
    | some kept ↦ c
    | none ↦ raise instruction_fetch_error (text "Could not read instruction bytes.") c
  ]

  -- The switch of `Executor_Execute`: whether `True` or null is returned.
  unfoldable pub report : ExecutorStatus → Client W → Bool × Client W
  unfolding raise_other raise_fetch
  report good c = (true, c)
  report error_not_initialized c =
      (false, raise value_error (text "Micro-execution environment is not initialized.") c)
  report error_decode c =
      (false, raise instruction_decode_error (text "Unable to decode instruction.") c)
  report error_unsupported_features c =
      (false, raise unsupported_error (text "Instruction is not supported by microx.") c)
  report error_unsupported_cfi c =
      (false, raise unsupported_error (text "Instruction is not supported by microx.") c)
  report error_unsupported_stack c =
      (false, raise unsupported_error (text "Instruction is not supported by microx.") c)
  report error_execute c =
      (false, raise microx_error (text "Unable to micro-execute instruction.") c)
  report error_fault c =
      (false, raise address_fault_error (text "Instruction faulted during micro-execution.") c)
  report error_floating_point_exception c =
      (false, raise floating_point_error (text "Instruction faulted during micro-execution.") c)
  report error_read_inst_mem c = (false, raise_other error_read_inst_mem (raise_fetch c))
  report status c = (false, raise_other status c)

  -- `PyErr_Clear` after a failing read of instruction bytes (`Execute` of `microx/Executor.cpp`).
  unfoldable pub clear_errors : Client W → Client W
  clear_errors c =
      if api.err_occurred c.python then record c { python = api.err_clear c.python } else c

  unfoldable pub forget_errors : Client W → Client W
  forget_errors c = record c { has_error = false; error = none }

  unfoldable pub size_argument : O → State (Client W) → Option ℕ × State (Client W)
  size_argument arguments s =
      let (size, w) = api.parse_size arguments s.env.python in
      (size, record s { env = record (s.env) { python = w } })

module _ {O W : Type 0} (api : Api O W) (x : Xed) (h : Host) (addr_size : ℕ) where
  -- `Executor_Execute`, once the number of instructions is known.
  unfoldable pub execute_instructions : ℕ → State (Client W) → Bool × State (Client W)
  unfolding report clear_errors forget_errors
  execute_instructions n s =
      let client = python_executor api addr_size h.uninitialized_data in
      let (status, s') =
        execute x h client (clear_errors api) n (record s { env = forget_errors api s.env }) in
      let (returned, c) = report api status s'.env in (returned, record s' { env = c })

  unfoldable pub with_size : Option ℕ → State (Client W) → Bool × State (Client W)
  unfolding execute_instructions
  with_size (some n) s = execute_instructions n s
  with_size none s = (
    false,
    record s {
      env = raise api type_error (text "Invalid value passed to 'execute' method.") s.env;
    },
  )

  unfoldable pub execute_method : O → State (Client W) → Bool × State (Client W)
  unfolding with_size size_argument
  execute_method arguments s = let (size, s') = size_argument api arguments s in with_size size s'

module _ {O W : Type 0} (api : Api O W) where
  -- `Executor_init`: the address size of the new executor, or none for -1.
  unfoldable pub executor_init : O → W → Option ℕ × W
  executor_init arguments w =
      let (parsed, w') = api.parse_unsigned arguments w in
      elim parsed [
        | none ↦ (none, w')
        | some addr_size ↦
            if not (64 == addr_size) && not (32 == addr_size)
            then (none, api.err_set value_error (address_size_text addr_size) w')
            else (some addr_size, w')
      ]

  -- The exceptions with their bases, in the order of `CreateExceptions`.
  abbrev pub module_exceptions : List (Exception × Option Exception)
  module_exceptions =
      (microx_error, none)
      ∷ (instruction_decode_error, some microx_error)
      ∷ (instruction_fetch_error, some microx_error)
      ∷ (address_fault_error, some microx_error)
      ∷ (unsupported_error, some microx_error)
      ∷ []

  unfoldable pub create_each : List (Exception × Option Exception) → W → Bool × W
  create_each [] w = (true, w)
  create_each ((exception, base) ∷ rest) w =
      let (made, w') = api.new_exception exception base w in
      let later = create_each rest (api.add_exception exception w') in
      if made then later else (false, w')

  unfoldable pub create_exceptions : W → Bool × W
  unfolding create_each
  create_exceptions = create_each module_exceptions

  -- `PyInit_microx_core`, after `Executor::Init`: whether a module is returned.
  unfoldable pub init_module : Bool → W → Bool × W
  unfolding create_exceptions
  init_module initialized w =
      let (created, w1) = api.module_create w in
      let (made, w2) = create_exceptions w1 in
      let (ready, w3) = api.type_ready w2 in
      if not initialized
      then (false, w)
      else if not created
      then (false, api.err_no_memory w1)
      else if not made
      then (false, api.err_no_memory w2)
      else if not ready
      then (false, w3)
      else (true, api.add_executor_type w3)
