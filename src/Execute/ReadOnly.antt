-- ===== src/Execute/ReadOnly.antt =====
-- What an instruction that fails before its write-back does to the client.
use microx.Base.{
  ℕ, zero, suc, ◌*◌, ◌≡◌, refl, ◌==◌, Bool, not, true, false, if◌then◌else◌, Option, none, some,
  arith,
}
use microx.Xed.{Xed, Inst}
use microx.Host.{Host, Signal, no_signal, sigsegv, sigbus, sigfpe, sigill, other_signal}
use microx.State.{
  Globals, Executor, State, Act, ExecutorStatus, good, error_write_flags, error_write_reg,
  error_write_mem, error_write_fpu, error_execute, error_read_fpu, error_read_mem, error_read_reg,
  error_read_flags, read_executable,
}
use microx.State.Keeps.{ReadsKeep, Keeps}
use microx.Flags.Keeps.{read_flags-Keeps}
use microx.Operands.Keeps.{read_registers-Keeps, read_pc-Keeps}
use microx.MemoryOps.Keeps.{read_memory-Keeps}
use microx.Emulate.Machine.{Emulated, handled, rejected, native, get_pc}
use microx.Execute.Support.{uses_unsupported_features, is_nop}
use microx.Execute.{
  Run, or_return, on_globals, check_signal, fetch, with_inst, fetch_and_decode, read_fpu,
  encode_act, native_act, after_emulate, write_effects, perform, finish, execute_decoded,
  execute_one, execute_loop, execute, run_native,
}

-- The statuses of a failure before the write-back.
abbrev pub is_early : ExecutorStatus → Bool
is_early good = false
is_early error_write_flags = false
is_early error_write_reg = false
is_early error_write_mem = false
is_early error_write_fpu = false
is_early _ = true

module _ {W : Type 0} where
  -- A run that returns no early status.
  record Late (k : Run W) : Type 0 where
    late : (s : State W) → is_early (k s).0 ≡ false

  -- A run that keeps a predicate if it returns an early status.
  record Safe (I : W → Type 0) (k : Run W) : Type 0 where
    safe : (s : State W) → I s.env → is_early (k s).0 ≡ true → I (k s).1.env

  -- The same of one result.
  abbrev IsKept : (W → Type 0) → ExecutorStatus × State W → Type 0
  IsKept I result = is_early result.0 ≡ true → I result.1.env

  IsKept-if :
      (I : W → Type 0) (b : Bool) (yes_case no_case : ExecutorStatus × State W)
      → IsKept I yes_case
      → IsKept I no_case
      → IsKept I (if b then yes_case else no_case)
  IsKept-if I true yes_case no_case p q = p
  IsKept-if I false yes_case no_case p q = q

  Late-or_return :
      (m : Act W) (status : ExecutorStatus) {k : Run W}
      → is_early status ≡ false
      → Late k
      → Late (or_return m status k)
  unfolding or_return
  Late-or_return m status h p = record { late = λ s. ground (arith, p.late (m s).1) }

  Late-on_globals : (f : Globals → Globals) {k : Run W} → Late k → Late (on_globals f k)
  unfolding on_globals
  Late-on_globals f p = record { late = λ s. p.late _ }

  Safe-or_return :
      {I : W → Type 0} {m : Act W} (status : ExecutorStatus) {k : Run W}
      → Keeps I m
      → Safe I k
      → Safe I (or_return m status k)
  unfolding or_return
  Safe-or_return {m} status p q = record {
    safe = λ s i h. ground (arith, p.keeps s i, q.safe (m s).1);
  }

  Safe-on_globals :
      {I : W → Type 0} (f : Globals → Globals) {k : Run W} → Safe I k → Safe I (on_globals f k)
  unfolding on_globals
  Safe-on_globals f p = record { safe = λ s i h. p.safe _ i h }

  Late-Safe : {I : W → Type 0} {k : Run W} → Late k → Safe I k
  Late-Safe p = record { safe = λ s i h. cc (p.late s) }

  check_signal-Safe :
      {I : W → Type 0} (signal : Signal) {k : Run W} → Safe I k → Safe I (check_signal signal k)
  unfolding check_signal
  check_signal-Safe no_signal p = record { safe = λ s i h. p.safe s i h }
  check_signal-Safe sigsegv p = record { safe = λ s i h. i }
  check_signal-Safe sigbus p = record { safe = λ s i h. i }
  check_signal-Safe sigfpe p = record { safe = λ s i h. i }
  check_signal-Safe sigill p = record { safe = λ s i h. i }
  check_signal-Safe other_signal p = record { safe = λ s i h. i }

module _ {W : Type 0} (I : W → Type 0) (x : Xed) (h : Host) (e : Executor W) (clear : W → W)
    (r : ReadsKeep I e clear) where
  finish-Late : (pc : ℕ) {k : Run W} → Late k → Late (finish x h e clear pc k)
  unfolding finish
  finish-Late pc p =
      Late-or_return _ error_write_flags refl
        (Late-on_globals _ (Late-or_return _ error_write_reg refl p))

  write_effects-Safe :
      (k : ℕ → Run W)
      → ((pc : ℕ) → Late (k pc))
      → (pc : ℕ) → Safe I (write_effects x h e clear k pc)
  unfolding write_effects
  write_effects-Safe k p pc = Late-Safe (
      Late-or_return _ error_write_mem refl
        (Late-or_return _ error_write_fpu refl (Late-on_globals _ (p pc))))

  encode_act-Keeps : Keeps I (encode_act x h e clear)
  unfolding encode_act
  encode_act-Keeps = record { keeps = λ s i. i }

  native_act-Safe : {k : Run W} → Safe I k → Safe I (native_act x h e clear k)
  unfolding native_act
  native_act-Safe p = record {
    safe = λ s i early. (check_signal-Safe (run_native x h e clear s.globals).0 p).safe _ i early;
  }

  after_emulate-Safe :
      (outcome : Emulated) (k : ℕ → Run W)
      → ((pc : ℕ) → Safe I (k pc))
      → Safe I (after_emulate x h e clear outcome k)
  unfolding after_emulate
  after_emulate-Safe (handled g pc) k p = record { safe = λ s i early. (p pc).safe _ i early }
  after_emulate-Safe (rejected status) k p = record { safe = λ s i early. i }
  after_emulate-Safe (native pc) k p = record {
    safe = (Safe-or_return error_execute encode_act-Keeps (native_act-Safe (p pc))).safe;
  }

  read_fpu-Keeps : Keeps I (read_fpu x h e clear)
  unfolding read_fpu
  read_fpu-Keeps = record { keeps = λ s i. ground (arith, r.read_fpu_keeps s.globals.fpu s.env i) }

  perform-Safe :
      (k : ℕ → Run W) → ((pc : ℕ) → Late (k pc)) → (pc : ℕ) → Safe I (perform x h e clear k pc)
  unfolding perform
  perform-Safe k p pc = Safe-or_return error_read_fpu read_fpu-Keeps (
      Safe-on_globals _ (
        Safe-or_return error_read_mem (read_memory-Keeps I x e r)
          (record { safe = λ s. (after_emulate-Safe _ _ (write_effects-Safe k p)).safe s })))

  execute_decoded-Safe : (k : Run W) → Late k → Safe I (execute_decoded x h e clear k)
  unfolding execute_decoded
  execute_decoded-Safe k p = record {
    safe = λ s i.
        IsKept-if I (uses_unsupported_features e s.globals.xedd) _ _ (λ early. i)
          ((Safe-or_return {I = I} error_read_flags (read_flags-Keeps I x e r h) (
              Safe-or_return error_read_reg (read_registers-Keeps I x e r) (record {
                safe = λ s' i'.
                    IsKept-if I (is_nop s'.globals.xedd.category) _ _
                      ((Late-Safe {I = I} (finish-Late _ p)).safe s' i')
                      ((perform-Safe _ (λ pc. finish-Late pc p) _).safe s' i');
              }))).safe
            s i);
  }

  fetch_keeps : (n pc idata : ℕ) (w : W) → I w → I (fetch x h e clear n pc idata w).2
  unfolding fetch
  fetch_keeps zero pc idata w i = i
  fetch_keeps (suc n) pc idata w i =
      let (passed, val, w') = e.read_mem pc (suc n * 8) read_executable idata w in
      let i' : I w' = r.read_mem_keeps pc (suc n * 8) read_executable idata w i in
      ground (arith, fetch_keeps n pc val (clear w') (r.clear_keeps w' i'))

  with_inst-Safe :
      (found : Option Inst) {k : Run W} → Safe I k → Safe I (with_inst x h e clear found k)
  unfolding with_inst
  with_inst-Safe none p = record { safe = λ s i early. i }
  with_inst-Safe (some inst) p = record { safe = λ s i early. p.safe _ i early }

  fetch_and_decode-Safe :
      (old : ℕ) {k : ℕ → Run W}
      → ((idata : ℕ) → Safe I (k idata))
      → Safe I (fetch_and_decode x h e clear old k)
  unfolding fetch_and_decode
  fetch_and_decode-Safe old p = record {
    safe = λ s i.
        let (pc, w) = e.compute_address "CS" (get_pc x e s.globals) 0 0 0 8 read_executable s.env in
        let fetched = fetch x h e clear 15 pc old w in
        let i' : I fetched.2 =
          fetch_keeps 15 pc old w (r.compute_address_keeps _ _ _ _ _ _ _ s.env i) in
        IsKept-if I (fetched.0 == 0) _ _ (λ early. i')
          ((with_inst-Safe (x.decode (e.addr_size == 32) fetched.1 fetched.0) (p fetched.1)).safe _
            i');
  }

  execute_one-Safe :
      (old : ℕ) (k : ℕ → Run W)
      → ((idata : ℕ) → Late (k idata))
      → Safe I (execute_one x h e clear old k)
  unfolding execute_one
  execute_one-Safe old k p = Safe-on_globals _ (
      Safe-or_return error_read_reg (read_pc-Keeps I x e r)
        (fetch_and_decode-Safe old (λ idata. execute_decoded-Safe (k idata) (p idata))))

  -- If executing one instruction fails before its write-back (it cannot be fetched, decoded or
  -- read, is not supported, or faults), everything that the client's reading methods leave
  -- unchanged is unchanged: no register, flag, memory or FPU write reached the client.
  pub execute_failure_keeps :
      (s : State W)
      → I s.env
      → is_early (execute x h e clear 1 s).0 ≡ true
      → I (execute x h e clear 1 s).1.env
  unfolding execute execute_loop
  execute_failure_keeps s i =
      IsKept-if I (not s.globals.is_initialized) _ _ (λ early. i)
        ((execute_one-Safe h.uninitialized_data _ (λ idata. record { late = λ s'. refl })).safe s i)
