-- ===== src/Execute/Clears.antt =====
-- The steps of `Execute` after the decoding, with a client whose methods succeed
-- (`microx/Executor.cpp`).
use microx.Base.{ℕ, ◌≡◌, refl, Bool, true, false, Bool-cases, inl, inr}
use microx.Xed.{Xed}
use microx.Host.{Host, Signal, no_signal, sigsegv, sigbus, sigfpe, sigill, other_signal}
use microx.State.{
  Globals, Executor, State, Act, ExecutorStatus, error_read_flags, error_write_flags,
  error_read_reg, error_write_reg, error_read_mem, error_read_inst_mem, error_write_mem,
  error_read_fpu, error_write_fpu, error_execute, error_unsupported_cfi, error_unsupported_stack,
}
use microx.State.Serves.{ServesCalls, Serves}
use microx.Emulate.Machine.{Emulated, handled, rejected, native}
use microx.Emulate.Dispatch.{emulate}
use microx.Emulate.Outcomes.{is_unsupported, ends_well, emulate-ends}
use microx.Execute.Served.{read_registers-Serves, write_registers-Serves}
use microx.Execute.ServedMemory.{
  read_flags-Serves, write_flags-Serves, read_memory-Serves, write_memory-Serves,
}
use microx.Execute.Support.{uses_unsupported_features, is_nop}
use microx.Execute.{
  Run, or_return, on_globals, check_signal, read_fpu, write_fpu, encode_act, native_act,
  after_emulate, write_effects, perform, finish, execute_decoded, run_native,
}

-- The statuses that report a failed call of the client.
abbrev pub is_client_error : ExecutorStatus → Bool
is_client_error error_read_flags = true
is_client_error error_write_flags = true
is_client_error error_read_reg = true
is_client_error error_write_reg = true
is_client_error error_read_mem = true
is_client_error error_read_inst_mem = true
is_client_error error_write_mem = true
is_client_error error_read_fpu = true
is_client_error error_write_fpu = true
is_client_error _ = false

unsupported_clear :
    (status : ExecutorStatus) → is_unsupported status ≡ true → is_client_error status ≡ false
unsupported_clear error_unsupported_cfi h = refl
unsupported_clear error_unsupported_stack h = refl
unsupported_clear _ h = cc

module _ {W : Type 0} (I : W → Type 0) where
  -- A run that blames no client that serves all calls.
  pub record Clears (k : Run W) : Type 0 where
    pub clears : (s : State W) → I s.env → is_client_error (k s).0 ≡ false

module _ {W : Type 0} {I : W → Type 0} where
  pub Clears-served :
      {m : Act W} (status : ExecutorStatus) {k : Run W}
      → Serves I m
      → Clears I k
      → Clears I (or_return m status k)
  unfolding or_return
  Clears-served {m} status p q = record {
    clears = λ s i. let (passed, kept) = p.serves s i in rw passed (q.clears (m s).1 kept);
  }

  pub Clears-on_globals :
      (f : Globals → Globals) {k : Run W} → Clears I k → Clears I (on_globals f k)
  unfolding on_globals
  Clears-on_globals f p = record { clears = λ s i. p.clears _ i }

  Clears-signal : (signal : Signal) {k : Run W} → Clears I k → Clears I (check_signal signal k)
  unfolding check_signal
  Clears-signal no_signal p = record { clears = λ s i. p.clears s i }
  Clears-signal sigsegv p = record { clears = λ s i. refl }
  Clears-signal sigbus p = record { clears = λ s i. refl }
  Clears-signal sigfpe p = record { clears = λ s i. refl }
  Clears-signal sigill p = record { clears = λ s i. refl }
  Clears-signal other_signal p = record { clears = λ s i. refl }

module _ {W : Type 0} (I : W → Type 0) (x : Xed) (h : Host) (e : Executor W) (clear : W → W)
    (r : ServesCalls I e clear) where
  finish-Clears : (pc : ℕ) {k : Run W} → Clears I k → Clears I (finish x h e clear pc k)
  unfolding finish
  finish-Clears pc p =
      Clears-served error_write_flags (write_flags-Serves I x e r)
        (Clears-on_globals _ (Clears-served error_write_reg (write_registers-Serves I x e r) p))

  write_fpu-Serves : Serves I (write_fpu x h e clear)
  unfolding write_fpu
  write_fpu-Serves = record {
    serves = λ s i. elim (Bool-cases s.globals.uses_fpu) [
      | inl y ↦ rw y (r.serves_write_fpu _ _ i)
      | inr n ↦ rw n (refl, i)
    ];
  }

  read_fpu-Serves : Serves I (read_fpu x h e clear)
  unfolding read_fpu
  read_fpu-Serves = record {
    serves = λ s i. elim (Bool-cases s.globals.uses_fpu) [
      | inl y ↦ rw y (r.serves_read_fpu _ _ i)
      | inr n ↦ rw n (refl, i)
    ];
  }

  write_effects-Clears :
      (k : ℕ → Run W)
      → ((pc : ℕ) → Clears I (k pc))
      → (pc : ℕ) → Clears I (write_effects x h e clear k pc)
  unfolding write_effects
  write_effects-Clears k p pc =
      Clears-served error_write_mem (write_memory-Serves I x e r)
        (Clears-served error_write_fpu write_fpu-Serves (Clears-on_globals _ (p pc)))

  native_act-Clears : {k : Run W} → Clears I k → Clears I (native_act x h e clear k)
  unfolding native_act
  native_act-Clears p = record {
    clears = λ s i. (Clears-signal (run_native x h e clear s.globals).0 p).clears _ i;
  }

  -- The encoder may fail, with a status of its own.
  encoded-Clears :
      {k : Run W} → Clears I k → Clears I (or_return (encode_act x h e clear) error_execute k)
  unfolding or_return encode_act
  encoded-Clears {k} p = record {
    clears = λ s i.
        let (passed, s') = encode_act x h e clear s in
        elim (Bool-cases passed) [ inl y ↦ rw y (p.clears s' i) | inr n ↦ rw n refl ];
  }

  after_emulate-Clears :
      (outcome : Emulated) (k : ℕ → Run W)
      → ends_well outcome ≡ true
      → ((pc : ℕ) → Clears I (k pc))
      → Clears I (after_emulate x h e clear outcome k)
  unfolding after_emulate
  after_emulate-Clears (handled g pc) k well p = record { clears = λ s i. (p pc).clears _ i }
  after_emulate-Clears (rejected status) k well p = record {
    clears = λ s i. unsupported_clear status well;
  }
  after_emulate-Clears (native pc) k well p = record {
    clears = (encoded-Clears (native_act-Clears (p pc))).clears;
  }

  perform-Clears :
      (k : ℕ → Run W)
      → ((pc : ℕ) → Clears I (k pc))
      → (pc : ℕ) → Clears I (perform x h e clear k pc)
  unfolding perform
  perform-Clears k p pc = Clears-served error_read_fpu read_fpu-Serves (
      Clears-on_globals _ (
        Clears-served error_read_mem (read_memory-Serves I x e r) (record {
          clears = λ s i.
              (after_emulate-Clears (emulate x h e pc s.globals) _ (emulate-ends x h e pc s.globals)
                  (write_effects-Clears k p)).clears
                s i;
        })))

  pub execute_decoded-Clears : (k : Run W) → Clears I k → Clears I (execute_decoded x h e clear k)
  unfolding execute_decoded
  execute_decoded-Clears k p = record {
    clears = λ s i. elim (Bool-cases (uses_unsupported_features e s.globals.xedd)) [
      | inl y ↦ rw y refl
      | inr n ↦ rw n (
          (Clears-served {I = I} error_read_flags (read_flags-Serves I x e r h) (
              Clears-served error_read_reg (read_registers-Serves I x e r) (record {
                clears = λ s' i'. elim (Bool-cases (is_nop s'.globals.xedd.category)) [
                  | inl y' ↦ rw y' ((finish-Clears _ p).clears s' i')
                  | inr n' ↦ rw n' ((perform-Clears _ (λ pc. finish-Clears pc p) _).clears s' i')
                ];
              }))).clears
            s i)
    ];
  }
