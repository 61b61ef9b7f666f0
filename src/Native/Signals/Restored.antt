-- ===== src/Native/Signals/Restored.antt =====
-- What the signals around native execution (`microx/Executor.cpp`) come to.
mod Tests
use microx.Base.{
  ℕ, ◌≡◌, refl, ap, ◌∙◌, sym, Bool, true, false, Bool-cases, inl, inr, if◌then◌else◌, Option, none,
  some,
}
use microx.Xed.{Xed}
use microx.Host.{Host, Signal, no_signal, sigsegv, sigbus, sigfpe, sigill, other_signal}
use microx.State.{Executor, Globals}
use microx.Execute.{run_native}
use microx.Native.Signals.{
  Handler, recover_from_error, Action, Kernel, Signals, init_signals, install, uninstall, handle,
  raise_signal, execute_native_avx, unguarded, run_guarded, load_signal, run_with_signals,
}

-- The same signal.
abbrev pub same : Signal → Signal → Bool
same no_signal no_signal = true
same sigsegv sigsegv = true
same sigbus sigbus = true
same sigfpe sigfpe = true
same sigill sigill = true
same other_signal other_signal = true
same _ _ = false

-- The signals that the handler is installed for, and none.
abbrev pub is_caught : Signal → Bool
is_caught other_signal = false
is_caught _ = true

-- `sigaction` returns the action of its signal, and changes that action only.
pub record KeepsActions {K : Type 0} (kernel : Kernel K) : Type 0 where
  pub returns : (s : Signal) (a : Action) (k : K) → (kernel.sigaction s a k).0 ≡ kernel.action s k
  pub sets :
      (s t : Signal) (a : Action) (k : K)
      → kernel.action t (kernel.sigaction s a k).1 ≡ (if same s t then a else kernel.action t k)

module _ {K : Type 0} (kernel : Kernel K) (keeps : KeepsActions kernel) where
  install-action :
      (t : Signal) (s : Signals K)
      → kernel.action t (install kernel s).kernel ≡ (
          if same sigfpe t
          then s.signal_handler
          else if same sigsegv t
          then s.signal_handler
          else if same sigbus t
          then s.signal_handler
          else if same sigill t
          then s.signal_handler
          else kernel.action t s.kernel)
  unfolding install
  install-action t s = simp keeps.sets

  uninstall-action :
      (t : Signal) (s : Signals K)
      → kernel.action t (uninstall kernel s).kernel ≡ (
          if same sigfpe t
          then s.on_sigfpe
          else if same sigsegv t
          then s.on_sigsegv
          else if same sigbus t
          then s.on_sigbus
          else if same sigill t
          then s.on_sigill
          else kernel.action t s.kernel)
  unfolding uninstall
  uninstall-action t s = simp keeps.sets

  -- What `install` remembers.
  record Remembers (s : Signals K) : Type 0 where
    ill : (install kernel s).on_sigill ≡ kernel.action sigill s.kernel
    bus : (install kernel s).on_sigbus ≡ kernel.action sigbus s.kernel
    segv : (install kernel s).on_sigsegv ≡ kernel.action sigsegv s.kernel
    fpe : (install kernel s).on_sigfpe ≡ kernel.action sigfpe s.kernel

  install-Remembers : (s : Signals K) → Remembers s
  unfolding install
  install-Remembers s = record {
    ill = simp keeps.returns;
    bus = simp (keeps.returns, keeps.sets);
    segv = simp (keeps.returns, keeps.sets);
    fpe = simp (keeps.returns, keeps.sets);
  }

  given :
      (t : Signal) (s : Signals K)
      → (if same sigfpe t
          then (install kernel s).on_sigfpe
          else if same sigsegv t
          then (install kernel s).on_sigsegv
          else if same sigbus t
          then (install kernel s).on_sigbus
          else if same sigill t
          then (install kernel s).on_sigill
          else kernel.action t (install kernel s).kernel)
        ≡ kernel.action t s.kernel
  given sigfpe s = (install-Remembers s).fpe
  given sigsegv s = (install-Remembers s).segv
  given sigbus s = (install-Remembers s).bus
  given sigill s = (install-Remembers s).ill
  given no_signal s = install-action no_signal s
  given other_signal s = install-action other_signal s

  -- Whatever `gSignal` is by then, each signal has its action back.
  restored :
      (t sig : Signal) (s : Signals K)
      → kernel.action t (uninstall kernel (record (install kernel s) { signal = sig })).kernel
        ≡ kernel.action t s.kernel
  restored t sig s = uninstall-action t (record (install kernel s) { signal = sig }) ∙ given t s

  -- A signal that the handler is installed for is stored.
  raise_signal-install :
      (sig : Signal) (s : Signals K)
      → is_caught sig ≡ true
      → s.signal_handler.sa_handler ≡ recover_from_error
      → raise_signal kernel sig (install kernel s)
        ≡ some (record (install kernel s) { signal = sig })
  unfolding raise_signal handle install
  raise_signal-install no_signal s caught handler = refl
  raise_signal-install sigfpe s caught handler = rw (install-action sigfpe s, handler) refl
  raise_signal-install sigsegv s caught handler = rw (install-action sigsegv s, handler) refl
  raise_signal-install sigbus s caught handler = rw (install-action sigbus s, handler) refl
  raise_signal-install sigill s caught handler = rw (install-action sigill s, handler) refl
  raise_signal-install other_signal s caught handler = cc

  -- The three ways to execute, as `run_native` and as the code with signals choose among them.
  abbrev chosen : Bool → Bool → Globals → Signal × Globals → Signal × Globals
  chosen b c passed r = if b then (sigill, passed) else if c then (sigill, passed) else r

  abbrev chosen_guarded :
      Bool → Bool → Globals → Signal × Globals → Signals K → Option (Globals × Signals K)
  chosen_guarded b c passed r s =
      if b
      then some (passed, execute_native_avx kernel s)
      else if c
      then some (passed, execute_native_avx kernel s)
      else elim (raise_signal kernel r.0 s) [ none ↦ none | some s' ↦ some (r.1, s') ]

  chosen_guarded-install :
      (b c : Bool) (passed : Globals) (r : Signal × Globals) (s : Signals K)
      → s.signal_handler.sa_handler ≡ recover_from_error
      → is_caught (chosen b c passed r).0 ≡ true
      → chosen_guarded b c passed r (install kernel s)
        ≡ some (
          (chosen b c passed r).1,
          record (install kernel s) { signal = (chosen b c passed r).0 },
        )
  unfolding execute_native_avx
  chosen_guarded-install true c passed r s handler caught = refl
  chosen_guarded-install false true passed r s handler caught = refl
  chosen_guarded-install false false passed r s handler caught =
      rw (raise_signal-install r.0 s caught handler) refl

  run_with_signals-install :
      {W : Type 0} (x : Xed) (h : Host) (e : Executor W) (clear : W → W) (g : Globals)
      (fxrstor_signal : ℕ → Signal) (s : Signals K)
      → s.signal_handler.sa_handler ≡ recover_from_error
      → load_signal kernel fxrstor_signal g ≡ no_signal
      → is_caught (run_native x h e clear g).0 ≡ true
      → run_with_signals kernel e h fxrstor_signal g s
        ≡ some (
          (run_native x h e clear g).1,
          uninstall kernel (record (install kernel s) { signal = (run_native x h e clear g).0 }),
        )
  unfolding run_with_signals unguarded run_guarded run_native
  run_with_signals-install x h e clear g fxrstor_signal s handler loads caught =
      ap
        (λ sig. elim (unguarded kernel sig (install kernel s)) [
          | none ↦ none
          | some loaded ↦ elim (run_guarded kernel e h g loaded) [
            | none ↦ none
            | some (g', s') ↦ some (g', uninstall kernel s')
          ]
        ])
        loads
      ∙ ap (λ o. elim o [ none ↦ none | some (g', s') ↦ some (g', uninstall kernel s') ])
          (chosen_guarded-install e.has_avx512 e.has_avx (h.pass_fpu g) (h.execute_native g) s
            handler caught)

-- Native execution after `Init`, if the kernel keeps the actions that it is given, `LoadFPU` raises no
-- signal, and the code behind the `sigsetjmp` none but SIGILL, SIGBUS, SIGSEGV and SIGFPE: it comes to an end, with the globals of
-- `run_native`, and with its signal in `gSignal`; and every signal has the action that it had before.
pub run_with_signals-run_native :
    {K W : Type 0} (kernel : Kernel K) (x : Xed) (h : Host) (e : Executor W) (clear : W → W)
    (fxrstor_signal : ℕ → Signal) (g : Globals) (s : Signals K)
    → KeepsActions kernel
    → load_signal kernel fxrstor_signal g ≡ no_signal
    → is_caught (run_native x h e clear g).0 ≡ true
    → (s' : Signals K) × (run_with_signals kernel e h fxrstor_signal g (init_signals kernel s)
        ≡ some ((run_native x h e clear g).1, s'))
      × (s'.signal ≡ (run_native x h e clear g).0)
      × ((t : Signal) → kernel.action t s'.kernel ≡ kernel.action t s.kernel)
unfolding init_signals uninstall
run_with_signals-run_native kernel x h e clear fxrstor_signal g s keeps loads caught =
    let begun = init_signals kernel s in
    let sig = (run_native x h e clear g).0 in
    (
      uninstall kernel (record (install kernel begun) { signal = sig }),
      run_with_signals-install kernel keeps x h e clear g fxrstor_signal begun refl loads caught,
      refl,
      λ t. restored kernel keeps t sig begun,
    )
