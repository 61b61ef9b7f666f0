-- ===== src/Native/Signals.antt =====
-- The signals around native execution (`RecoverFromError`, `ExecuteNativeAVX`, `Executor::Init` and
-- `Executor::Execute` of `microx/Executor.cpp`, without Windows). The kernel is a parameter.
pub mod Restored
use microx.Base.{ℕ, Bool, true, false, if◌then◌else◌, Option, none, some}
use microx.Host.{Host, Signal, no_signal, sigsegv, sigbus, sigfpe, sigill, other_signal}
use microx.State.{Executor, Globals}

-- What a signal calls: `RecoverFromError`, or something of the program's own, by a number.
pub data Handler : Type 0 where
  recover_from_error : Handler
  other_handler : ℕ → Handler

-- `struct sigaction`, as far as `Init` writes it.
pub record Action : Type 0 where
  pub sa_handler : Handler
  pub sa_flags : ℕ
  pub sa_mask : ℕ

-- The kernel: `sigaction` with a new action, which returns the old one, the action that a signal
-- takes, `SA_ONSTACK` and `sigfillset`.
pub record Kernel (K : Type 0) : Type 0 where
  pub sigaction : Signal → Action → K → Action × K
  pub action : Signal → K → Action
  pub sa_onstack : ℕ
  pub sigfillset : ℕ → ℕ

-- The globals `gSignal`, `gSignalHandler`, `gSIGILL`, `gSIGBUS`, `gSIGSEGV` and `gSIGFPE`, and the
-- state of the kernel.
pub record Signals (K : Type 0) : Type 0 where
  pub signal : Signal
  pub signal_handler : Action
  pub on_sigill : Action
  pub on_sigbus : Action
  pub on_sigsegv : Action
  pub on_sigfpe : Action
  pub kernel : K

module _ {K : Type 0} (kernel : Kernel K) where
  -- The end of `Init`.
  unfoldable pub init_signals : Signals K → Signals K
  init_signals s = record s {
    signal_handler = record {
      sa_handler = recover_from_error;
      sa_flags = kernel.sa_onstack;
      sa_mask = kernel.sigfillset s.signal_handler.sa_mask;
    };
  }

  -- `gSignal` is cleared, and the handler is installed.
  unfoldable pub install : Signals K → Signals K
  install s =
      let (ill, k1) = kernel.sigaction sigill s.signal_handler s.kernel in
      let (bus, k2) = kernel.sigaction sigbus s.signal_handler k1 in
      let (segv, k3) = kernel.sigaction sigsegv s.signal_handler k2 in
      let (fpe, k4) = kernel.sigaction sigfpe s.signal_handler k3 in
      record s {
        signal = no_signal;
        on_sigill = ill;
        on_sigbus = bus;
        on_sigsegv = segv;
        on_sigfpe = fpe;
        kernel = k4;
      }

  -- The program's own actions are put back.
  unfoldable pub uninstall : Signals K → Signals K
  uninstall s =
      let k1 = (kernel.sigaction sigill s.on_sigill s.kernel).1 in
      let k2 = (kernel.sigaction sigbus s.on_sigbus k1).1 in
      let k3 = (kernel.sigaction sigsegv s.on_sigsegv k2).1 in
      let k4 = (kernel.sigaction sigfpe s.on_sigfpe k3).1 in record s { kernel = k4 }

  -- A signal behind the `sigsetjmp` calls `RecoverFromError`, which goes back to it; with another
  -- handler the execution does not go on here.
  unfoldable pub handle : Handler → Signal → Signals K → Option (Signals K)
  handle recover_from_error sig s = some (record s { signal = sig })
  handle (other_handler n) sig s = none

  unfoldable pub raise_signal : Signal → Signals K → Option (Signals K)
  unfolding handle
  raise_signal no_signal s = some s
  raise_signal sig s = handle (kernel.action sig s.kernel).sa_handler sig s

  -- `ExecuteNativeAVX` and `ExecuteNativeAVX512`.
  unfoldable pub execute_native_avx : Signals K → Signals K
  execute_native_avx s = record s { signal = sigill }

  -- A signal in `LoadFPU`, before the `sigsetjmp`: whatever handles it, the execution does not go on
  -- here, since `RecoverFromError` jumps to the place of an earlier instruction, or to none.
  unfoldable pub unguarded : Signal → Signals K → Option (Signals K)
  unguarded no_signal s = some s
  unguarded sig s = none

  -- From the `sigsetjmp` to `StoreFPU`; the effect of `LoadFPU` is part of that of the host.
  unfoldable pub run_guarded :
      {W : Type 0} → Executor W → Host → Globals → Signals K → Option (Globals × Signals K)
  unfolding raise_signal execute_native_avx
  run_guarded e h g s =
      let (sig, g') = h.execute_native g in
      if e.has_avx512
      then some (h.pass_fpu g, execute_native_avx s)
      else if e.has_avx
      then some (h.pass_fpu g, execute_native_avx s)
      else elim (raise_signal sig s) [ none ↦ none | some s' ↦ some (g', s') ]

  -- The signal that `LoadFPU` raises: that of its `fxrstor`, if the FPU is used.
  abbrev pub load_signal : (ℕ → Signal) → Globals → Signal
  load_signal fxrstor_signal g = if g.uses_fpu then fxrstor_signal g.fpu else no_signal

  unfoldable pub run_with_signals :
      {W : Type 0}
      → Executor W
      → Host
      → (ℕ → Signal)
      → Globals
      → Signals K
      → Option (Globals × Signals K)
  unfolding install uninstall unguarded run_guarded
  run_with_signals e h fxrstor_signal g s =
      elim (unguarded (load_signal fxrstor_signal g) (install s)) [
        | none ↦ none
        | some loaded ↦ elim (run_guarded e h g loaded) [
          | none ↦ none
          | some (g', s') ↦ some (g', uninstall s')
        ]
      ]
