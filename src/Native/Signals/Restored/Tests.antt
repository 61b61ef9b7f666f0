-- ===== src/Native/Signals/Restored/Tests.antt =====
-- Native execution of a division by zero, with a kernel that is a table of actions.
use microx.Base.{◌≡◌, refl, if◌then◌else◌, some}
use microx.Host.{Host, Signal, sigfpe, sigsegv, no_signal}
use microx.Execute.{run_native}
use microx.Native.Signals.{other_handler, Action, Kernel, Signals, init_signals, run_with_signals}
use microx.Native.Signals.Restored.{same, KeepsActions, run_with_signals-run_native}
use microx.Fixture.{xed, host, client, globals}

abbrev table : Kernel (Signal → Action)
table = record {
  sigaction = λ s a k. (k s, λ t. if same s t then a else k t);
  action = λ s k. k s;
  sa_onstack = 0x0800_0000;
  sigfillset = λ mask. 0xffff_ffff_ffff_ffff;
}

table-KeepsActions : KeepsActions table
table-KeepsActions = record { returns = λ s a k. refl; sets = λ s t a k. refl }

abbrev zeroed : Action
zeroed = record { sa_handler = other_handler 0; sa_flags = 0; sa_mask = 0 }

-- The program has a handler of its own for each signal.
abbrev signals : Signals (Signal → Action)
signals = record {
  signal = no_signal;
  signal_handler = zeroed;
  on_sigill = zeroed;
  on_sigbus = zeroed;
  on_sigsegv = zeroed;
  on_sigfpe = zeroed;
  kernel = λ s. record { sa_handler = other_handler 7; sa_flags = 4; sa_mask = 0 };
}

abbrev dividing : Host
dividing = record host { execute_native = λ g. (sigfpe, record g { fpu = 1 }) }

ends_caught : (run_native xed dividing client (λ w. w) globals).0 ≡ sigfpe
unfolding run_native
ends_caught = refl

run_with_signals-run_native_example :
    let result = run_native xed dividing client (λ w. w) globals in
    (s' : Signals (Signal → Action)) × (run_with_signals table client dividing
        (λ fpu. sigsegv)
        globals
        (init_signals table signals)
      ≡ some (result.1, s'))
    × (s'.signal ≡ result.0)
    × ((t : Signal) → table.action t s'.kernel ≡ table.action t signals.kernel)
run_with_signals-run_native_example =
    run_with_signals-run_native table xed dividing client (λ w. w) (λ fpu. sigsegv) globals signals
      table-KeepsActions refl (rw ends_caught refl)
