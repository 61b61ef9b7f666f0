-- ===== src/Execute/Splits.antt =====
-- The steps of `Execute` (`microx/Executor.cpp`) with what follows them split off: a run of several
-- instructions is the run of the first ones and then, if it ended well, the run of the others.
use microx.Base.{ℕ, ◌≡◌, refl, ◌∙◌, sym, ap, Bool, true, false, Bool-cases, inl, inr, if◌then◌else◌}
use microx.Host.{Signal, no_signal, sigsegv, sigbus, sigfpe, sigill, other_signal}
use microx.State.{Globals, State, Act, ExecutorStatus, good}
use microx.Execute.{Run, or_return, on_globals, check_signal}

abbrev pub is_good : ExecutorStatus → Bool
is_good good = true
is_good _ = false

module _ {W : Type 0} where
  -- What follows a run that ended well.
  abbrev pub continue : ExecutorStatus × State W → Run W → ExecutorStatus × State W
  continue (status, s) k = if is_good status then k s else (status, s)

  -- The end of the loop.
  abbrev pub stop : Run W
  stop s = (good, s)

  -- A step that does what follows it exactly if it ends well by itself.
  pub record Continues (step : Run W → Run W) : Type 0 where
    pub continues : (k : Run W) (s : State W) → step k s ≡ continue (step stop s) k

  continue_twice :
      (b : Run W → Run W)
      → Continues b
      → (r : ExecutorStatus × State W) (k : Run W)
      → continue r (b k) ≡ continue (continue r (b stop)) k
  continue_twice b q (status, s) k = elim (Bool-cases (is_good status)) [
    | inl y ↦ rw y (q.continues k s)
    | inr n ↦ rw (n, n) refl
  ]

  pub Continues-comp : (a b : Run W → Run W) → Continues a → Continues b → Continues (λ k. a (b k))
  Continues-comp a b p q = record {
    continues = λ k s.
        p.continues (b k) s
        ∙ continue_twice b q (a stop s) k
        ∙ ap (λ r. continue r k) (sym (p.continues (b stop) s));
  }

  pub Continues-or_return :
      (m : Act W) (status : ExecutorStatus)
      → is_good status ≡ false
      → Continues (or_return m status)
  unfolding or_return
  Continues-or_return m status bad = record {
    continues = λ k s. elim (Bool-cases (m s).0) [ inl y ↦ rw y refl | inr n ↦ rw (n, bad) refl ];
  }

  pub Continues-on_globals : (f : Globals → Globals) → Continues (on_globals f)
  unfolding on_globals
  Continues-on_globals f = record { continues = λ k s. refl }

  pub Continues-signal : (signal : Signal) → Continues (check_signal signal)
  unfolding check_signal
  Continues-signal no_signal = record { continues = λ k s. refl }
  Continues-signal sigsegv = record { continues = λ k s. refl }
  Continues-signal sigbus = record { continues = λ k s. refl }
  Continues-signal sigfpe = record { continues = λ k s. refl }
  Continues-signal sigill = record { continues = λ k s. refl }
  Continues-signal other_signal = record { continues = λ k s. refl }

  -- A step that is one of two.
  pub choice-Continues :
      (b : Bool) {f g : Run W → Run W}
      → Continues f
      → Continues g
      → (k : Run W) (s : State W)
      → (if b then f k s else g k s) ≡ continue (if b then f stop s else g stop s) k
  choice-Continues true p q = p.continues
  choice-Continues false p q = q.continues

  pub Continues-return :
      (status : ExecutorStatus) → is_good status ≡ false → Continues (λ k s. (status, s))
  Continues-return status bad = record { continues = λ k s. rw bad refl }

  continue_inside :
      (r : ExecutorStatus × State W) (a b k : Run W)
      → ((s : State W) → b s ≡ continue (a s) k)
      → continue r b ≡ continue (continue r a) k
  continue_inside (status, s) a b k same = elim (Bool-cases (is_good status)) [
    | inl y ↦ rw y (same s)
    | inr n ↦ rw (n, n) refl
  ]

  -- A step that hands the bytes of the instruction on to what follows: what follows the end of that
  -- follows the step.
  pub record Passes (step : (ℕ → Run W) → Run W) : Type 0 where
    pub passes :
        (a b : ℕ → Run W) (k : Run W)
        → ((idata : ℕ) (s : State W) → b idata s ≡ continue (a idata s) k)
        → (s : State W) → step b s ≡ continue (step a s) k

  pub Passes-given : (idata : ℕ) → Passes (λ k. k idata)
  Passes-given idata = record { passes = λ a b k same s. same idata s }

  pub Passes-comp :
      (f : Run W → Run W) (step : (ℕ → Run W) → Run W)
      → Continues f
      → Passes step
      → Passes (λ k. f (step k))
  Passes-comp f step p q = record {
    passes = λ a b k same s.
        p.continues (step b) s
        ∙ continue_inside (f stop s) (step a) (step b) k (q.passes a b k same)
        ∙ ap (λ r. continue r k) (sym (p.continues (step a) s));
  }
