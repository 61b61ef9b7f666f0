-- ===== src/Execute/Progress.antt =====
-- The progress of `Execute` (`microx/Executor.cpp`) over several instructions.
mod Tests
use microx.Base.{
  ℕ, zero, suc, ◌+◌, ◌≡◌, refl, ap, sym, ◌∙◌, Bool, true, false, not, ◌==◌, Bool-cases, inl, inr,
  if◌then◌else◌, arith,
}
use microx.Xed.{Xed}
use microx.Host.{Host}
use microx.State.{Executor, State, ExecutorStatus, good, error_not_initialized}
use microx.Execute.{execute, execute_loop}
use microx.Execute.Splits.{is_good, continue}
use microx.Execute.Composition.{execute_loop-splits}
use microx.Execute.Unread.{IgnoresOldBytes}
use microx.Execute.LastWrite.{HasPc, HasWrittenPc}
use microx.Execute.Ends.{GoodTold}
use microx.Execute.Telling.{KeepsBooks}
use microx.Execute.Told.{execute_one-told, execute_loop-told}

-- The last of three results, and the second one.
third :
    {A : Type 0} (b c : Bool) (p q r : A)
    → b ≡ false
    → c ≡ false
    → (if b then p else if c then q else r) ≡ r
third b c p q r nb nc = rw (nb, nc) refl

second :
    {A : Type 0} (b c : Bool) (p q r : A)
    → b ≡ false
    → c ≡ true
    → (if b then p else if c then q else r) ≡ q
second b c p q r nb yc = rw (nb, yc) refl

some_left : (n : ℕ) → (suc n == 0) ≡ false
some_left n = ground arith

module _ {W : Type 0} (x : Xed) (h : Host) (e : Executor W) (clear : W → W) (p : HasPc x e)
    (b : KeepsBooks h) where
  run_told :
      (n : ℕ) (s : State W)
      → s.globals.is_initialized ≡ true
      → GoodTold x e p (execute_loop x h e clear (suc n) h.uninitialized_data s)
  unfolding execute_loop
  run_told n s ready =
      execute_one-told x h e clear p b h.uninitialized_data _ s
        (execute_loop-told x h e clear p b n) ready

  -- The run of an initialized executor.
  execute_ready :
      (n : ℕ) (s : State W)
      → s.globals.is_initialized ≡ true
      → execute x h e clear n s ≡ execute_loop x h e clear n h.uninitialized_data s
  unfolding execute execute_loop
  execute_ready zero s ready = refl
  execute_ready (suc n) s ready =
      third (suc n == 0) (not s.globals.is_initialized) (good, s) (error_not_initialized, s)
        (execute_loop x h e clear (suc n) h.uninitialized_data s) (some_left n) (ap not ready)

  execute_refused :
      (n : ℕ) (s : State W)
      → s.globals.is_initialized ≡ false
      → execute x h e clear (suc n) s ≡ (error_not_initialized, s)
  unfolding execute
  execute_refused n s refused =
      second (suc n == 0) (not s.globals.is_initialized) (good, s) (error_not_initialized, s)
        (execute_loop x h e clear (suc n) h.uninitialized_data s) (some_left n) (ap not refused)

  -- A call of `Execute` after a run, against the loop that goes on.
  continue_ready :
      (n : ℕ) (r : ExecutorStatus × State W)
      → (is_good r.0 ≡ true → r.1.globals.is_initialized ≡ true)
      → continue r (execute_loop x h e clear n h.uninitialized_data)
        ≡ continue r (execute x h e clear n)
  continue_ready n (status, s) ready = elim (Bool-cases (is_good status)) [
    | inl y ↦ rw y (sym (execute_ready n s (ready y)))
    | inr bad ↦ rw bad refl
  ]

  continue_none :
      (n : ℕ) (s : State W)
      → execute x h e clear n s ≡ continue (execute x h e clear 0 s) (execute x h e clear n)
  unfolding execute
  continue_none n s = refl

  -- If the execution of one instruction or more ends with `kGood`, then the last call of the client was
  -- a successful write of the program counter. Native execution keeps the executor's bookkeeping, and
  -- the program counter has a register of its own.
  pub execute-HasWrittenPc :
      (n : ℕ) (s : State W)
      → is_good (execute x h e clear (suc n) s).0 ≡ true
      → HasWrittenPc x e (execute x h e clear (suc n) s).1.env
  execute-HasWrittenPc n s fine = elim (Bool-cases s.globals.is_initialized) [
    | inl ready ↦
        let same = execute_ready (suc n) s ready in
        rw same ((run_told n s ready (ap (λ r. is_good r.0) (sym same) ∙ fine)).1)
    | inr refused ↦
        let no : false ≡ true = ap (λ r. is_good r.0) (sym (execute_refused n s refused)) ∙ fine in
        cc
  ]

  -- The execution of `m + n` instructions is the execution of `m`, and, if that ends with `kGood`, the
  -- execution of `n` more, as another call of `Execute`. Native execution keeps the executor's
  -- bookkeeping, the program counter has a register of its own, the client answers a read of code
  -- whatever is in the buffer and fills the bytes that were asked for, and the decoder looks at the
  -- bytes of the instruction only.
  pub execute-splits :
      (i : IgnoresOldBytes x e) (m n : ℕ) (s : State W)
      → execute x h e clear (m + n) s ≡ continue (execute x h e clear m s) (execute x h e clear n)
  execute-splits i zero n s = ap (λ k. execute x h e clear k s) (omega arith) ∙ continue_none n s
  execute-splits i (suc m) n s = elim (Bool-cases s.globals.is_initialized) [
    | inl ready ↦
        let first = execute_loop x h e clear (suc m) h.uninitialized_data s in
        execute_ready (suc m + n) s ready
        ∙ execute_loop-splits x h e clear i (suc m) n h.uninitialized_data h.uninitialized_data s
        ∙ continue_ready n first (λ fine. (run_told m s ready fine).0)
        ∙ ap (λ r. continue r (execute x h e clear n)) (sym (execute_ready (suc m) s ready))
    | inr refused ↦
        let later : suc m + n ≡ suc (m + n) = omega arith in
        ap (λ k. execute x h e clear k s) later
        ∙ execute_refused (m + n) s refused
        ∙ ap (λ r. continue r (execute x h e clear n)) (sym (execute_refused m s refused))
  ]
