-- ===== src/Execute/Composition.antt =====
-- Runs of `Execute` (`microx/Executor.cpp`) over several instructions.
use microx.Base.{
  ℕ, zero, suc, ◌+◌, ◌≡◌, refl, ◌∙◌, ap, ◌==◌, true, false, Option, none, some, arith,
}
use microx.Xed.{Xed, Inst}
use microx.Host.{Host}
use microx.State.{
  Executor, State, ExecutorStatus, error_read_flags, error_write_flags, error_read_reg,
  error_write_reg, error_read_mem, error_write_mem, error_read_fpu, error_write_fpu, error_execute,
  error_unsupported_cfi, error_unsupported_stack, error_unsupported_features, error_read_inst_mem,
  error_decode, read_executable,
}
use microx.Emulate.Machine.{Emulated, handled, rejected, native, get_pc, get_next_pc}
use microx.Emulate.Dispatch.{emulate}
use microx.Emulate.Outcomes.{is_unsupported, ends_well, emulate-ends}
use microx.Execute.Support.{uses_unsupported_features, is_nop}
use microx.Execute.{
  or_return, on_globals, fetch, with_inst, fetch_and_decode, native_act, after_emulate,
  write_effects, perform, finish, execute_decoded, execute_one, execute_loop, run_native, reset,
}
use microx.Execute.Unread.{IgnoresOldBytes, execute_loop_same}
use microx.Execute.Splits.{
  is_good, continue, Passes, Passes-given, Passes-comp, Continues, Continues-comp,
  Continues-or_return, Continues-on_globals, Continues-signal, choice-Continues, Continues-return,
}

pub unsupported_bad :
    (status : ExecutorStatus) → is_unsupported status ≡ true → is_good status ≡ false
unsupported_bad error_unsupported_cfi h = refl
unsupported_bad error_unsupported_stack h = refl
unsupported_bad _ h = cc

module _ {W : Type 0} (x : Xed) (h : Host) (e : Executor W) (clear : W → W) where
  finish-Continues : (pc : ℕ) → Continues (finish x h e clear pc)
  unfolding finish
  finish-Continues pc =
      Continues-comp (or_return _ error_write_flags) _ (Continues-or_return _ _ refl) (
        Continues-comp (on_globals _) _ (Continues-on_globals _)
          (Continues-or_return _ error_write_reg refl))

  write_effects-Continues :
      (pc : ℕ) → Continues (λ k. write_effects x h e clear (λ pc'. finish x h e clear pc' k) pc)
  unfolding write_effects
  write_effects-Continues pc =
      Continues-comp (or_return _ error_write_mem) _ (Continues-or_return _ _ refl) (
        Continues-comp (or_return _ error_write_fpu) _ (Continues-or_return _ _ refl)
          (Continues-comp (on_globals _) _ (Continues-on_globals _) (finish-Continues pc)))

  native_act-Continues : Continues (native_act x h e clear)
  unfolding native_act
  native_act-Continues = record {
    continues = λ k s. (Continues-signal (run_native x h e clear s.globals).0).continues k _;
  }

  after_emulate-Continues :
      (outcome : Emulated)
      → ends_well outcome ≡ true
      → Continues (λ k.
        after_emulate x h e clear outcome
          (write_effects x h e clear (λ pc. finish x h e clear pc k)))
  unfolding after_emulate
  after_emulate-Continues (handled g pc) well = record {
    continues = λ k s. (write_effects-Continues pc).continues k _;
  }
  after_emulate-Continues (rejected status) well =
      Continues-return status (unsupported_bad status well)
  after_emulate-Continues (native pc) well =
      Continues-comp (or_return _ error_execute) _ (Continues-or_return _ _ refl) (
        Continues-comp (native_act x h e clear) _ native_act-Continues (write_effects-Continues pc))

  perform-Continues :
      (pc : ℕ) → Continues (λ k. perform x h e clear (λ pc'. finish x h e clear pc' k) pc)
  unfolding perform
  perform-Continues pc =
      Continues-comp (or_return _ error_read_fpu) _ (Continues-or_return _ _ refl) (
        Continues-comp (on_globals _) _ (Continues-on_globals _) (
          Continues-comp (or_return _ error_read_mem) _ (Continues-or_return _ _ refl) (record {
            continues = λ k s.
                (after_emulate-Continues (emulate x h e pc s.globals)
                    (emulate-ends x h e pc s.globals)).continues
                  k s;
          })))

  execute_decoded-Continues : Continues (execute_decoded x h e clear)
  unfolding execute_decoded
  execute_decoded-Continues = record {
    continues = λ k s.
        choice-Continues (uses_unsupported_features e s.globals.xedd)
          (Continues-return error_unsupported_features refl)
          (Continues-comp (or_return _ error_read_flags) _ (Continues-or_return _ _ refl) (
            Continues-comp (or_return _ error_read_reg) _ (Continues-or_return _ _ refl) (record {
              continues = λ k' s'.
                  choice-Continues (is_nop s'.globals.xedd.category)
                    (finish-Continues (get_next_pc x e s'.globals))
                    (perform-Continues (get_next_pc x e s'.globals)) k' s';
            })))
          k s;
  }

  with_inst-Continues : (found : Option Inst) → Continues (with_inst x h e clear found)
  unfolding with_inst
  with_inst-Continues none = Continues-return error_decode refl
  with_inst-Continues (some inst) = record { continues = λ k s. refl }

  -- The step from the bytes that are left to those of the next instruction.
  fetch_and_decode-Passes :
      (old : ℕ)
      → Passes
          (λ k. fetch_and_decode x h e clear old (λ idata. execute_decoded x h e clear (k idata)))
  unfolding fetch_and_decode
  fetch_and_decode-Passes old = record {
    passes = λ a b k same s.
        let (pc, w) = e.compute_address "CS" (get_pc x e s.globals) 0 0 0 8 read_executable s.env in
        let (len, idata, w') = fetch x h e clear 15 pc old w in
        let found = x.decode (e.addr_size == 32) idata len in
        let decoded =
          Continues-comp (with_inst x h e clear found) _ (with_inst-Continues found)
            execute_decoded-Continues in
        let chosen =
          choice-Continues (len == 0) (Continues-return error_read_inst_mem refl) decoded in
        let step =
          Passes-comp _ (λ k'. k' idata) (record { continues = chosen }) (Passes-given idata) in
        step.passes a b k same (record s { env = w' });
  }

  execute_one-Passes : (old : ℕ) → Passes (execute_one x h e clear old)
  unfolding execute_one
  execute_one-Passes old = Passes-comp (on_globals (reset x)) _ (Continues-on_globals _) (
      Passes-comp (or_return _ error_read_reg) _ (Continues-or_return _ _ refl)
        (fetch_and_decode-Passes old))

  module _ (i : IgnoresOldBytes x e) where
    pub execute_loop-splits :
        (m n idata idata' : ℕ) (s : State W)
        → execute_loop x h e clear (m + n) idata s
          ≡ continue (execute_loop x h e clear m idata s) (execute_loop x h e clear n idata')
    unfolding execute_loop
    execute_loop-splits zero n idata idata' s =
        ap (λ k. execute_loop x h e clear k idata s) (omega arith)
        ∙ ap (λ r. r s) (execute_loop_same x h e clear i n idata idata')
    execute_loop-splits (suc m) n idata idata' s =
        let later : suc m + n ≡ suc (m + n) = omega arith in
        ap (λ k. execute_loop x h e clear k idata s) later
        ∙ (execute_one-Passes idata).passes (execute_loop x h e clear m)
            (execute_loop x h e clear (m + n)) (execute_loop x h e clear n idata')
            (λ d s'. execute_loop-splits m n d idata' s') s
