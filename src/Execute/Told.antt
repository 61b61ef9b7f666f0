-- ===== src/Execute/Told.antt =====
-- Runs of `Execute` (`microx/Executor.cpp`) that end well: the client has been told the program
-- counter, and the executor can go on.
use microx.Base.{
  ℕ, zero, suc, ◌≡◌, refl, true, ◌==◌, Bool-cases, inl, inr, if◌then◌else◌, Option, none, some,
}
use microx.Xed.{Xed, Inst}
use microx.Host.{Host, Signal, no_signal, sigsegv, sigbus, sigfpe, sigill, other_signal}
use microx.State.{
  Executor, State, error_read_flags, error_read_reg, error_read_mem, error_read_fpu, error_execute,
  error_unsupported_features, error_read_inst_mem, error_decode, error_fault,
  error_floating_point_exception, read_executable,
}
use microx.State.Lives.{IsLive, Lives}
use microx.Operands.{read_pc}
use microx.MemoryOps.Lives.{read_memory-Lives}
use microx.Emulate.Machine.{Emulated, handled, rejected, native, get_pc, get_next_pc}
use microx.Emulate.Dispatch.{emulate}
use microx.Emulate.Outcomes.{ends_well, emulate-ends}
use microx.Emulate.Lives.{globals_after, emulate-IsLive}
use microx.Encode.Lives.{encode_instruction-IsLive}
use microx.Execute.Support.{uses_unsupported_features, is_nop}
use microx.Execute.Mmx.{copy_mmx_state_to_fpu}
use microx.Execute.Lives.{read_flags-Lives, read_registers-Lives}
use microx.Execute.LastWrite.{HasPc, pc_register}
use microx.Execute.Composition.{unsupported_bad}
use microx.Execute.Ends.{
  GoodTold, not_good, Ends, Ends-or_return, Ends-on_globals, Ends-if, Ends-return, read_pc-IsLive,
}
use microx.Execute.{
  Run, or_return, on_globals, check_signal, fetch, with_inst, fetch_and_decode, encode_act,
  native_act, after_emulate, write_effects, perform, finish, execute_decoded, execute_one,
  execute_loop, run_native, reset,
}
use microx.Execute.Telling.{
  KeepsBooks, Tells, finish-Ends, read_fpu-Lives, run_native-IsLive, write_effects-Ends,
  to_fpu-IsLive, if-IsLive,
}

module _ {W : Type 0} (x : Xed) (h : Host) (e : Executor W) (clear : W → W) (p : HasPc x e)
    (b : KeepsBooks h) where
  abbrev pc : ℕ
  pc = pc_register x e

  check_signal-Ends :
      (signal : Signal) (k : Run W) → Ends x e p k → Ends x e p (check_signal signal k)
  unfolding check_signal
  check_signal-Ends no_signal k ends = record { ends = λ s i. ends.ends s i }
  check_signal-Ends sigsegv k ends = Ends-return x e p error_fault refl
  check_signal-Ends sigbus k ends = Ends-return x e p error_fault refl
  check_signal-Ends sigfpe k ends = Ends-return x e p error_floating_point_exception refl
  check_signal-Ends sigill k ends = Ends-return x e p error_execute refl
  check_signal-Ends other_signal k ends = Ends-return x e p error_execute refl

  native_act-Ends : (k : Run W) → Ends x e p k → Ends x e p (native_act x h e clear k)
  unfolding native_act
  native_act-Ends k ends = record {
    ends = λ s i.
        (check_signal-Ends (run_native x h e clear s.globals).0 k ends).ends _
          (run_native-IsLive x h e clear p b s.globals i);
  }

  encode_act-Lives : Lives pc (encode_act x h e clear)
  unfolding encode_act
  encode_act-Lives = record { lives = λ s i. encode_instruction-IsLive x pc h s.globals i }

  -- What follows `Emulate`.
  abbrev after : Emulated → Run W → Run W
  after outcome k =
      after_emulate x h e clear outcome
        (write_effects x h e clear (λ pc'. finish x h e clear pc' k))

  after_emulate-told :
      (outcome : Emulated) (k : Run W) (s : State W)
      → ends_well outcome ≡ true
      → Tells x h e clear p b k
      → IsLive pc (globals_after outcome s.globals)
      → GoodTold x e p (after outcome k s)
  unfolding after_emulate
  after_emulate-told (handled g next_pc) k s well next i =
      (write_effects-Ends x h e clear p b k next next_pc).ends _ i
  after_emulate-told (rejected status) k s well next i =
      not_good x e p status s (unsupported_bad status well)
  after_emulate-told (native next_pc) k s well next i =
      (Ends-or_return x e p error_execute refl encode_act-Lives
          (native_act-Ends _ (write_effects-Ends x h e clear p b k next next_pc))).ends
        s i

  perform-Ends :
      (k : Run W)
      → Tells x h e clear p b k
      → (next_pc : ℕ) → Ends x e p (perform x h e clear (λ pc'. finish x h e clear pc' k) next_pc)
  unfolding perform
  perform-Ends k next next_pc =
      Ends-or_return x e p error_read_fpu refl (read_fpu-Lives x h e clear p b) (
        Ends-on_globals x e p (λ g. if g.uses_mmx then copy_mmx_state_to_fpu x g else g)
          (λ g i. if-IsLive x pc g.uses_mmx (copy_mmx_state_to_fpu x) g (to_fpu-IsLive x pc g) i)
          (Ends-or_return x e p error_read_mem refl (read_memory-Lives x e) (record {
            ends = λ s i.
                after_emulate-told (emulate x h e next_pc s.globals) k s
                  (emulate-ends x h e next_pc s.globals) next
                  (emulate-IsLive x h e pc next_pc s.globals i);
          })))

  execute_decoded-Ends :
      (k : Run W) → Tells x h e clear p b k → Ends x e p (execute_decoded x h e clear k)
  unfolding execute_decoded
  execute_decoded-Ends k next = record {
    ends = λ s i.
        Ends-if x e p (uses_unsupported_features e s.globals.xedd) s i
          (Ends-return x e p error_unsupported_features refl)
          (Ends-or_return x e p error_read_flags refl (read_flags-Lives x e h) (
            Ends-or_return x e p error_read_reg refl (read_registers-Lives x e) (record {
              ends = λ s' i'.
                  let next_pc = get_next_pc x e s'.globals in
                  Ends-if x e p (is_nop s'.globals.xedd.category) s' i'
                    (finish-Ends x h e clear p b next_pc k next) (perform-Ends k next next_pc);
            })));
  }

  with_inst-Ends :
      (found : Option Inst) (k : Run W) → Ends x e p k → Ends x e p (with_inst x h e clear found k)
  unfolding with_inst
  with_inst-Ends none k ends = Ends-return x e p error_decode refl
  with_inst-Ends (some inst) k ends = record {
    ends = λ s i. ends.ends _ (record { initialized = i.initialized; in_use = i.in_use });
  }

  fetch_and_decode-Ends :
      (old : ℕ) (k : ℕ → Run W)
      → ((idata : ℕ) → Ends x e p (k idata))
      → Ends x e p (fetch_and_decode x h e clear old k)
  unfolding fetch_and_decode
  fetch_and_decode-Ends old k ends = record {
    ends = λ s i.
        let (pc', w) =
          e.compute_address "CS" (get_pc x e s.globals) 0 0 0 8 read_executable s.env in
        let (len, idata, w') = fetch x h e clear 15 pc' old w in
        Ends-if x e p (len == 0) (record s { env = w' }) i
          (Ends-return x e p error_read_inst_mem refl)
          (with_inst-Ends (x.decode (e.addr_size == 32) idata len) (k idata) (ends idata));
  }

  -- One instruction, from an initialized executor.
  pub execute_one-told :
      (old : ℕ) (k : ℕ → Run W) (s : State W)
      → ((idata : ℕ) → Tells x h e clear p b (k idata))
      → s.globals.is_initialized ≡ true
      → GoodTold x e p (execute_one x h e clear old k s)
  unfolding execute_one or_return on_globals reset
  execute_one-told old k s next ready =
      let fresh : State W = record s { globals = reset x s.globals } in
      let live = read_pc-IsLive x e p fresh ready in
      elim (Bool-cases (read_pc x e fresh).0) [
        | inl y ↦ rw y (
            (fetch_and_decode-Ends old _
                (λ idata. execute_decoded-Ends (k idata) (next idata))).ends
              _ live)
        | inr n ↦ rw n (not_good x e p error_read_reg (read_pc x e fresh).1 refl)
      ]

  pub execute_loop-told : (n idata : ℕ) → Tells x h e clear p b (execute_loop x h e clear n idata)
  unfolding execute_loop
  execute_loop-told zero idata s told = λ fine. told
  execute_loop-told (suc n) idata s told =
      execute_one-told idata (execute_loop x h e clear n) s (execute_loop-told n) told.0
