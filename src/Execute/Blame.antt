-- ===== src/Execute/Blame.antt =====
-- Which statuses of `Execute` (`microx/Executor.cpp`) only a client can cause.
use microx.Base.{
  ℕ, zero, suc, ◌*◌, ◌≡◌, refl, ◌==◌, not, false, Bool-cases, inl, inr, Option, none, some,
}
use microx.Xed.{Xed, Inst}
use microx.Host.{Host}
use microx.State.{Executor, State, error_read_reg, read_executable}
use microx.State.Serves.{ServesCalls}
use microx.Emulate.Machine.{get_pc}
use microx.Execute.Served.{read_pc-Serves}
use microx.Execute.{Run, fetch, with_inst, fetch_and_decode, execute_one, execute_loop, execute}
use microx.Execute.Clears.{
  is_client_error, Clears, Clears-served, Clears-on_globals, execute_decoded-Clears,
}

module _ {W : Type 0} (I : W → Type 0) (x : Xed) (h : Host) (e : Executor W) (clear : W → W)
    (r : ServesCalls I e clear) where
  fetch_served :
      (n pc idata : ℕ) (w : W)
      → I w
      → ((fetch x h e clear (suc n) pc idata w).0 ≡ suc n)
        × I (fetch x h e clear (suc n) pc idata w).2
  unfolding fetch
  fetch_served n pc idata w i =
      let (passed, kept) = r.serves_read_mem pc (suc n * 8) read_executable idata w i in
      rw passed (refl, kept)

  with_inst-Clears :
      (found : Option Inst) {k : Run W} → Clears I k → Clears I (with_inst x h e clear found k)
  unfolding with_inst
  with_inst-Clears none p = record { clears = λ s i. refl }
  with_inst-Clears (some inst) p = record { clears = λ s i. p.clears _ i }

  fetch_and_decode-Clears :
      (old : ℕ) {k : ℕ → Run W}
      → ((idata : ℕ) → Clears I (k idata))
      → Clears I (fetch_and_decode x h e clear old k)
  unfolding fetch_and_decode
  fetch_and_decode-Clears old p = record {
    clears = λ s i.
        let (pc, w) = e.compute_address "CS" (get_pc x e s.globals) 0 0 0 8 read_executable s.env in
        let fetched = fetch x h e clear 15 pc old w in
        let (whole, kept) = fetch_served 14 pc old w (r.serves_address _ _ _ _ _ _ _ s.env i) in
        rw whole (
          (with_inst-Clears (x.decode (e.addr_size == 32) fetched.1 15) (p fetched.1)).clears _
            kept);
  }

  execute_one-Clears :
      (old : ℕ) (k : ℕ → Run W)
      → ((idata : ℕ) → Clears I (k idata))
      → Clears I (execute_one x h e clear old k)
  unfolding execute_one
  execute_one-Clears old k p = Clears-on_globals _ (
      Clears-served error_read_reg (read_pc-Serves I x e r) (
        fetch_and_decode-Clears old
          (λ idata. execute_decoded-Clears I x h e clear r (k idata) (p idata))))

  execute_loop-Clears : (n idata : ℕ) → Clears I (execute_loop x h e clear n idata)
  unfolding execute_loop
  execute_loop-Clears zero idata = record { clears = λ s i. refl }
  execute_loop-Clears (suc n) idata = record {
    clears = (execute_one-Clears idata (execute_loop x h e clear n) (execute_loop-Clears n)).clears;
  }

  -- For a client each of whose methods succeeds and keeps a predicate on the client's state, from a
  -- state in which the predicate holds: the execution of any number of instructions, whatever they
  -- are, never ends with a status that reports a failed read or write of the program counter, the
  -- instruction bytes, registers, flags, memory or the FPU.
  pub execute-serves :
      (n : ℕ) (s : State W) → I s.env → is_client_error (execute x h e clear n s).0 ≡ false
  unfolding execute
  execute-serves n s i = elim (Bool-cases (n == 0)) [
    | inl y ↦ rw y refl
    | inr n' ↦ rw n' (elim (Bool-cases (not s.globals.is_initialized)) [
      | inl y ↦ rw y refl
      | inr ready ↦ rw ready ((execute_loop-Clears n h.uninitialized_data).clears s i)
    ])
  ]
