-- ===== src/Native/Books.antt =====
-- What native execution (`microx/Executor.cpp`) leaves of the executor's bookkeeping.
use microx.Base.{ℕ, ◌≡◌, refl, ◌∙◌, ap, sym, Bool, arith}
use microx.Xed.{Xed}
use microx.Host.{Host, Signal, no_signal}
use microx.State.{Globals}
use microx.Execute.Telling.{KeepsBooks}
use microx.Native.{
  Cpu, Machine, Numbers, or_signal, enter, leave, call_code, wait_fpu, execute_native, load_fpu,
  store_fpu, run_on_machine, machine_host,
}

abbrev books : Globals → Bool × (ℕ → Bool)
books g = (g.is_initialized, g.used_regs)

module _ (x : Xed) (m : Machine) (n : Numbers) where
  or_signal-books :
      (signal : Signal) (r q : Globals × Cpu)
      → books r.0 ≡ books q.0
      → books (or_signal x m n signal r q).1 ≡ books r.0
  or_signal-books no_signal r q same = sym same
  or_signal-books _ r q same = refl

  wait_fpu-books : (r : Signal × Globals × Cpu) → books (wait_fpu x m n r).1 ≡ books r.1
  unfolding wait_fpu leave
  wait_fpu-books (no_signal, g, c) = or_signal-books (m.fwait c) (g, c) (leave x m n g c) refl
  wait_fpu-books (_, g, c) = refl

  enter-books : (g : Globals) (c : Cpu) → books (enter x m n g c).0 ≡ books g
  unfolding enter
  enter-books g c = refl

  call_code-books : (g : Globals) (c : Cpu) → books (call_code x m n g c).1 ≡ books g
  unfolding call_code
  call_code-books g c =
      let (signal, contents, c') = m.call g.exec_area g.memory0.contents c in
      let g' = record g { memory0 = record (g.memory0) { contents = contents } } in
      or_signal-books signal (g', c') (g', c') refl

  execute_native-books : (g : Globals) (c : Cpu) → books (execute_native x m n g c).1 ≡ books g
  unfolding execute_native
  execute_native-books g c =
      let (g', c') = enter x m n g c in
      wait_fpu-books (call_code x m n g' c') ∙ call_code-books g' c' ∙ enter-books g c

  store_fpu-books :
      (addr_size native : ℕ) (g : Globals) (c : Cpu)
      → books (store_fpu x m n addr_size native g c).0 ≡ books g
  unfolding store_fpu
  store_fpu-books addr_size native g c = ground arith

  pub machine_host-KeepsBooks :
      (addr_size : ℕ) (c : Cpu) (h : Host) → KeepsBooks (machine_host x m n addr_size c h)
  unfolding machine_host run_on_machine
  machine_host-KeepsBooks addr_size c h =
      let ran : (g : Globals) → books (run_on_machine x m n addr_size g c).1 ≡ books g = λ g.
        let (native_fpu, loaded) = load_fpu x m n addr_size g c in
        store_fpu-books addr_size native_fpu (execute_native x m n g loaded).1 _
        ∙ execute_native-books g loaded in
      record {
        run_initialized = λ g. ap (λ b. b.0) (ran g);
        run_used = λ g. ap (λ b. b.1) (ran g);
        pass_initialized = λ g. ap (λ b. b.0) (store_fpu-books addr_size _ g _);
        pass_used = λ g. ap (λ b. b.1) (store_fpu-books addr_size _ g _);
      }
