-- ===== src/Native.antt =====
-- Native execution (`LoadFPU`, `ExecuteNative`, `StoreFPU` of `microx/Executor.cpp`): the inline
-- assembly instruction by instruction, on the registers of the processor that it runs on. What the
-- processor does with the code in `gExecArea`, with its flags and with its FPU is a parameter.
pub mod Exchange
pub mod Books
pub mod Signals
pub mod Exceptions
mod Tests
use microx.Base.{
  ℕ, zero, suc, ◌+◌, ◌^◌, Bool, true, false, not, ◌==◌, if◌then◌else◌, low_bits, store_bits, List,
  [], ◌∷◌,
}
use microx.Xed.{Xed}
use microx.Host.{Host, Signal, no_signal}
use microx.State.{Globals, update}

-- The registers of the processor: the general registers by their XED numbers, the low eight vector
-- registers by their index, and the rest of what the FPU holds.
pub record Cpu : Type 0 where
  pub gpr : ℕ → ℕ
  pub xmm : ℕ → ℕ
  pub rflags : ℕ
  pub fpu : ℕ

-- How an instruction that can raise a signal ends.
pub record Machine : Type 0 where
  -- `call` of the code, with the data of `gMemory[0]`: the signal, the data after it, the registers.
  pub call : List ℕ → ℕ → Cpu → Signal × ℕ × Cpu
  pub fwait : Cpu → Signal
  pub fnclex : ℕ → ℕ
  -- The flags after a `popfq` of a word, from those before, and the word of a `pushfq`.
  pub popfq : ℕ → ℕ → ℕ
  pub pushfq : ℕ → ℕ
  -- `fxsave` and `fxrstor`, with the prefix for 64 bits or without.
  pub fxsave : Bool → Cpu → ℕ
  pub fxrstor : Bool → ℕ → Cpu → Cpu

-- The XED numbers of the registers that are exchanged.
pub record Numbers : Type 0 where
  pub rax : ℕ
  pub rbx : ℕ
  pub rcx : ℕ
  pub rdx : ℕ
  pub rbp : ℕ
  pub rsi : ℕ
  pub rdi : ℕ
  pub r8 : ℕ
  pub r9 : ℕ
  pub r10 : ℕ
  pub r11 : ℕ
  pub r12 : ℕ
  pub r13 : ℕ
  pub r14 : ℕ
  pub r15 : ℕ

abbrev pub exchanged : Numbers → List ℕ
exchanged n =
    n.rax ∷ n.rbx ∷ n.rcx ∷ n.rdx ∷ n.rbp ∷ n.rsi ∷ n.rdi ∷ n.r8 ∷ n.r9 ∷ n.r10 ∷ n.r11 ∷ n.r12
    ∷ n.r13 ∷ n.r14 ∷ n.r15 ∷ []

-- `xchg` of 64 bits of a register's place in `gRegs` with the register.
abbrev pub xchg : ℕ → (ℕ → ℕ) × (ℕ → ℕ) → (ℕ → ℕ) × (ℕ → ℕ)
xchg r (regs, gpr) =
    (update regs r (store_bits 64 (gpr r) (regs r)), update gpr r (low_bits 64 (regs r)))

unfoldable pub xchg_all : List ℕ → (ℕ → ℕ) × (ℕ → ℕ) → (ℕ → ℕ) × (ℕ → ℕ)
xchg_all [] p = p
xchg_all (r ∷ rs) p = xchg_all rs (xchg r p)

module _ (x : Xed) where
  -- The place of `XMM0`, …, `XMM7` in `gRegs`.
  abbrev pub xmm_place : ℕ → ℕ
  xmm_place i = x.enclosing (x.xmm_first + i)

  -- `movdqu` into, or from, the first vector registers.
  unfoldable pub load_xmm : ℕ → (ℕ → ℕ) → (ℕ → ℕ) → ℕ → ℕ
  load_xmm zero regs xmm = xmm
  load_xmm (suc n) regs xmm = update (load_xmm n regs xmm) n (low_bits 128 (regs (xmm_place n)))

  unfoldable pub store_xmm : ℕ → (ℕ → ℕ) → (ℕ → ℕ) → ℕ → ℕ
  store_xmm zero xmm regs = regs
  store_xmm (suc n) xmm regs =
      let before = store_xmm n xmm regs in
      update before (xmm_place n) (store_bits 128 (xmm n) (before (xmm_place n)))

  module _ (m : Machine) (n : Numbers) where
    -- `ExecuteNative` up to the call.
    unfoldable pub enter : Globals → Cpu → Globals × Cpu
    unfolding xchg_all load_xmm
    enter g c =
        let xmm = load_xmm 8 g.regs c.xmm in
        let (regs, gpr) = xchg_all (exchanged n) (g.regs, c.gpr) in
        let flags = m.popfq c.rflags (low_bits 64 (regs x.rflags)) in
        (
          record g { regs = regs },
          record { gpr = gpr; xmm = xmm; rflags = flags; fpu = m.fnclex c.fpu },
        )

    -- From the second `fnclex` on.
    unfoldable pub leave : Globals → Cpu → Globals × Cpu
    unfolding xchg_all store_xmm
    leave g c =
        let flagged =
          update g.regs x.rflags (store_bits 64 (m.pushfq c.rflags) (g.regs x.rflags)) in
        let (regs, gpr) = xchg_all (exchanged n) (flagged, c.gpr) in
        (record g { regs = store_xmm 8 c.xmm regs }, record c { gpr = gpr; fpu = m.fnclex c.fpu })

    -- A signal goes back to the `sigsetjmp`.
    abbrev or_signal : Signal → Globals × Cpu → Globals × Cpu → Signal × Globals × Cpu
    or_signal no_signal recovered (g, c) = (no_signal, g, c)
    or_signal signal (g, c) next = (signal, g, c)

    unfoldable pub call_code : Globals → Cpu → Signal × Globals × Cpu
    call_code g c =
        let (signal, contents, c') = m.call g.exec_area g.memory0.contents c in
        let g' = record g { memory0 = record (g.memory0) { contents = contents } } in
        or_signal signal (g', c') (g', c')

    unfoldable pub wait_fpu : Signal × Globals × Cpu → Signal × Globals × Cpu
    unfolding leave
    wait_fpu (no_signal, g, c) = or_signal (m.fwait c) (g, c) (leave g c)
    wait_fpu (signal, g, c) = (signal, g, c)

    unfoldable pub execute_native : Globals → Cpu → Signal × Globals × Cpu
    unfolding enter call_code wait_fpu
    execute_native g c = let (g', c') = enter g c in wait_fpu (call_code g' c')

    -- `LoadFPU`: `gNativeFPU` and the processor.
    unfoldable pub load_fpu : ℕ → Globals → Cpu → ℕ × Cpu
    load_fpu addr_size g c =
        if not g.uses_fpu
        then (0, c)
        else (m.fxsave true c, m.fxrstor (not (32 == addr_size)) g.fpu c)

    unfoldable pub store_fpu : ℕ → ℕ → Globals → Cpu → Globals × Cpu
    store_fpu addr_size native_fpu g c =
        if not g.uses_fpu
        then (g, c)
        else (record g { fpu = m.fxsave (not (32 == addr_size)) c }, m.fxrstor true native_fpu c)

    unfoldable pub run_on_machine : ℕ → Globals → Cpu → Signal × Globals × Cpu
    unfolding execute_native load_fpu store_fpu
    run_on_machine addr_size g c =
        let (native_fpu, loaded) = load_fpu addr_size g c in
        let (signal, g', c') = execute_native g loaded in
        let (g'', c'') = store_fpu addr_size native_fpu g' c' in (signal, g'', c'')

    -- The processor as the host of the executor, with the registers that it has at each call.
    unfoldable pub machine_host : ℕ → Cpu → Host → Host
    unfolding load_fpu store_fpu run_on_machine
    machine_host addr_size c h = record h {
      execute_native = λ g. let (signal, g', c') = run_on_machine addr_size g c in (signal, g');
      pass_fpu = λ g.
          let (native_fpu, loaded) = load_fpu addr_size g c in
          (store_fpu addr_size native_fpu g loaded).0;
    }
