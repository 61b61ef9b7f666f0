-- ===== src/Execute/Ends.antt =====
-- What a run of `Execute` (`microx/Executor.cpp`) that ends well has done last.
use microx.Base.{
  ℕ, ◌≡◌, refl, ap, sym, ◌∙◌, Bool, true, false, ◌==◌, if◌then◌else◌, Bool-cases, inl, inr, arith,
}
use microx.Xed.{Xed, RegClass, x87, pseudox87, mmx, other_class}
use microx.State.{
  Globals, Executor, State, Act, ExecutorStatus, RegRequestHint, program_counter, ◌>>◌, modify,
  reading, done, update,
}
use microx.State.Lives.{IsLive, Lives}
use microx.Registers.{
  write_registers, read_register, read_class, read_gpr_register, request_register,
}
use microx.Registers.Tracking.{read_register_records}
use microx.Registers.Lives.{write_registers-Lives}
use microx.Operands.{read_pc}
use microx.Execute.{Run, or_return, on_globals}
use microx.Execute.Splits.{is_good}
use microx.Execute.LastWrite.{HasPc, HasWrittenPc, pc_register, write_registers_last}

module _ {W : Type 0} (x : Xed) (e : Executor W) (p : HasPc x e) where
  abbrev pc : ℕ
  pc = pc_register x e

  -- A result that, if it is good, is that of an initialized executor whose client has just been told
  -- the program counter.
  abbrev pub Told : State W → Type 0
  Told s = (s.globals.is_initialized ≡ true) × HasWrittenPc x e s.env

  abbrev pub GoodTold : ExecutorStatus × State W → Type 0
  GoodTold r = is_good r.0 ≡ true → Told r.1

  pub not_good :
      (status : ExecutorStatus) (s : State W) → is_good status ≡ false → GoodTold (status, s)
  not_good status s bad fine = let no : false ≡ true = sym bad ∙ fine in cc

  -- A run from live states with such results.
  pub record Ends (k : Run W) : Type 0 where
    pub ends : (s : State W) → IsLive pc s.globals → GoodTold (k s)

  pub Ends-or_return :
      {m : Act W} (status : ExecutorStatus) {k : Run W}
      → is_good status ≡ false
      → Lives pc m
      → Ends k
      → Ends (or_return m status k)
  unfolding or_return
  Ends-or_return {m} status bad a b = record {
    ends = λ s i. elim (Bool-cases (m s).0) [
      | inl y ↦ rw y (b.ends (m s).1 (a.lives s i))
      | inr n ↦ rw n (not_good status (m s).1 bad)
    ];
  }

  pub Ends-on_globals :
      (f : Globals → Globals) {k : Run W}
      → ((g : Globals) → IsLive pc g → IsLive pc (f g))
      → Ends k
      → Ends (on_globals f k)
  unfolding on_globals
  Ends-on_globals f a b = record { ends = λ s i. b.ends _ (a s.globals i) }

  pub Ends-if :
      (b : Bool) {k l : Run W} (s : State W)
      → IsLive pc s.globals
      → Ends k
      → Ends l
      → GoodTold (if b then k s else l s)
  Ends-if true s i a b = a.ends s i
  Ends-if false s i a b = b.ends s i

  pub Ends-return : (status : ExecutorStatus) → is_good status ≡ false → Ends (λ s. (status, s))
  Ends-return status bad = record { ends = λ s i. not_good status s bad }

  -- The write of the registers, and a run that starts where the client has been told.
  pub Ends-write_registers :
      (status : ExecutorStatus) (k : Run W)
      → is_good status ≡ false
      → ((s : State W) → Told s → GoodTold (k s))
      → Ends (or_return (write_registers x e) status k)
  unfolding or_return
  Ends-write_registers status k bad next = record {
    ends = λ s i. elim (Bool-cases (write_registers x e s).0) [
      | inl y ↦
          let live = (write_registers-Lives x e {pc = pc}).lives s i in
          rw y (next (write_registers x e s).1 (live.initialized, write_registers_last x e p s i y))
      | inr n ↦ rw n (not_good status (write_registers x e s).1 bad)
    ];
  }

  read_class_initialized :
      (c : RegClass) (reg : ℕ) (hint : RegRequestHint) (s : State W)
      → (read_class x e c reg hint s).1.globals.is_initialized ≡ s.globals.is_initialized
  unfolding read_gpr_register request_register ◌>>◌ modify reading done
  read_class_initialized x87 reg hint s = refl
  read_class_initialized pseudox87 reg hint s = refl
  read_class_initialized mmx reg hint s = ground arith
  read_class_initialized other_class reg hint s = ground arith

  read_register_initialized :
      (reg : ℕ) (hint : RegRequestHint) (s : State W)
      → (read_register x e reg hint s).1.globals.is_initialized ≡ s.globals.is_initialized
  unfolding read_register done
  read_register_initialized reg hint s = elim (Bool-cases (reg == x.invalid)) [
    | inl y ↦ rw y refl
    | inr n ↦ rw n (read_class_initialized (x.reg_class reg) reg hint s)
  ]

  -- The read of the program counter takes it into use.
  pub read_pc-IsLive :
      (s : State W) → s.globals.is_initialized ≡ true → IsLive pc (read_pc x e s).1.globals
  unfolding read_pc ◌>>◌ modify
  read_pc-IsLive s ready =
      let marked = update s.globals.modified_regs pc true in
      let s' : State W = record s { globals = record (s.globals) { modified_regs = marked } } in
      let (used, modified) = read_register_records x e pc program_counter s' p.requested in
      let now = (read_register x e pc program_counter s').1.globals in
      record {
        initialized = read_register_initialized pc program_counter s' ∙ ready;
        in_use = ap now.used_regs (sym p.widest) ∙ used;
      }
