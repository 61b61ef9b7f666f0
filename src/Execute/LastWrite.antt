-- ===== src/Execute/LastWrite.antt =====
-- `WriteRegisters` (`microx/Executor.cpp`) with a program counter in use: what is written last.
use microx.Base.{
  ℕ, zero, suc, ◌+◌, ◌≤◌, ◌<◌, ◌≡◌, refl, ap, sym, ◌∙◌, true, false, ◌==◌, ==→eq, Bool-cases, inl,
  inr, List, [], ◌∷◌, ◌++◌, arith,
}
use microx.Xed.{Xed}
use microx.State.{Globals, Executor, State, Act, ◌>>◌, done}
use microx.State.Lives.{IsLive}
use microx.Registers.{widest_register, write_register, write_registers, restore_stack_ptr}
use microx.Registers.Tracking.{is_requested, target}
use microx.Registers.Lives.{restore_stack_ptr-IsLive}
use microx.Registers.WriteBack.{
  is_pc, modified_from, pc_from, pc_last, write_plan, write_each, write_registers-plan,
}

-- The register of the program counter: a valid register of the file that is not the flags', and that
-- is its own widest register.
pub record HasPc {W : Type 0} (x : Xed) (e : Executor W) : Type 0 where
  pub counter : is_pc x (widest_register x e x.eip) ≡ true
  pub in_file : widest_register x e x.eip < x.reg_last
  pub requested : is_requested x (widest_register x e x.eip) ≡ true
  pub widest : target x e (widest_register x e x.eip) ≡ widest_register x e x.eip
  pub no_flags : (widest_register x e x.eip == widest_register x e x.eflags) ≡ false
  pub valid_eip : (x.eip == x.invalid) ≡ false
  pub valid_rip : (x.rip == x.invalid) ≡ false

-- The client's state is that after a successful write of the program counter.
pub record HasWrittenPc {W : Type 0} (x : Xed) (e : Executor W) (env : W) : Type 0 where
  pub reg : ℕ
  pub counter : is_pc x reg ≡ true
  pub value : ℕ
  pub before : W
  pub written : e.write_reg (x.reg_name reg) (x.width_bits64 reg) value before ≡ (true, env)

-- A sequence that succeeded.
seq_passed :
    {W : Type 0} (m k : Act W) (s : State W)
    → ((m >> k) s).0 ≡ true
    → ((m s).0 ≡ true) × ((m >> k) s ≡ k (m s).1)
unfolding ◌>>◌
seq_passed m k s passed = elim (Bool-cases (m s).0) [
  | inl y ↦ (y, rw y refl)
  | inr n ↦ let failed : ((m >> k) s).0 ≡ false = rw n refl in cc
]

module _ {W : Type 0} (x : Xed) (e : Executor W) where
  -- The last of the registers that are written, if it is a program counter.
  write_each_last :
      (rs : List ℕ) (pc_reg : ℕ) (s : State W)
      → is_pc x pc_reg ≡ true
      → (write_each x e (rs ++ pc_reg ∷ []) s).0 ≡ true
      → HasWrittenPc x e (write_each x e (rs ++ pc_reg ∷ []) s).1.env
  unfolding write_each write_register done
  write_each_last [] pc_reg s counter passed =
      let (first, same) = seq_passed (write_register x e pc_reg) done s passed in
      let value = s.globals.regs (x.enclosing pc_reg) in
      rw same (record {
        reg = pc_reg;
        counter = counter;
        value = value;
        before = s.env;
        written =
            ap (λ b. (b, (e.write_reg (x.reg_name pc_reg) (x.width_bits64 pc_reg) value s.env).1))
              first;
      })
  write_each_last (r ∷ rs) pc_reg s counter passed =
      let next = write_each x e (rs ++ pc_reg ∷ []) in
      let (first, same) = seq_passed (write_register x e r) next s passed in
      rw same (write_each_last rs pc_reg _ counter (ap (λ r. r.0) (sym same) ∙ passed))

  pc_from_kept :
      (left i acc : ℕ) (g : Globals) → is_pc x acc ≡ true → is_pc x (pc_from x left i acc g) ≡ true
  unfolding pc_from
  pc_from_kept zero i acc g counter = counter
  pc_from_kept (suc left) i acc g counter = pc_from_kept left (i + 1) _ g (ground arith)

  -- A program counter in use is found.
  pc_from_found :
      (left i acc q : ℕ) (g : Globals)
      → i ≤ q
      → q < i + left
      → is_pc x q ≡ true
      → g.used_regs q ≡ true
      → is_pc x (pc_from x left i acc g) ≡ true
  unfolding pc_from
  pc_from_found zero i acc q g low high counter used = absurd (omega arith)
  pc_from_found (suc left) i acc q g low high counter used = elim (Bool-cases (q == i)) [
    | inl y ↦
        let here : q ≡ i = ==→eq q i y in
        let used' : g.used_regs i ≡ true = ap g.used_regs (sym here) ∙ used in
        let counter' : is_pc x i ≡ true = ap (is_pc x) (sym here) ∙ counter in
        rw (used', counter') (pc_from_kept left (i + 1) i g counter')
    | inr n ↦
        let above : i + 1 ≤ q = ground arith in
        pc_from_found left (i + 1) _ q g above (omega arith) counter used
  ]

module _ {W : Type 0} (x : Xed) (e : Executor W) where
  abbrev pub pc_register : ℕ
  pc_register = widest_register x e x.eip

module _ {W : Type 0} (x : Xed) (e : Executor W) (p : HasPc x e) where
  abbrev pc : ℕ
  pc = pc_register x e

  valid_pc : (r : ℕ) → is_pc x r ≡ true → (r == x.invalid) ≡ false
  valid_pc r counter = elim (Bool-cases (r == x.eip)) [
    | inl y ↦ rw (==→eq r x.eip y) p.valid_eip
    | inr n ↦ let y : (r == x.rip) ≡ true = ground arith in rw (==→eq r x.rip y) p.valid_rip
  ]

  -- `WriteRegisters` ends with the program counter.
  pub write_registers_last :
      (s : State W)
      → IsLive pc s.globals
      → (write_registers x e s).0 ≡ true
      → HasWrittenPc x e (write_registers x e s).1.env
  unfolding write_plan
  write_registers_last s i passed =
      let g = restore_stack_ptr x e s.globals in
      let live : IsLive pc g = restore_stack_ptr-IsLive x e s.globals i in
      let last = pc_from x x.reg_last 0 x.invalid g in
      let counter : is_pc x last ≡ true =
        pc_from_found x e x.reg_last 0 x.invalid pc g (omega arith) (omega (arith, p.in_file))
          p.counter live.in_use in
      let ends : pc_last x last ≡ last ∷ [] = rw (valid_pc last counter) refl in
      let changed = modified_from x x.reg_last 0 g in
      let after = record s { globals = g } in
      let whole : write_registers x e s ≡ write_each x e (changed ++ last ∷ []) after =
        write_registers-plan x e s ∙ ap (λ l. write_each x e (changed ++ l) after) ends in
      rw whole (write_each_last x e changed last after counter (ap (λ r. r.0) (sym whole) ∙ passed))
