-- ===== src/Registers/Tracking.antt =====
-- Which registers `ReadRegister` records as used and as modified.
use microx.Base.{
  ℕ, ◌≡◌, refl, Bool, true, false, not, ◌==◌, ◌&&◌, ◌||◌, if◌then◌else◌, arith, Bool-cases, inl,
  inr,
}
use microx.Xed.{Xed, RegClass, x87, pseudox87, mmx, other_class}
use microx.State.{Globals, Executor, State, done, ◌>>◌, modify, reading, RegRequestHint, write_back}
use microx.Registers.{
  widest_register, request_register, read_gpr_register, read_class, read_register,
}

abbrev pub is_write_back : RegRequestHint → Bool
is_write_back write_back = true
is_write_back _ = false

-- A register of the file: not a pseudo register of a push or a pop.
abbrev pub is_stack_op : Xed → ℕ → Bool
is_stack_op x reg = reg == x.stackpush || reg == x.stackpop

-- The register that stands for an operand, and whether it will be written back.
abbrev pub target : {W : Type 0} → Xed → Executor W → ℕ → ℕ
target x e reg = widest_register x e (if is_stack_op x reg then x.esp else reg)

-- From one state to another, used and modified registers stay so, what is modified is used if it
-- was, and the instruction is the same.
pub record Progress (g g' : Globals) : Type 0 where
  pub used_grows : (q : ℕ) → g.used_regs q ≡ true → g'.used_regs q ≡ true
  pub modified_grows : (q : ℕ) → g.modified_regs q ≡ true → g'.modified_regs q ≡ true
  pub tracked :
      ((q : ℕ) → g.modified_regs q ≡ true → g.used_regs q ≡ true)
      → (q : ℕ) → g'.modified_regs q ≡ true
      → g'.used_regs q ≡ true
  pub same_inst : g'.xedd ≡ g.xedd

pub same_tracking :
    {g g' : Globals}
    → g'.used_regs ≡ g.used_regs
    → g'.modified_regs ≡ g.modified_regs
    → g'.xedd ≡ g.xedd
    → Progress g g'
same_tracking u m i = record {
  used_grows = λ q h. rw u h;
  modified_grows = λ q h. rw m h;
  tracked = λ t. rw (u, m) t;
  same_inst = i;
}

abbrev with_mmx : {W : Type 0} → State W → State W
with_mmx s = record s { globals = record (s.globals) { uses_fpu = true; uses_mmx = true } }

module _ {W : Type 0} (x : Xed) (e : Executor W) where
  read_gpr_register_used :
      (reg : ℕ) (hint : RegRequestHint) (s : State W) (q : ℕ)
      → (read_gpr_register x e reg hint s).1.globals.used_regs q
        ≡ (if q == target x e reg then true else s.globals.used_regs q)
  unfolding read_gpr_register request_register ◌>>◌ modify reading done
  read_gpr_register_used reg hint s q = ground arith

  read_gpr_register_modified :
      (reg : ℕ) (hint : RegRequestHint) (s : State W) (q : ℕ)
      → (read_gpr_register x e reg hint s).1.globals.modified_regs q ≡ (
          if (is_stack_op x reg || is_write_back hint) && q == target x e reg
          then true
          else s.globals.modified_regs q)
  unfolding read_gpr_register request_register ◌>>◌ modify reading done
  read_gpr_register_modified reg hint s q = ground arith

  read_gpr_register_inst :
      (reg : ℕ) (hint : RegRequestHint) (s : State W)
      → (read_gpr_register x e reg hint s).1.globals.xedd ≡ s.globals.xedd
  unfolding read_gpr_register request_register ◌>>◌ modify reading done
  read_gpr_register_inst reg hint s = ground arith

  read_gpr_register-Progress :
      (reg : ℕ) (hint : RegRequestHint) (s : State W)
      → Progress s.globals (read_gpr_register x e reg hint s).1.globals
  read_gpr_register-Progress reg hint s = record {
    used_grows = λ q u. ground (arith, read_gpr_register_used reg hint s q);
    modified_grows = λ q m. ground (arith, read_gpr_register_modified reg hint s q);
    tracked = λ h q m.
        ground (
          arith,
          h q,
          read_gpr_register_used reg hint s q,
          read_gpr_register_modified reg hint s q,
        );
    same_inst = read_gpr_register_inst reg hint s;
  }

  read_class-Progress :
      (c : RegClass) (reg : ℕ) (hint : RegRequestHint) (s : State W)
      → Progress s.globals (read_class x e c reg hint s).1.globals
  unfolding modify ◌>>◌
  read_class-Progress x87 reg hint s = same_tracking refl refl refl
  read_class-Progress pseudox87 reg hint s = same_tracking refl refl refl
  read_class-Progress mmx reg hint s =
      let p = read_gpr_register-Progress reg hint (with_mmx s) in
      record {
        used_grows = p.used_grows;
        modified_grows = p.modified_grows;
        tracked = p.tracked;
        same_inst = p.same_inst;
      }
  read_class-Progress other_class reg hint s = read_gpr_register-Progress reg hint s

  pub read_register-Progress :
      (reg : ℕ) (hint : RegRequestHint) (s : State W)
      → Progress s.globals (read_register x e reg hint s).1.globals
  unfolding read_register done
  read_register-Progress reg hint s = elim (Bool-cases (reg == x.invalid)) [
    | inl y ↦ rw y (same_tracking refl refl refl)
    | inr n ↦ rw n (read_class-Progress (x.reg_class reg) reg hint s)
  ]

-- The registers that `ReadRegister` asks for: those of the x87 stack go by the FPU state.
abbrev pub is_requested_class : RegClass → Bool
is_requested_class x87 = false
is_requested_class pseudox87 = false
is_requested_class _ = true

abbrev pub is_requested : Xed → ℕ → Bool
is_requested x reg = not (reg == x.invalid) && is_requested_class (x.reg_class reg)

module _ {W : Type 0} (x : Xed) (e : Executor W) where
  -- After a request of class `c` the register is used, and modified if it is to be written back.
  abbrev pub IsRecorded : ℕ → RegRequestHint → State W → Type 0
  IsRecorded reg hint s =
      (s.globals.used_regs (target x e reg) ≡ true)
      × ((if is_write_back hint then s.globals.modified_regs (target x e reg) else true) ≡ true)

  read_gpr_register_records :
      (reg : ℕ) (hint : RegRequestHint) (s : State W)
      → IsRecorded reg hint (read_gpr_register x e reg hint s).1
  read_gpr_register_records reg hint s = ground (
    arith,
    read_gpr_register_used x e reg hint s (target x e reg),
    read_gpr_register_modified x e reg hint s (target x e reg),
  )

  read_class_records :
      (c : RegClass) (reg : ℕ) (hint : RegRequestHint) (s : State W)
      → is_requested_class c ≡ true
      → IsRecorded reg hint (read_class x e c reg hint s).1
  unfolding modify ◌>>◌
  read_class_records x87 reg hint s h = cc
  read_class_records pseudox87 reg hint s h = cc
  read_class_records mmx reg hint s h = read_gpr_register_records reg hint (with_mmx s)
  read_class_records other_class reg hint s h = read_gpr_register_records reg hint s

  -- A register that is asked for is used afterwards, whether or not the client has it, and it is
  -- modified if it is to be written back.
  pub read_register_records :
      (reg : ℕ) (hint : RegRequestHint) (s : State W)
      → is_requested x reg ≡ true
      → IsRecorded reg hint (read_register x e reg hint s).1
  unfolding read_register
  read_register_records reg hint s h = elim (Bool-cases (reg == x.invalid)) [
    | inl y ↦ absurd (ground arith)
    | inr n ↦ rw n (read_class_records (x.reg_class reg) reg hint s (ground arith))
  ]
