-- ===== src/Execute/MmxTrip.antt =====
-- The MMX registers on their way into the FPU state and back (`CopyMMXStateToFPU`,
-- `CopyMMXStateFromFPU` of `microx/Executor.cpp`).
use microx.Base.{
  ℕ, zero, suc, ◌+◌, ◌-◌, ◌*◌, ◌/◌, ◌^◌, ◌<◌, ◌==◌, ==→eq, true, low_bits, store_bits, ◌≡◌, refl,
  sym, ◌∙◌, ap, arith, Bool-cases, inl, inr,
}
use microx.Base.Fields.{field-stored, field-stored_above}
use native.Mathlib.Decide.{dec_lt}
use native.Mathlib.Nat.{div-add-mod', mod-mod}
use microx.Xed.{Xed}
use microx.State.{Globals, update}
use microx.Execute.Mmx.{
  field_at, store_at, st_offset, copy_mmx_to_fpu, copy_mmx_from_fpu, for_below,
  copy_mmx_state_to_fpu, copy_mmx_state_from_fpu,
}

-- A store of what is there already.
update_same :
    (f f' : ℕ → ℕ) (k v : ℕ) → ((r : ℕ) → f r ≡ f' r) → v ≡ f' k → (r : ℕ) → update f k v r ≡ f' r
update_same f f' k v same value r = elim (Bool-cases (r == k)) [
  | inl e ↦ rw e (value ∙ ap f' (sym (==→eq r k e)))
  | inr e ↦ rw e (same r)
]

stored_back : (v d d' : ℕ) → d ≡ d' → v ≡ low_bits 64 d' → store_bits 64 v d ≡ d'
stored_back v d d' same value =
    rw (same, value)
      (ap (λ m. d' / 2 ^ 64 * 2 ^ 64 + m) (mod-mod d' (2 ^ 64)) ∙ div-add-mod' d' (2 ^ 64))

module _ (x : Xed) where
  to_fpu_one-regs : (n : ℕ) → (g : Globals) → (copy_mmx_to_fpu x n g).regs ≡ g.regs
  unfolding copy_mmx_to_fpu
  to_fpu_one-regs n g = ground arith

  to_fpu_one-used : (n : ℕ) → (g : Globals) → (copy_mmx_to_fpu x n g).used_regs ≡ g.used_regs
  unfolding copy_mmx_to_fpu
  to_fpu_one-used n g = ground arith

  to_fpu-regs : (n : ℕ) → (g : Globals) → (for_below n (copy_mmx_to_fpu x) g).regs ≡ g.regs
  unfolding for_below
  to_fpu-regs zero g = refl
  to_fpu-regs (suc n) g = to_fpu_one-regs n _ ∙ to_fpu-regs n g

  to_fpu-used :
      (n : ℕ) → (g : Globals) → (for_below n (copy_mmx_to_fpu x) g).used_regs ≡ g.used_regs
  unfolding for_below
  to_fpu-used zero g = refl
  to_fpu-used (suc n) g = to_fpu_one-used n _ ∙ to_fpu-used n g

  slot_of_other :
      (j n v w d : ℕ)
      → j < n
      → field_at 64 (st_offset j) (store_at 16 (st_offset n + 64) w (store_at 64 (st_offset n) v d))
        ≡ field_at 64 (st_offset j) d
  slot_of_other j n v w d below =
      field-stored_above 64 (st_offset j) 16 (st_offset n + 64) (128 * (n - j)) w _ (omega arith)
      ∙ field-stored_above 64 (st_offset j) 64 (st_offset n) (128 * (n - j) - 64) v d (omega arith)

  slot_of_own :
      (n v w d : ℕ)
      → field_at 64 (st_offset n) (store_at 16 (st_offset n + 64) w (store_at 64 (st_offset n) v d))
        ≡ low_bits 64 v
  slot_of_own n v w d =
      field-stored_above 64 (st_offset n) 16 (st_offset n + 64) 0 w _ (omega arith)
      ∙ field-stored 64 (st_offset n) v d

  -- The slot of a register that is in use holds the register's low 64 bits.
  to_fpu-slot :
      (n j : ℕ) (g : Globals)
      → j < n
      → g.used_regs (x.mmx_reg j) ≡ true
      → field_at 64 (st_offset j) (for_below n (copy_mmx_to_fpu x) g).fpu
        ≡ low_bits 64 (g.regs (x.mmx_reg j))
  unfolding for_below copy_mmx_to_fpu
  to_fpu-slot zero j g below used = absurd (omega arith)
  to_fpu-slot (suc n) j g below used =
      let before = for_below n (copy_mmx_to_fpu x) g in
      let marks = ap (λ f. f (x.mmx_reg n)) (to_fpu-used n g) in
      let values = ap (λ f. f (x.mmx_reg n)) (to_fpu-regs n g) in
      elim (dec_lt j n) [
        | yes q ↦ elim (Bool-cases (before.used_regs (x.mmx_reg n))) [
          | inl u ↦ rw u (slot_of_other j n _ 0xffff _ q ∙ to_fpu-slot n j g q used)
          | inr u ↦ rw u (to_fpu-slot n j g q used)
        ]
        | no q ↦
            let last : j ≡ n = omega arith in
            let u : before.used_regs (x.mmx_reg n) ≡ true = marks ∙ rw (sym last) used in
            rw (last, u) (slot_of_own n _ 0xffff _ ∙ ap (low_bits 64) values)
      ]

  -- What a copy from the FPU state leaves as it is.
  record SameRegs (g g' : Globals) : Type 0 where
    same_regs : (r : ℕ) → g'.regs r ≡ g.regs r
    same_used : g'.used_regs ≡ g.used_regs
    same_fpu : g'.fpu ≡ g.fpu

  from_fpu_one-SameRegs :
      (n : ℕ) (g g' : Globals)
      → SameRegs g g'
      → (g.used_regs (x.mmx_reg n) ≡ true
          → field_at 64 (st_offset n) g.fpu ≡ low_bits 64 (g.regs (x.mmx_reg n)))
      → SameRegs g (copy_mmx_from_fpu x n g')
  unfolding copy_mmx_from_fpu
  from_fpu_one-SameRegs n g g' before slot =
      let marks = ap (λ f. f (x.mmx_reg n)) before.same_used in
      elim (Bool-cases (g.used_regs (x.mmx_reg n))) [
        | inl u ↦
            rw (marks, u)
              (record {
                same_regs = update_same g'.regs g.regs (x.mmx_reg n) _ before.same_regs (
                    stored_back _ _ (g.regs (x.mmx_reg n)) (before.same_regs (x.mmx_reg n))
                      (ap (field_at 64 (st_offset n)) before.same_fpu ∙ slot u));
                same_used = before.same_used;
                same_fpu = before.same_fpu;
              })
        | inr u ↦ rw (marks, u) before
      ]

  from_fpu-SameRegs :
      (n : ℕ) (g : Globals)
      → ((j : ℕ)
          → j < n
          → g.used_regs (x.mmx_reg j) ≡ true
          → field_at 64 (st_offset j) g.fpu ≡ low_bits 64 (g.regs (x.mmx_reg j)))
      → SameRegs g (for_below n (copy_mmx_from_fpu x) g)
  unfolding for_below
  from_fpu-SameRegs zero g slots = record {
    same_regs = λ r. refl;
    same_used = refl;
    same_fpu = refl;
  }
  from_fpu-SameRegs (suc n) g slots =
      from_fpu_one-SameRegs n g _ (from_fpu-SameRegs n g (λ j below. slots j (omega arith)))
        (slots n (omega arith))

-- The copy of the MMX registers into the FPU state and the copy back leave every register as it was,
-- whichever MMX registers are in use.
pub mmx_state-trip :
    (x : Xed) (g : Globals) (r : ℕ)
    → (copy_mmx_state_from_fpu x (copy_mmx_state_to_fpu x g)).regs r ≡ g.regs r
unfolding copy_mmx_state_from_fpu copy_mmx_state_to_fpu
mmx_state-trip x g r =
    let copied = for_below 8 (copy_mmx_to_fpu x) g in
    let regs = to_fpu-regs x 8 g in
    let back = from_fpu-SameRegs x 8 copied (λ j below used.
      to_fpu-slot x 8 j g below (sym (ap (λ f. f (x.mmx_reg j)) (to_fpu-used x 8 g)) ∙ used)
      ∙ sym (ap (λ f. low_bits 64 (f (x.mmx_reg j))) regs)) in
    back.same_regs r ∙ ap (λ f. f r) regs
