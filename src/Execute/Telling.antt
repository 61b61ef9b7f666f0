-- ===== src/Execute/Telling.antt =====
-- The last steps of `Execute` (`microx/Executor.cpp`), from states in which the program counter is in
-- use: the native execution and the write-back.
use microx.Base.{
  ℕ, zero, suc, ◌≡◌, refl, ap, ◌∙◌, Bool, true, false, Bool-cases, inl, inr, if◌then◌else◌, arith,
}
use microx.Xed.{Xed}
use microx.Host.{Host, sigill}
use microx.State.{
  Globals, Executor, State, error_write_flags, error_write_reg, error_write_mem, error_write_fpu,
}
use microx.State.Lives.{IsLive, IsLive-second, Lives}
use microx.MemoryOps.Lives.{write_memory-Lives}
use microx.Execute.Mmx.{
  copy_mmx_state_to_fpu, copy_mmx_state_from_fpu, copy_mmx_to_fpu, copy_mmx_from_fpu, for_below,
}
use microx.Execute.Lives.{write_flags-Lives}
use microx.Execute.LastWrite.{HasPc, pc_register}
use microx.Execute.Ends.{
  Told, GoodTold, Ends, Ends-or_return, Ends-on_globals, Ends-write_registers,
}
use microx.Execute.{Run, read_fpu, write_fpu, write_effects, finish, run_native, set_next_pc}

-- Native execution does not touch the bookkeeping of the executor: whether it is initialized, and
-- which registers are in use.
pub record KeepsBooks (h : Host) : Type 0 where
  pub run_initialized : (g : Globals) → (h.execute_native g).1.is_initialized ≡ g.is_initialized
  pub run_used : (g : Globals) → (h.execute_native g).1.used_regs ≡ g.used_regs
  pub pass_initialized : (g : Globals) → (h.pass_fpu g).is_initialized ≡ g.is_initialized
  pub pass_used : (g : Globals) → (h.pass_fpu g).used_regs ≡ g.used_regs

module _ (x : Xed) (pc : ℕ) where
  same_books :
      (g g' : Globals)
      → g'.is_initialized ≡ g.is_initialized
      → g'.used_regs ≡ g.used_regs
      → IsLive pc g
      → IsLive pc g'
  same_books g g' a b i = record {
    initialized = a ∙ i.initialized;
    in_use = ap (λ used. used pc) b ∙ i.in_use;
  }

  for_below-IsLive :
      (n : ℕ) (copy : ℕ → Globals → Globals) (g : Globals)
      → ((k : ℕ) (g' : Globals) → IsLive pc g' → IsLive pc (copy k g'))
      → IsLive pc g
      → IsLive pc (for_below n copy g)
  unfolding for_below
  for_below-IsLive zero copy g each i = i
  for_below-IsLive (suc n) copy g each i = each n _ (for_below-IsLive n copy g each i)

  pub to_fpu-IsLive : (g : Globals) → IsLive pc g → IsLive pc (copy_mmx_state_to_fpu x g)
  unfolding copy_mmx_state_to_fpu copy_mmx_to_fpu
  to_fpu-IsLive g =
      for_below-IsLive 8 _ g
        (λ k g' i. same_books g' (copy_mmx_to_fpu x k g') (ground arith) (ground arith) i)

  from_fpu-IsLive : (g : Globals) → IsLive pc g → IsLive pc (copy_mmx_state_from_fpu x g)
  unfolding copy_mmx_state_from_fpu copy_mmx_from_fpu
  from_fpu-IsLive g =
      for_below-IsLive 8 _ g
        (λ k g' i. same_books g' (copy_mmx_from_fpu x k g') (ground arith) (ground arith) i)

  pub if-IsLive :
      (b : Bool) (f : Globals → Globals) (g : Globals)
      → (IsLive pc g → IsLive pc (f g))
      → IsLive pc g
      → IsLive pc (if b then f g else g)
  if-IsLive true f g p i = p i
  if-IsLive false f g p i = i

module _ {W : Type 0} (x : Xed) (h : Host) (e : Executor W) (clear : W → W) (p : HasPc x e)
    (b : KeepsBooks h) where
  abbrev pc : ℕ
  pc = pc_register x e

  -- From states in which the client has been told, to such states.
  abbrev pub Tells : Run W → Type 0
  Tells k = (s : State W) → Told x e p s → GoodTold x e p (k s)

  pub finish-Ends : (next_pc : ℕ) (k : Run W) → Tells k → Ends x e p (finish x h e clear next_pc k)
  unfolding finish set_next_pc
  finish-Ends next_pc k next =
      Ends-or_return x e p error_write_flags refl (write_flags-Lives x e p.no_flags) (
        Ends-on_globals x e p (set_next_pc x next_pc)
          (λ g i. same_books x pc g (set_next_pc x next_pc g) refl refl i)
          (Ends-write_registers x e p error_write_reg k refl next))

  pub read_fpu-Lives : Lives pc (read_fpu x h e clear)
  unfolding read_fpu
  read_fpu-Lives = record {
    lives = λ s i. elim (Bool-cases s.globals.uses_fpu) [
      | inl y ↦ rw y (record { initialized = i.initialized; in_use = i.in_use })
      | inr n ↦ rw n (record { initialized = i.initialized; in_use = i.in_use })
    ];
  }

  write_fpu-Lives : Lives pc (write_fpu x h e clear)
  unfolding write_fpu
  write_fpu-Lives = record {
    lives = λ s i. elim (Bool-cases s.globals.uses_fpu) [
      | inl y ↦ rw y (record { initialized = i.initialized; in_use = i.in_use })
      | inr n ↦ rw n (record { initialized = i.initialized; in_use = i.in_use })
    ];
  }

  pub run_native-IsLive : (g : Globals) → IsLive pc g → IsLive pc (run_native x h e clear g).1
  unfolding run_native
  run_native-IsLive g i =
      let passed = same_books x pc g (h.pass_fpu g) (b.pass_initialized g) (b.pass_used g) i in
      let ran = same_books x pc g (h.execute_native g).1 (b.run_initialized g) (b.run_used g) i in
      IsLive-second e.has_avx512 (sigill, h.pass_fpu g) _ passed
        (IsLive-second e.has_avx (sigill, h.pass_fpu g) (h.execute_native g) passed ran)

  pub write_effects-Ends :
      (k : Run W)
      → Tells k
      → (next_pc : ℕ)
      → Ends x e p (write_effects x h e clear (λ pc'. finish x h e clear pc' k) next_pc)
  unfolding write_effects
  write_effects-Ends k next next_pc =
      Ends-or_return x e p error_write_mem refl (write_memory-Lives x e) (
        Ends-or_return x e p error_write_fpu refl write_fpu-Lives (
          Ends-on_globals x e p (λ g. if g.uses_mmx then copy_mmx_state_from_fpu x g else g)
            (λ g i.
              if-IsLive x pc g.uses_mmx (copy_mmx_state_from_fpu x) g (from_fpu-IsLive x pc g) i)
            (finish-Ends next_pc k next)))
