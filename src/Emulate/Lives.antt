-- ===== src/Emulate/Lives.antt =====
-- `Emulate` (`microx/Executor.cpp`), and the register that stays in use.
use microx.Base.{ℕ, ◌≡◌, refl, ap, ◌∙◌, Bool, ◌==◌, Bool-cases, inl, inr}
use microx.Xed.{Xed, Iform}
use microx.Host.{Host}
use microx.State.{Globals, Executor}
use microx.State.Lives.{IsLive}
use microx.Registers.Lives.{write_gpr_initialized, write_gpr_in_use}
use microx.Emulate.Machine.{Emulated, handled, rejected, native, Locals, locals}
use microx.Emulate.Branch.{
  loop_if, jcxz, xbegin, jmp_mem, jmp_gpr, call_rel, call_mem, call_gpr, ret, ret_imm,
}
use microx.Emulate.Strings.{stos, lods, movs, scas, cmps, compare_flags, rep_if, once}
use microx.Emulate.Stack.{
  lea, push_mem, push_gpr, push_imm, pop_mem, pop_gpr, leave, push_seg, pop_seg, store_reg,
  move_reg, load_reg, pushf, popf, rdtsc, rdtscp,
}
use microx.Emulate.Dispatch.{emulate_form, emulate}

-- The globals after an outcome.
abbrev pub globals_after : Emulated → Globals → Globals
globals_after (handled g next_pc) before = g
globals_after (rejected status) before = before
globals_after (native next_pc) before = before

-- What stays the same: whether the executor is initialized, and the registers in use.
abbrev core : Globals → Bool × (ℕ → Bool)
core g = (g.is_initialized, g.used_regs)

ruleset write_rules = (write_gpr_initialized, write_gpr_in_use)

module _ (x : Xed) (h : Host) where
  stos-core : (l : Locals) (g : Globals) → core (stos x l g) ≡ core g
  unfolding stos
  stos-core l g = simp write_rules

  lods-core : (l : Locals) (g : Globals) → core (lods x l g) ≡ core g
  unfolding lods
  lods-core l g = simp write_rules

  movs-core : (l : Locals) (g : Globals) → core (movs x l g) ≡ core g
  unfolding movs
  movs-core l g = simp write_rules

  scas-core : (l : Locals) (g : Globals) → core (scas x h l g) ≡ core g
  unfolding scas compare_flags
  scas-core l g = simp write_rules

  cmps-core : (l : Locals) (g : Globals) → core (cmps x h l g) ≡ core g
  unfolding cmps compare_flags
  cmps-core l g = simp write_rules

  rep_if-core :
      (again : Globals → Bool) (body : Locals → Globals → Globals) (l : Locals) (g : Globals)
      → core (body l g) ≡ core g
      → core (globals_after (rep_if x again body l g) g) ≡ core g
  unfolding rep_if
  rep_if-core again body l g same = elim (Bool-cases (l.count == 0)) [
    | inl y ↦ rw y refl
    | inr n ↦ rw n (simp write_rules same)
  ]

  emulate_form-core :
      (form : Iform) (l : Locals) (g : Globals)
      → core (globals_after (emulate_form x h form l g) g) ≡ core g
  unfolding emulate_form loop_if jcxz xbegin jmp_mem jmp_gpr call_rel call_mem call_gpr ret ret_imm
      once lea push_mem push_gpr push_imm pop_mem pop_gpr leave push_seg pop_seg store_reg move_reg
      load_reg pushf popf rdtsc rdtscp stos lods movs scas cmps compare_flags
  emulate_form-core Iform.repe_scasw l g = rep_if-core _ _ l g (scas-core l g)
  emulate_form-core Iform.repe_scasq l g = rep_if-core _ _ l g (scas-core l g)
  emulate_form-core Iform.repe_scasd l g = rep_if-core _ _ l g (scas-core l g)
  emulate_form-core Iform.repe_scasb l g = rep_if-core _ _ l g (scas-core l g)
  emulate_form-core Iform.rep_lodsq l g = rep_if-core _ _ l g (lods-core l g)
  emulate_form-core Iform.rep_lodsw l g = rep_if-core _ _ l g (lods-core l g)
  emulate_form-core Iform.rep_lodsb l g = rep_if-core _ _ l g (lods-core l g)
  emulate_form-core Iform.rep_lodsd l g = rep_if-core _ _ l g (lods-core l g)
  emulate_form-core Iform.repne_cmpsw l g = rep_if-core _ _ l g (cmps-core l g)
  emulate_form-core Iform.repne_cmpsq l g = rep_if-core _ _ l g (cmps-core l g)
  emulate_form-core Iform.repne_cmpsb l g = rep_if-core _ _ l g (cmps-core l g)
  emulate_form-core Iform.repne_cmpsd l g = rep_if-core _ _ l g (cmps-core l g)
  emulate_form-core Iform.rep_stosd l g = rep_if-core _ _ l g (stos-core l g)
  emulate_form-core Iform.rep_stosb l g = rep_if-core _ _ l g (stos-core l g)
  emulate_form-core Iform.rep_stosw l g = rep_if-core _ _ l g (stos-core l g)
  emulate_form-core Iform.rep_stosq l g = rep_if-core _ _ l g (stos-core l g)
  emulate_form-core Iform.repne_scasb l g = rep_if-core _ _ l g (scas-core l g)
  emulate_form-core Iform.repne_scasd l g = rep_if-core _ _ l g (scas-core l g)
  emulate_form-core Iform.repne_scasq l g = rep_if-core _ _ l g (scas-core l g)
  emulate_form-core Iform.repne_scasw l g = rep_if-core _ _ l g (scas-core l g)
  emulate_form-core Iform.rep_movsq l g = rep_if-core _ _ l g (movs-core l g)
  emulate_form-core Iform.rep_movsd l g = rep_if-core _ _ l g (movs-core l g)
  emulate_form-core Iform.rep_movsb l g = rep_if-core _ _ l g (movs-core l g)
  emulate_form-core Iform.rep_movsw l g = rep_if-core _ _ l g (movs-core l g)
  emulate_form-core Iform.repe_cmpsq l g = rep_if-core _ _ l g (cmps-core l g)
  emulate_form-core Iform.repe_cmpsd l g = rep_if-core _ _ l g (cmps-core l g)
  emulate_form-core Iform.repe_cmpsb l g = rep_if-core _ _ l g (cmps-core l g)
  emulate_form-core Iform.repe_cmpsw l g = rep_if-core _ _ l g (cmps-core l g)
  emulate_form-core _ l g = search write_rules

  -- `Emulate` stays among the live states.
  pub emulate-IsLive :
      {W : Type 0} (e : Executor W) (pc next_pc : ℕ) (g : Globals)
      → IsLive pc g
      → IsLive pc (globals_after (emulate x h e next_pc g) g)
  unfolding emulate
  emulate-IsLive e pc next_pc g i =
      let same = emulate_form-core g.xedd.iform (locals x e next_pc g) g in
      record {
        initialized = ap (λ c. c.0) same ∙ i.initialized;
        in_use = ap (λ c. c.1 pc) same ∙ i.in_use;
      }
