-- ===== src/Emulate/Outcomes.antt =====
-- How `Emulate` ends (`microx/Executor.cpp`).
use microx.Base.{ℕ, ◌≡◌, refl, Bool, true, false, ◌==◌, Bool-cases, inl, inr}
use microx.Xed.{Xed, Iform}
use microx.Host.{Host}
use microx.State.{Globals, Executor, ExecutorStatus, error_unsupported_cfi, error_unsupported_stack}
use microx.Emulate.Machine.{Emulated, handled, rejected, native, Locals}
use microx.Emulate.Branch.{
  loop_if, jcxz, xbegin, jmp_mem, jmp_gpr, call_rel, call_mem, call_gpr, ret, ret_imm,
}
use microx.Emulate.Strings.{rep_if, once}
use microx.Emulate.Stack.{
  lea, push_mem, push_gpr, push_imm, pop_mem, pop_gpr, leave, push_seg, pop_seg, store_reg,
  move_reg, load_reg, pushf, popf, rdtsc, rdtscp,
}
use microx.Emulate.Dispatch.{emulate_form, emulate}

-- The two statuses of instructions that are not supported.
abbrev pub is_unsupported : ExecutorStatus → Bool
is_unsupported error_unsupported_cfi = true
is_unsupported error_unsupported_stack = true
is_unsupported _ = false

abbrev pub ends_well : Emulated → Bool
ends_well (handled g next_pc) = true
ends_well (native next_pc) = true
ends_well (rejected status) = is_unsupported status

module _ (x : Xed) (h : Host) where
  rep_if-ends :
      (again : Globals → Bool) (body : Locals → Globals → Globals) (l : Locals) (g : Globals)
      → ends_well (rep_if x again body l g) ≡ true
  unfolding rep_if
  rep_if-ends again body l g = elim (Bool-cases (l.count == 0)) [
    | inl y ↦ rw y refl
    | inr n ↦ rw n refl
  ]

  emulate_form-ends :
      (form : Iform) (l : Locals) (g : Globals) → ends_well (emulate_form x h form l g) ≡ true
  unfolding emulate_form loop_if jcxz xbegin jmp_mem jmp_gpr call_rel call_mem call_gpr ret ret_imm
      once lea push_mem push_gpr push_imm pop_mem pop_gpr leave push_seg pop_seg store_reg move_reg
      load_reg pushf popf rdtsc rdtscp
  emulate_form-ends Iform.repe_scasw l g = rep_if-ends _ _ l g
  emulate_form-ends Iform.repe_scasq l g = rep_if-ends _ _ l g
  emulate_form-ends Iform.repe_scasd l g = rep_if-ends _ _ l g
  emulate_form-ends Iform.repe_scasb l g = rep_if-ends _ _ l g
  emulate_form-ends Iform.rep_lodsq l g = rep_if-ends _ _ l g
  emulate_form-ends Iform.rep_lodsw l g = rep_if-ends _ _ l g
  emulate_form-ends Iform.rep_lodsb l g = rep_if-ends _ _ l g
  emulate_form-ends Iform.rep_lodsd l g = rep_if-ends _ _ l g
  emulate_form-ends Iform.repne_cmpsw l g = rep_if-ends _ _ l g
  emulate_form-ends Iform.repne_cmpsq l g = rep_if-ends _ _ l g
  emulate_form-ends Iform.repne_cmpsb l g = rep_if-ends _ _ l g
  emulate_form-ends Iform.repne_cmpsd l g = rep_if-ends _ _ l g
  emulate_form-ends Iform.rep_stosd l g = rep_if-ends _ _ l g
  emulate_form-ends Iform.rep_stosb l g = rep_if-ends _ _ l g
  emulate_form-ends Iform.rep_stosw l g = rep_if-ends _ _ l g
  emulate_form-ends Iform.rep_stosq l g = rep_if-ends _ _ l g
  emulate_form-ends Iform.repne_scasb l g = rep_if-ends _ _ l g
  emulate_form-ends Iform.repne_scasd l g = rep_if-ends _ _ l g
  emulate_form-ends Iform.repne_scasq l g = rep_if-ends _ _ l g
  emulate_form-ends Iform.repne_scasw l g = rep_if-ends _ _ l g
  emulate_form-ends Iform.rep_movsq l g = rep_if-ends _ _ l g
  emulate_form-ends Iform.rep_movsd l g = rep_if-ends _ _ l g
  emulate_form-ends Iform.rep_movsb l g = rep_if-ends _ _ l g
  emulate_form-ends Iform.rep_movsw l g = rep_if-ends _ _ l g
  emulate_form-ends Iform.repe_cmpsq l g = rep_if-ends _ _ l g
  emulate_form-ends Iform.repe_cmpsd l g = rep_if-ends _ _ l g
  emulate_form-ends Iform.repe_cmpsb l g = rep_if-ends _ _ l g
  emulate_form-ends Iform.repe_cmpsw l g = rep_if-ends _ _ l g
  emulate_form-ends _ l g = refl

  pub emulate-ends :
      {W : Type 0} (e : Executor W) (next_pc : ℕ) (g : Globals)
      → ends_well (emulate x h e next_pc g) ≡ true
  unfolding emulate
  emulate-ends e next_pc g = emulate_form-ends g.xedd.iform _ g
