-- ===== src/Emulate/Dispatch.antt =====
-- The switch of `Emulate` (`microx/Executor.cpp`): one clause for each label of it.
use microx.Base.{ℕ, true, not}
use microx.Xed.{Xed, Iform}
use microx.Host.{Host}
use microx.State.{Globals, Executor, error_unsupported_cfi, error_unsupported_stack}
use microx.Flags.{zf_bit}
use microx.Emulate.Machine.{Emulated, rejected, native, Locals, flag, locals}
use microx.Emulate.Branch.{
  branch_if, jnle, jns, jl, jnp, jnz, jnb, jno, jnl, jnbe, jbe, jz, jp, js, jo, jb, jle, loop_if,
  jcxz, xbegin, jmp_mem, jmp_gpr, call_rel, call_mem, call_gpr, ret, ret_imm,
}
use microx.Emulate.Strings.{stos, scas, lods, movs, cmps, rep, repe, repne, once}
use microx.Emulate.Stack.{
  lea, push_mem, push_gpr, push_imm, pop_mem, pop_gpr, leave, push_seg, pop_seg, store_reg,
  move_reg, load_reg, pushf, popf, rdtsc, rdtscp,
}

module _ (x : Xed) (h : Host) where
  unfoldable pub emulate_form : Iform → Locals → Globals → Emulated
  emulate_form Iform.lea_gprv_agen = lea x
  emulate_form Iform.jnle_relbrb = λ l g. branch_if (jnle x g) l g
  emulate_form Iform.jnle_relbrz = λ l g. branch_if (jnle x g) l g
  emulate_form Iform.jnle_relbrd = λ l g. branch_if (jnle x g) l g
  emulate_form Iform.jns_relbrb = λ l g. branch_if (jns x g) l g
  emulate_form Iform.jns_relbrz = λ l g. branch_if (jns x g) l g
  emulate_form Iform.jns_relbrd = λ l g. branch_if (jns x g) l g
  emulate_form Iform.jl_relbrb = λ l g. branch_if (jl x g) l g
  emulate_form Iform.jl_relbrz = λ l g. branch_if (jl x g) l g
  emulate_form Iform.jl_relbrd = λ l g. branch_if (jl x g) l g
  emulate_form Iform.jnp_relbrb = λ l g. branch_if (jnp x g) l g
  emulate_form Iform.jnp_relbrz = λ l g. branch_if (jnp x g) l g
  emulate_form Iform.jnp_relbrd = λ l g. branch_if (jnp x g) l g
  emulate_form Iform.jnz_relbrb = λ l g. branch_if (jnz x g) l g
  emulate_form Iform.jnz_relbrz = λ l g. branch_if (jnz x g) l g
  emulate_form Iform.jnz_relbrd = λ l g. branch_if (jnz x g) l g
  emulate_form Iform.jnb_relbrb = λ l g. branch_if (jnb x g) l g
  emulate_form Iform.jnb_relbrz = λ l g. branch_if (jnb x g) l g
  emulate_form Iform.jnb_relbrd = λ l g. branch_if (jnb x g) l g
  emulate_form Iform.jno_relbrb = λ l g. branch_if (jno x g) l g
  emulate_form Iform.jno_relbrz = λ l g. branch_if (jno x g) l g
  emulate_form Iform.jno_relbrd = λ l g. branch_if (jno x g) l g
  emulate_form Iform.jnl_relbrb = λ l g. branch_if (jnl x g) l g
  emulate_form Iform.jnl_relbrz = λ l g. branch_if (jnl x g) l g
  emulate_form Iform.jnl_relbrd = λ l g. branch_if (jnl x g) l g
  emulate_form Iform.jnbe_relbrb = λ l g. branch_if (jnbe x g) l g
  emulate_form Iform.jnbe_relbrz = λ l g. branch_if (jnbe x g) l g
  emulate_form Iform.jnbe_relbrd = λ l g. branch_if (jnbe x g) l g
  emulate_form Iform.jbe_relbrb = λ l g. branch_if (jbe x g) l g
  emulate_form Iform.jbe_relbrz = λ l g. branch_if (jbe x g) l g
  emulate_form Iform.jbe_relbrd = λ l g. branch_if (jbe x g) l g
  emulate_form Iform.jz_relbrb = λ l g. branch_if (jz x g) l g
  emulate_form Iform.jz_relbrz = λ l g. branch_if (jz x g) l g
  emulate_form Iform.jz_relbrd = λ l g. branch_if (jz x g) l g
  emulate_form Iform.jp_relbrb = λ l g. branch_if (jp x g) l g
  emulate_form Iform.jp_relbrz = λ l g. branch_if (jp x g) l g
  emulate_form Iform.jp_relbrd = λ l g. branch_if (jp x g) l g
  emulate_form Iform.js_relbrb = λ l g. branch_if (js x g) l g
  emulate_form Iform.js_relbrz = λ l g. branch_if (js x g) l g
  emulate_form Iform.js_relbrd = λ l g. branch_if (js x g) l g
  emulate_form Iform.jo_relbrb = λ l g. branch_if (jo x g) l g
  emulate_form Iform.jo_relbrd = λ l g. branch_if (jo x g) l g
  emulate_form Iform.jo_relbrz = λ l g. branch_if (jo x g) l g
  emulate_form Iform.jb_relbrb = λ l g. branch_if (jb x g) l g
  emulate_form Iform.jb_relbrz = λ l g. branch_if (jb x g) l g
  emulate_form Iform.jb_relbrd = λ l g. branch_if (jb x g) l g
  emulate_form Iform.jle_relbrb = λ l g. branch_if (jle x g) l g
  emulate_form Iform.jle_relbrz = λ l g. branch_if (jle x g) l g
  emulate_form Iform.jle_relbrd = λ l g. branch_if (jle x g) l g
  emulate_form Iform.loopne_relbrb = loop_if x (λ g. not (flag x zf_bit g))
  emulate_form Iform.loope_relbrb = loop_if x (flag x zf_bit)
  emulate_form Iform.loop_relbrb = loop_if x (λ _. true)
  emulate_form Iform.jcxz_relbrb = jcxz x x.cx
  emulate_form Iform.jecxz_relbrb = jcxz x x.ecx
  emulate_form Iform.jrcxz_relbrb = jcxz x x.rcx
  emulate_form Iform.xbegin_relbrz = xbegin x
  emulate_form Iform.xabort_immb = λ l g. rejected error_unsupported_cfi
  emulate_form Iform.xend = λ l g. rejected error_unsupported_cfi
  emulate_form Iform.jmp_memv = jmp_mem x
  emulate_form Iform.jmp_gprv = jmp_gpr x
  emulate_form Iform.jmp_relbrz = branch_if true
  emulate_form Iform.jmp_relbrd = branch_if true
  emulate_form Iform.jmp_relbrb = branch_if true
  emulate_form Iform.call_near_relbrz = call_rel x
  emulate_form Iform.call_near_relbrd = call_rel x
  emulate_form Iform.call_near_memv = call_mem x
  emulate_form Iform.call_near_gprv = call_gpr x
  emulate_form Iform.ret_near = ret x 0
  emulate_form Iform.ret_near_immw = ret_imm x
  emulate_form Iform.call_far_memp2 = λ l g. rejected error_unsupported_cfi
  emulate_form Iform.call_far_ptrp_immw = λ l g. rejected error_unsupported_cfi
  emulate_form Iform.jmp_far_memp2 = λ l g. rejected error_unsupported_cfi
  emulate_form Iform.jmp_far_ptrp_immw = λ l g. rejected error_unsupported_cfi
  emulate_form Iform.ret_far_immw = λ l g. rejected error_unsupported_cfi
  emulate_form Iform.ret_far = λ l g. rejected error_unsupported_cfi
  emulate_form Iform.repe_scasw = repe x (scas x h)
  emulate_form Iform.repe_scasq = repe x (scas x h)
  emulate_form Iform.repe_scasd = repe x (scas x h)
  emulate_form Iform.repe_scasb = repe x (scas x h)
  emulate_form Iform.rep_lodsq = rep x (lods x)
  emulate_form Iform.rep_lodsw = rep x (lods x)
  emulate_form Iform.rep_lodsb = rep x (lods x)
  emulate_form Iform.rep_lodsd = rep x (lods x)
  emulate_form Iform.repne_cmpsw = repne x (cmps x h)
  emulate_form Iform.repne_cmpsq = repne x (cmps x h)
  emulate_form Iform.repne_cmpsb = repne x (cmps x h)
  emulate_form Iform.repne_cmpsd = repne x (cmps x h)
  emulate_form Iform.rep_stosd = rep x (stos x)
  emulate_form Iform.rep_stosb = rep x (stos x)
  emulate_form Iform.rep_stosw = rep x (stos x)
  emulate_form Iform.rep_stosq = rep x (stos x)
  emulate_form Iform.repne_scasb = repne x (scas x h)
  emulate_form Iform.repne_scasd = repne x (scas x h)
  emulate_form Iform.repne_scasq = repne x (scas x h)
  emulate_form Iform.repne_scasw = repne x (scas x h)
  emulate_form Iform.rep_movsq = rep x (movs x)
  emulate_form Iform.rep_movsd = rep x (movs x)
  emulate_form Iform.rep_movsb = rep x (movs x)
  emulate_form Iform.rep_movsw = rep x (movs x)
  emulate_form Iform.repe_cmpsq = repe x (cmps x h)
  emulate_form Iform.repe_cmpsd = repe x (cmps x h)
  emulate_form Iform.repe_cmpsb = repe x (cmps x h)
  emulate_form Iform.repe_cmpsw = repe x (cmps x h)
  emulate_form Iform.stosd = once x (stos x)
  emulate_form Iform.stosb = once x (stos x)
  emulate_form Iform.stosw = once x (stos x)
  emulate_form Iform.stosq = once x (stos x)
  emulate_form Iform.scasw = once x (scas x h)
  emulate_form Iform.scasq = once x (scas x h)
  emulate_form Iform.scasd = once x (scas x h)
  emulate_form Iform.scasb = once x (scas x h)
  emulate_form Iform.lodsb = once x (lods x)
  emulate_form Iform.lodsq = once x (lods x)
  emulate_form Iform.lodsw = once x (lods x)
  emulate_form Iform.lodsd = once x (lods x)
  emulate_form Iform.movsd = once x (movs x)
  emulate_form Iform.movsb = once x (movs x)
  emulate_form Iform.movsw = once x (movs x)
  emulate_form Iform.movsq = once x (movs x)
  emulate_form Iform.cmpsq = once x (cmps x h)
  emulate_form Iform.cmpsw = once x (cmps x h)
  emulate_form Iform.cmpsb = once x (cmps x h)
  emulate_form Iform.cmpsd = once x (cmps x h)
  emulate_form Iform.push_memv = push_mem x
  emulate_form Iform.push_gprv_ffr6 = push_gpr x
  emulate_form Iform.push_gprv_50 = push_gpr x
  emulate_form Iform.push_immz = push_imm x
  emulate_form Iform.push_immb = push_imm x
  emulate_form Iform.pop_memv = pop_mem x
  emulate_form Iform.pop_gprv_8f = pop_gpr x
  emulate_form Iform.pop_gprv_58 = pop_gpr x
  emulate_form Iform.leave = leave x
  emulate_form Iform.push_es = push_seg x
  emulate_form Iform.push_cs = push_seg x
  emulate_form Iform.push_ss = push_seg x
  emulate_form Iform.push_ds = push_seg x
  emulate_form Iform.push_fs = push_seg x
  emulate_form Iform.push_gs = push_seg x
  emulate_form Iform.pop_es = pop_seg x
  emulate_form Iform.pop_ss = pop_seg x
  emulate_form Iform.pop_ds = pop_seg x
  emulate_form Iform.pop_fs = pop_seg x
  emulate_form Iform.pop_gs = pop_seg x
  emulate_form Iform.mov_memw_seg = store_reg x
  emulate_form Iform.mov_gprv_seg = move_reg x
  emulate_form Iform.mov_seg_memw = load_reg x
  emulate_form Iform.mov_seg_gpr16 = move_reg x
  emulate_form Iform.pushf = pushf x
  emulate_form Iform.pushfd = pushf x
  emulate_form Iform.pushfq = pushf x
  emulate_form Iform.popf = popf x
  emulate_form Iform.popfd = popf x
  emulate_form Iform.popfq = popf x
  emulate_form Iform.pusha = λ l g. rejected error_unsupported_stack
  emulate_form Iform.pushad = λ l g. rejected error_unsupported_stack
  emulate_form Iform.popa = λ l g. rejected error_unsupported_stack
  emulate_form Iform.popad = λ l g. rejected error_unsupported_stack
  emulate_form Iform.enter_immw_immb = λ l g. rejected error_unsupported_stack
  emulate_form Iform.xlat = load_reg x
  emulate_form Iform.rdtscp = rdtscp x
  emulate_form Iform.rdtsc = rdtsc x
  emulate_form _ = λ l g. native l.next_pc

-- The whole function, from the `next_pc` that is passed in.
unfoldable pub emulate : {W : Type 0} → Xed → Host → Executor W → ℕ → Globals → Emulated
emulate x h e next_pc g = emulate_form x h g.xedd.iform (locals x e next_pc g) g
