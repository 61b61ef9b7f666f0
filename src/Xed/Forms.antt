-- ===== src/Xed/Forms.antt =====
-- The instruction forms (`XED_IFORM_*`) that `microx/Executor.cpp` names. Any other form is `other`,
-- with XED's number for it: the code treats all of these alike.
use microx.Base.{ℕ}

pub data Iform : Type 0 where
  bt_memv_immb bts_memv_immb bts_lock_memv_immb btc_lock_memv_immb btr_lock_memv_immb : Iform
  bt_memv_gprv bts_memv_gprv bts_lock_memv_gprv btc_memv_immb btc_memv_gprv : Iform
  btc_lock_memv_gprv btr_memv_immb btr_memv_gprv btr_lock_memv_gprv call_near_relbrz : Iform
  call_near_relbrd call_near_gprv push_gprv_ffr6 push_gprv_50 push_immz push_immb pushf : Iform
  pushfd pushfq push_es push_cs push_ss push_ds push_fs push_gs pop_memv call_near_memv : Iform
  push_memv lea_gprv_agen jnle_relbrb jnle_relbrz jnle_relbrd jns_relbrb jns_relbrz : Iform
  jns_relbrd jl_relbrb jl_relbrz jl_relbrd jnp_relbrb jnp_relbrz jnp_relbrd jnz_relbrb : Iform
  jnz_relbrz jnz_relbrd jnb_relbrb jnb_relbrz jnb_relbrd jno_relbrb jno_relbrz jno_relbrd : Iform
  jnl_relbrb jnl_relbrz jnl_relbrd jnbe_relbrb jnbe_relbrz jnbe_relbrd jbe_relbrb jbe_relbrz : Iform
  jbe_relbrd jz_relbrb jz_relbrz jz_relbrd jp_relbrb jp_relbrz jp_relbrd js_relbrb js_relbrz : Iform
  js_relbrd jo_relbrb jo_relbrd jo_relbrz jb_relbrb jb_relbrz jb_relbrd jle_relbrb : Iform
  jle_relbrz jle_relbrd loopne_relbrb loope_relbrb loop_relbrb jcxz_relbrb jecxz_relbrb : Iform
  jrcxz_relbrb xbegin_relbrz xabort_immb xend jmp_memv jmp_gprv jmp_relbrz jmp_relbrd : Iform
  jmp_relbrb ret_near ret_near_immw call_far_memp2 call_far_ptrp_immw jmp_far_memp2 : Iform
  jmp_far_ptrp_immw ret_far_immw ret_far repe_scasw repe_scasq repe_scasd repe_scasb : Iform
  rep_lodsq rep_lodsw rep_lodsb rep_lodsd repne_cmpsw repne_cmpsq repne_cmpsb repne_cmpsd : Iform
  rep_stosd rep_stosb rep_stosw rep_stosq repne_scasb repne_scasd repne_scasq repne_scasw : Iform
  rep_movsq rep_movsd rep_movsb rep_movsw repe_cmpsq repe_cmpsd repe_cmpsb repe_cmpsw stosd : Iform
  stosb stosw stosq scasw scasq scasd scasb lodsb lodsq lodsw lodsd movsd movsb movsw movsq : Iform
  cmpsq cmpsw cmpsb cmpsd pop_gprv_8f pop_gprv_58 leave pop_es pop_ss pop_ds pop_fs pop_gs : Iform
  mov_memw_seg mov_gprv_seg mov_seg_memw mov_seg_gpr16 popf popfd popfq pusha pushad popa : Iform
  popad enter_immw_immb xlat rdtscp rdtsc : Iform
  other : ℕ → Iform
