-- ===== src/Execute/Support.antt =====
-- Which instructions are refused (`UsesUnsupportedAttributes`, `UsesUnsupportedFeatures` of
-- `microx/Executor.cpp`).
use microx.Base.{Bool, true, false, not, ◌||◌}
use microx.Xed.{
  Iform, Inst, Attribute, ring0, protected_mode, far_xfer, exception_br, x87_mmx_state_r,
  x87_mmx_state_w, x87_mmx_state_cw, xmm_state_r, xmm_state_w, xmm_state_cw, kmask, maskop,
  maskop_evex, mask_as_control, mask_variable_memop, Category, system, c3dnow, mpx, aes, rdrand,
  rdseed, segop, syscall, interrupt, sysret, xsave, xsaveopt, iostringop, rdwrfsgs, vtx, avx, avx2,
  avx2gather, avx512, avx512_4fmaps, avx512_4vnniw, avx512_bitalg, avx512_vbmi, nop, widenop,
}
use microx.State.{Executor}

unfoldable pub uses_unsupported_attributes : (Attribute → Bool) → Bool
uses_unsupported_attributes has =
    has ring0
    || has protected_mode
    || has far_xfer
    || has exception_br
    || has x87_mmx_state_r
    || has x87_mmx_state_w
    || has x87_mmx_state_cw
    || has xmm_state_r
    || has xmm_state_w
    || has xmm_state_cw
    || has exception_br
    || has kmask
    || has maskop
    || has maskop_evex
    || has mask_as_control
    || has mask_variable_memop

-- Of the system instructions only the reads of the time stamp are handled.
unfoldable pub is_time_stamp : Iform → Bool
is_time_stamp Iform.rdtsc = true
is_time_stamp Iform.rdtscp = true
is_time_stamp _ = false

unfoldable pub unsupported_category : Category → Bool → Bool → Inst → Bool
unfolding is_time_stamp uses_unsupported_attributes
unsupported_category system has_avx has_avx512 inst = not (is_time_stamp inst.iform)
unsupported_category c3dnow has_avx has_avx512 inst = true
unsupported_category mpx has_avx has_avx512 inst = true
unsupported_category aes has_avx has_avx512 inst = true
unsupported_category rdrand has_avx has_avx512 inst = true
unsupported_category rdseed has_avx has_avx512 inst = true
unsupported_category segop has_avx has_avx512 inst = true
unsupported_category syscall has_avx has_avx512 inst = true
unsupported_category interrupt has_avx has_avx512 inst = true
unsupported_category sysret has_avx has_avx512 inst = true
unsupported_category xsave has_avx has_avx512 inst = true
unsupported_category xsaveopt has_avx has_avx512 inst = true
unsupported_category iostringop has_avx has_avx512 inst = true
unsupported_category rdwrfsgs has_avx has_avx512 inst = true
unsupported_category vtx has_avx has_avx512 inst = true
unsupported_category avx has_avx has_avx512 inst =
    not has_avx || uses_unsupported_attributes inst.attribute
unsupported_category avx2 has_avx has_avx512 inst =
    not has_avx || uses_unsupported_attributes inst.attribute
unsupported_category avx2gather has_avx has_avx512 inst =
    not has_avx || uses_unsupported_attributes inst.attribute
unsupported_category avx512 has_avx has_avx512 inst =
    not has_avx512 || uses_unsupported_attributes inst.attribute
unsupported_category avx512_4fmaps has_avx has_avx512 inst =
    not has_avx512 || uses_unsupported_attributes inst.attribute
unsupported_category avx512_4vnniw has_avx has_avx512 inst =
    not has_avx512 || uses_unsupported_attributes inst.attribute
unsupported_category avx512_bitalg has_avx has_avx512 inst =
    not has_avx512 || uses_unsupported_attributes inst.attribute
unsupported_category avx512_vbmi has_avx has_avx512 inst =
    not has_avx512 || uses_unsupported_attributes inst.attribute
unsupported_category _ has_avx has_avx512 inst = uses_unsupported_attributes inst.attribute

unfoldable pub uses_unsupported_features : {W : Type 0} → Executor W → Inst → Bool
unfolding unsupported_category
uses_unsupported_features e inst = unsupported_category inst.category e.has_avx e.has_avx512 inst

-- `XED_CATEGORY_NOP` and `XED_CATEGORY_WIDENOP`.
unfoldable pub is_nop : Category → Bool
is_nop nop = true
is_nop widenop = true
is_nop _ = false
