-- ===== src/MemoryOps/Forms.antt =====
-- How the instruction forms change a memory operand's address: the labels of the switches of
-- `ReadMemory` and `GetBitOpByteOffset` (`microx/Executor.cpp`).
use microx.Xed.{Iform}

-- The bodies of the cases in `ReadMemory`.
pub data Adjustment : Type 0 where
  below_stack popped_base bit_operand no_adjustment : Adjustment

-- Where `GetBitOpByteOffset` takes the bit offset from.
pub data BitSource : Type 0 where
  from_immediate from_register no_source : BitSource

-- For the operand `gMemory[0]`.
unfoldable pub adjustment0 : Iform → Adjustment
adjustment0 Iform.call_near_relbrz = below_stack
adjustment0 Iform.call_near_relbrd = below_stack
adjustment0 Iform.call_near_gprv = below_stack
adjustment0 Iform.push_gprv_ffr6 = below_stack
adjustment0 Iform.push_gprv_50 = below_stack
adjustment0 Iform.push_immz = below_stack
adjustment0 Iform.push_immb = below_stack
adjustment0 Iform.pushf = below_stack
adjustment0 Iform.pushfd = below_stack
adjustment0 Iform.pushfq = below_stack
adjustment0 Iform.push_es = below_stack
adjustment0 Iform.push_cs = below_stack
adjustment0 Iform.push_ss = below_stack
adjustment0 Iform.push_ds = below_stack
adjustment0 Iform.push_fs = below_stack
adjustment0 Iform.push_gs = below_stack
adjustment0 Iform.pop_memv = popped_base
adjustment0 Iform.bt_memv_immb = bit_operand
adjustment0 Iform.bt_memv_gprv = bit_operand
adjustment0 Iform.bts_memv_immb = bit_operand
adjustment0 Iform.bts_memv_gprv = bit_operand
adjustment0 Iform.bts_lock_memv_immb = bit_operand
adjustment0 Iform.bts_lock_memv_gprv = bit_operand
adjustment0 Iform.btc_memv_immb = bit_operand
adjustment0 Iform.btc_memv_gprv = bit_operand
adjustment0 Iform.btc_lock_memv_immb = bit_operand
adjustment0 Iform.btc_lock_memv_gprv = bit_operand
adjustment0 Iform.btr_memv_immb = bit_operand
adjustment0 Iform.btr_memv_gprv = bit_operand
adjustment0 Iform.btr_lock_memv_immb = bit_operand
adjustment0 Iform.btr_lock_memv_gprv = bit_operand
adjustment0 _ = no_adjustment

-- For the operand `gMemory[1]`.
unfoldable pub adjustment1 : Iform → Adjustment
adjustment1 Iform.call_near_memv = below_stack
adjustment1 Iform.push_memv = below_stack
adjustment1 _ = no_adjustment

-- The two groups of `GetBitOpByteOffset`.
unfoldable pub bit_source : Iform → BitSource
bit_source Iform.bt_memv_immb = from_immediate
bit_source Iform.bts_memv_immb = from_immediate
bit_source Iform.bts_lock_memv_immb = from_immediate
bit_source Iform.btc_lock_memv_immb = from_immediate
bit_source Iform.btr_lock_memv_immb = from_immediate
bit_source Iform.bt_memv_gprv = from_register
bit_source Iform.bts_memv_gprv = from_register
bit_source Iform.bts_lock_memv_gprv = from_register
bit_source Iform.btc_memv_immb = from_register
bit_source Iform.btc_memv_gprv = from_register
bit_source Iform.btc_lock_memv_gprv = from_register
bit_source Iform.btr_memv_immb = from_register
bit_source Iform.btr_memv_gprv = from_register
bit_source Iform.btr_lock_memv_gprv = from_register
bit_source _ = no_source
