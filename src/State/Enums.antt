-- ===== src/State/Enums.antt =====
-- The enumerations of `microx/include/microx/Executor.h`.

pub data ExecutorStatus : Type 0 where
  good error_not_initialized error_decode : ExecutorStatus
  error_unsupported_features error_unsupported_cfi error_unsupported_stack : ExecutorStatus
  error_execute error_fault error_floating_point_exception : ExecutorStatus
  error_read_flags error_write_flags error_read_reg error_write_reg : ExecutorStatus
  error_read_mem error_read_inst_mem error_write_mem : ExecutorStatus
  error_read_fpu error_write_fpu : ExecutorStatus

pub data RegRequestHint : Type 0 where
  none general program_counter condition_code write_back : RegRequestHint
  memory_base_address memory_index_address memory_segment_address : RegRequestHint

pub data MemRequestHint : Type 0 where
  read_only read_executable write_only read_write address_generation : MemRequestHint
