-- ===== src/Host.antt =====
-- What the compiled program takes from the machine that it runs on: behaviour that C++ leaves
-- undefined, addresses, and native execution.
use microx.Base.{ℕ, ◌/◌, ◌^◌, ltb, if◌then◌else◌, List, Option}
use microx.Xed.{EncoderOperand}
use microx.State.{Globals}

-- How the native execution of one instruction ended.
pub data Signal : Type 0 where
  no_signal sigsegv sigbus sigfpe sigill other_signal : Signal

pub record Host : Type 0 where
  -- A shift by the width of the operand or more.
  pub shift_out_of_range : ℕ → ℕ → ℕ
  -- The flags that `pushfq` of `ReadFlags` reads.
  pub native_flags : ℕ
  -- A write of a displacement through a pointer that is null or left from an earlier instruction.
  pub wild_write : Option ℕ → ℕ → List EncoderOperand → List EncoderOperand
  -- The addresses of `gExecArea` and of the data of `gMemory[0]`.
  pub exec_area_address : ℕ
  pub memory_data_address : ℕ
  -- A local `Data` before it is written.
  pub uninitialized_data : ℕ
  -- `LoadFPU`, `ExecuteNative`, `StoreFPU`: the code in `gExecArea` on the register file, the data
  -- of `gMemory[0]` and the FPU state; and `LoadFPU` and `StoreFPU` alone. The signal is one that
  -- is raised behind the `sigsetjmp`; `LoadFPU`, which stands before it, raises none here.
  pub execute_native : Globals → Signal × Globals
  pub pass_fpu : Globals → Globals

-- `n >> k` of a `uint64_t`.
unfoldable pub shr64 : Host → ℕ → ℕ → ℕ
shr64 h n k = if ltb k 64 then n / 2 ^ k else h.shift_out_of_range n k
