-- ===== src/State.antt =====
-- The state of the executor (`microx/Executor.cpp`, the globals `g…`; `microx/include/microx/Executor.h`,
-- the enumerations and the class `Executor`) and the actions on it.
--
-- A `Data` of 64 bytes is the number that its bytes spell, lowest byte first: a cast of its address
-- to `uint32_t *` reads the low 32 bits. A bitset over registers is a function to `Bool`.
mod Enums
pub mod Keeps
pub mod Serves
pub mod Lives
pub use Enums.*
use microx.Base.{ℕ, ◌<◌, ◌^◌, Bool, true, false, List, Option, String, if◌then◌else◌, ◌==◌}
use microx.Xed.{Inst, OperandName}

-- `struct Memory`. `mem_op` points into the operands of `gEmu`: it is the operand's index.
pub record Memory : Type 0 where
  pub present : Bool
  pub write_back : Bool
  pub op_name : OperandName
  pub segment_reg : ℕ
  pub base_reg : ℕ
  pub index_reg : ℕ
  pub base : ℕ
  pub index : ℕ
  pub scale : ℕ
  pub displacement : ℕ
  pub address : ℕ
  pub size : ℕ
  pub contents : ℕ
  pub mem_op : Option ℕ

pub record Globals : Type 0 where
  pub is_initialized : Bool
  pub xedd : Inst
  pub operand_width : ℕ
  pub used_regs : ℕ → Bool
  pub modified_regs : ℕ → Bool
  pub store_regs : ℕ → Bool
  pub regs : ℕ → ℕ
  pub stack_ptr_alias : ℕ
  pub uses_fpu : Bool
  pub uses_mmx : Bool
  pub fpu : ℕ
  pub write_back_flags : ℕ
  pub memory0 : Memory
  pub memory1 : Memory
  pub exec_area : List ℕ

-- `bitset::set` and an assignment to an array's element.
abbrev pub update {ℓ} : {A : Type ℓ} → (ℕ → A) → ℕ → A → ℕ → A
update f k v q = if q == k then v else f q

-- The virtual methods of `Executor`, over the client's own state `W`. A reading method may write
-- to its `Data &val` whether it succeeds or fails.
pub record Executor (W : Type 0) : Type 0 where
  pub addr_size : ℕ
  pub has_avx : Bool
  pub has_avx512 : Bool
  pub compute_address : String → ℕ → ℕ → ℕ → ℕ → ℕ → MemRequestHint → W → ℕ × W
  pub read_reg : String → ℕ → RegRequestHint → ℕ → W → Bool × ℕ × W
  pub write_reg : String → ℕ → ℕ → W → Bool × W
  pub read_mem : ℕ → ℕ → MemRequestHint → ℕ → W → Bool × ℕ × W
  pub write_mem : ℕ → ℕ → ℕ → W → Bool × W
  pub read_fpu : ℕ → W → Bool × ℕ × W
  pub write_fpu : ℕ → W → Bool × W

pub record State (W : Type 0) : Type 0 where
  pub globals : Globals
  pub env : W

-- A function that returns `bool` and changes the state.
abbrev pub Act : Type 0 → Type 0
Act W = State W → Bool × State W

module _ {W : Type 0} where
  unfoldable pub done : Act W
  done s = (true, s)

  -- `if (!m) return false;` and then `k`.
  infixl 5 ◌>>◌
  unfoldable pub ◌>>◌ : Act W → Act W → Act W
  ◌>>◌ m k s = let (passed, s') = m s in if passed then k s' else (false, s')

  unfoldable pub modify : (Globals → Globals) → Act W
  modify f s = (true, record s { globals = f s.globals })

  unfoldable pub reading : (Globals → Act W) → Act W
  reading f s = f s.globals s
