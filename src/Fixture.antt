-- ===== src/Fixture.antt =====
-- A small machine for the examples: XED's registers in another numbering, a client that answers
-- every request with fixed data and counts what is written to it, and an instruction to start from.
mod Instructions
pub mod Interpreter
pub mod Processor
pub mod Operation
pub use Instructions.{stack_operand, source_operand, changed_operand, inst, push_inst}
use microx.Base.{
  ℕ, ◌+◌, ◌-◌, ◌/◌, ◌%◌, ◌^◌, ◌||◌, refl, Bool, true, false, ◌&&◌, ◌==◌, leb, if◌then◌else◌, pos,
  List, [], ◌∷◌, none, some,
}
use microx.Xed.{
  Xed, Inst, Iform, Operand, OperandName, reg0, reg1, mem0, other_class, other_category, explicit,
}
use microx.Host.{Host, no_signal}
use microx.State.{Globals, Executor, State, Memory, MemRequestHint, read_executable}
use microx.Registers.{is_gpr8h}
use microx.Registers.Gpr.{HighBytes}
use microx.MemoryOps.{compute_address}
use microx.MemoryOps.Address.{IsDefault}

abbrev between : ℕ → ℕ → ℕ → Bool
between first last r = leb first r && leb r last

-- RAX, RCX, RDX, RBX, RSP, RBP, RSI, RDI are 10 to 17; their lower parts of 32, 16 and 8 bits follow
-- in the same order from 30, 50 and 70; AH, CH, DH and BH are 80 to 83.
abbrev enclosing_of : ℕ → ℕ
enclosing_of r =
    if between 80 83 r
    then r - 70
    else if between 70 77 r
    then r - 60
    else if between 50 57 r
    then r - 40
    else if between 30 37 r
    then r - 20
    else if r == 91
    then 90
    else if r == 93
    then 92
    else r

abbrev width_of : ℕ → ℕ
width_of r =
    if between 80 83 r
    then 8
    else if between 70 77 r
    then 8
    else if between 50 57 r
    then 16
    else if between 30 37 r
    then 32
    else if between 10 17 r
    then 64
    else if r == 90
    then 64
    else 0

abbrev pub xed : Xed
xed = record {
  reg_last = 160;
  invalid = 0;
  rax = 10;
  rcx = 11;
  rdx = 12;
  rbx = 13;
  rsp = 14;
  rbp = 15;
  rip = 90;
  eip = 91;
  eax = 30;
  ecx = 31;
  esp = 34;
  esi = 36;
  edi = 37;
  cx = 51;
  sp = 54;
  spl = 74;
  ds = 96;
  ss = 97;
  rflags = 92;
  eflags = 93;
  tsc = 94;
  tscaux = 95;
  stackpush = 98;
  stackpop = 99;
  zmm_first = 140;
  zmm_last = 155;
  ymm_first = 120;
  ymm_last = 135;
  xmm_first = 100;
  gpr8h_first = 80;
  gpr8h_last = 83;
  gpr8_first = 70;
  gpr16_first = 50;
  gpr32_first = 30;
  gpr64_first = 10;
  enclosing = enclosing_of;
  enclosing32 = λ r. r;
  width_bits64 = width_of;
  reg_class = λ r. other_class;
  reg_name = λ r. "R";
  set_immediate = λ inst v w. inst;
  mmx_reg = λ r. 0;
  decode = λ mode idata len. some push_inst;
  encode = λ inst width ops. some (0x90 ∷ []);
}

-- Only code can be read from this client's memory; it counts the writes.
abbrev is_code : MemRequestHint → Bool
is_code read_executable = true
is_code _ = false

abbrev pub client : Executor ℕ
client = record {
  addr_size = 64;
  has_avx = false;
  has_avx512 = false;
  compute_address = λ seg base index scale disp size hint w.
      (compute_address seg base index scale disp size hint, w);
  read_reg = λ name size hint val w. (true, 7, w);
  write_reg = λ name size val w. (true, w + 1);
  read_mem = λ addr size hint val w. (is_code hint, 0, w);
  write_mem = λ addr size val w. (true, w + 1);
  read_fpu = λ val w. (true, 0, w);
  write_fpu = λ val w. (true, w + 1);
}

abbrev pub host : Host
host = record {
  shift_out_of_range = λ n k. n / 2 ^ (k % 64);
  native_flags = 0;
  wild_write = λ place disp ops. ops;
  exec_area_address = 0x1000;
  memory_data_address = 0x2000;
  uninitialized_data = 0;
  execute_native = λ g. (no_signal, g);
  pass_fpu = λ g. g;
}

abbrev memory : Memory
memory = record {
  present = false;
  write_back = false;
  op_name = mem0;
  segment_reg = 0;
  base_reg = 0;
  index_reg = 0;
  base = 0;
  index = 0;
  scale = 0;
  displacement = 0;
  address = 0;
  size = 0;
  contents = 0x99;
  mem_op = none;
}

-- RCX is 3, RBX is 0x1234, RSP is 0x8000, and the other registers are 0x100.
abbrev values : ℕ → ℕ
values r = if r == 11 then 3 else if r == 13 then 0x1234 else if r == 14 then 0x8000 else 0x100

abbrev pub globals : Globals
globals = record {
  is_initialized = true;
  xedd = push_inst;
  operand_width = 64;
  used_regs = λ r. r == 11 || r == 13 || r == 90;
  modified_regs = λ r. r == 11;
  store_regs = λ r. r == 10 || r == 14;
  regs = values;
  stack_ptr_alias = 0;
  uses_fpu = false;
  uses_mmx = false;
  fpu = 0;
  write_back_flags = 0x41;
  memory0 = memory;
  memory1 = memory;
  exec_area = [];
}

abbrev pub state : State ℕ
state = record { globals = globals; env = 0 }

pub xed-HighBytes : HighBytes xed
unfolding is_gpr8h
xed-HighBytes r h = rw h refl

pub client-IsDefault : IsDefault client
client-IsDefault seg base index scale disp size hint w = refl
