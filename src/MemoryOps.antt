-- ===== src/MemoryOps.antt =====
-- Memory operands (`microx/Executor.cpp`): `GetBitOpByteOffset`, `ReadMemory`, `WriteMemory`, and
-- the address that `Executor::ComputeAddress` computes if a client does not override it.
pub mod Forms
pub mod Keeps
pub mod Lives
pub mod Address
pub mod Stored
pub mod BitOps
mod Tests
use microx.Base.{
  ℕ, ◌+◌, ◌-◌, ◌*◌, ◌/◌, ◌%◌, Bool, true, false, not, ◌&&◌, ◌||◌, ◌==◌, if◌then◌else◌, u16, u32,
  u64, add64, sub64, to_u64, List, [], ◌∷◌, String,
}
use microx.Xed.{Xed, Inst, Operand, OperandName, agen, mem0, mem1, reg0}
use microx.State.{
  Memory, Globals, Executor, State, Act, done, ◌>>◌, modify, reading, MemRequestHint, read_only,
  read_write, write_only, address_generation,
}
use microx.Registers.{read_gpr, write_gpr}
use microx.MemoryOps.Forms.{
  Adjustment, below_stack, popped_base, bit_operand, no_adjustment, BitSource, from_immediate,
  from_register, no_source, adjustment0, adjustment1, bit_source,
}

-- `Executor::ComputeAddress`.
unfoldable pub compute_address : String → ℕ → ℕ → ℕ → ℕ → ℕ → MemRequestHint → ℕ
compute_address seg_name base index scale displacement size hint =
    u64 (base + index * scale + displacement)

-- `gMemory[mem_index]`.
abbrev pub memory_at : ℕ → Globals → Memory
memory_at i g = if i == 0 then g.memory0 else g.memory1

abbrev pub set_memory_at : ℕ → Memory → Globals → Globals
set_memory_at i m g = if i == 0 then record g { memory0 = m } else record g { memory1 = m }

unfoldable pub is_agen : OperandName → Bool
is_agen agen = true
is_agen _ = false

-- The hint of `ReadMemory`.
unfoldable pub memory_hint : Operand → MemRequestHint
unfolding is_agen
memory_hint op =
    if is_agen op.name
    then address_generation
    else if (op.is_read || op.conditional_write) && op.written
    then read_write
    else if op.written
    then write_only
    else read_only

-- An address of a given width.
unfoldable pub mask_address : ℕ → ℕ → ℕ
mask_address width address =
    if width == 32 then u32 address else if width == 16 then u16 address else address

module _ (x : Xed) where
  -- The bit offset is replaced by its remainder, in the immediate or in the register.
  unfoldable pub bit_op_byte_offset : BitSource → Globals → ℕ × Globals
  bit_op_byte_offset from_immediate g =
      let bit_offset = g.xedd.unsigned_immediate in
      let xedd = x.set_immediate g.xedd (bit_offset % g.operand_width) g.xedd.immediate_width in
      (u64 (8 * (bit_offset / g.operand_width)), record g { xedd = xedd })
  bit_op_byte_offset from_register g =
      let r0 = g.xedd.get_reg reg0 in
      let bit_offset = read_gpr x r0 g in
      (u64 (8 * (bit_offset / g.operand_width)), write_gpr x r0 (bit_offset % g.operand_width) g)
  bit_op_byte_offset no_source g = (0, g)

  unfoldable pub get_bit_op_byte_offset : Globals → ℕ × Globals
  unfolding bit_op_byte_offset bit_source
  get_bit_op_byte_offset g = bit_op_byte_offset (bit_source g.xedd.iform) g

  -- The displacement after the adjustment, and the state.
  unfoldable pub adjust : Adjustment → ℕ → ℕ → Globals → ℕ × Globals
  unfolding get_bit_op_byte_offset
  adjust below_stack base_reg disp g = (sub64 disp (g.operand_width / 8), g)
  adjust popped_base base_reg disp g =
      ((if x.enclosing base_reg == x.rsp then add64 disp (g.operand_width / 8) else disp), g)
  adjust bit_operand base_reg disp g =
      let (offset, g') = get_bit_op_byte_offset g in (add64 disp offset, g')
  adjust no_adjustment base_reg disp g = (disp, g)

  -- The segment, if the instruction names none.
  unfoldable pub implicit_segment : ℕ → ℕ → ℕ
  implicit_segment seg_reg base_reg =
      if seg_reg == x.invalid
      then (if x.enclosing base_reg == x.rsp || x.enclosing base_reg == x.rbp then x.ss else x.ds)
      else seg_reg

  -- `mem.base`: relative to the next instruction, if the program counter is the base.
  unfoldable pub memory_base : Inst → ℕ → Globals → ℕ
  memory_base inst base_reg g =
      if base_reg == x.eip || base_reg == x.rip
      then add64 (read_gpr x base_reg g) inst.inst_length
      else read_gpr x base_reg g

  -- `gMemory[mem_index]` up to the call of `ComputeAddress`; address, size and data are old.
  unfoldable pub prepare_memory : Operand → ℕ → Globals → Globals
  unfolding adjust adjustment0 adjustment1 implicit_segment memory_base
  prepare_memory op i g =
      let inst = g.xedd in
      let base_reg = inst.base_reg i in
      let adjustment = if i == 0 then adjustment0 inst.iform else adjustment1 inst.iform in
      let (disp, g') = adjust adjustment base_reg (to_u64 (inst.memory_displacement i)) g in
      let m = record (memory_at i g) {
        present = true;
        write_back = op.written;
        op_name = op.name;
        segment_reg = implicit_segment (inst.seg_reg i) base_reg;
        base_reg = base_reg;
        index_reg = inst.index_reg i;
        base = memory_base inst base_reg g;
        index = read_gpr x (inst.index_reg i) g;
        scale = inst.scale i;
        displacement = disp;
      } in
      set_memory_at i m g'

module _ {W : Type 0} (x : Xed) (e : Executor W) where
  -- The call of `ComputeAddress` and of `ReadMem`.
  unfoldable pub fetch_memory : Operand → ℕ → Act W
  fetch_memory op i s =
      let g = s.globals in
      let m = memory_at i g in
      let hint = memory_hint op in
      let (computed, env) =
        e.compute_address (x.reg_name m.segment_reg) m.base m.index m.scale m.displacement m.size
          hint s.env in
      let address = mask_address (g.xedd.memop_address_width i) computed in
      let size = 8 * g.xedd.memory_operand_length i in
      let (passed, val, env') = e.read_mem address size hint 0 env in
      let fetched =
        λ (v : ℕ). set_memory_at i (record m { address = address; size = size; contents = v }) g in
      if is_agen op.name
      then (true, record s { globals = fetched 0; env = env })
      else (passed, record s { globals = fetched val; env = env' })

  unfoldable pub read_memory_operand : Operand → ℕ → Act W
  read_memory_operand op i = modify (prepare_memory x op i) >> fetch_memory op i

  abbrev pub read_memory_named : OperandName → Operand → Act W
  read_memory_named agen op = read_memory_operand op 0
  read_memory_named mem0 op = read_memory_operand op 0
  read_memory_named mem1 op = read_memory_operand op 1
  read_memory_named _ op = done

  unfoldable pub read_memory_operands : List Operand → Act W
  read_memory_operands [] = done
  read_memory_operands (op ∷ ops) = read_memory_named op.name op >> read_memory_operands ops

  abbrev clear_memory : Globals → Globals
  clear_memory g = record g {
    memory0 = record (g.memory0) { present = false };
    memory1 = record (g.memory1) { present = false };
  }

  unfoldable pub read_memory : Act W
  read_memory = modify clear_memory >> reading (λ g. read_memory_operands g.xedd.operands)

  unfoldable pub write_memory_operand : ℕ → Act W
  write_memory_operand i s =
      let m = memory_at i s.globals in
      let (passed, env) = e.write_mem m.address m.size m.contents s.env in
      if not m.present || not m.write_back then (true, s) else (passed, record s { env = env })

  unfoldable pub write_memory : Act W
  write_memory = write_memory_operand 0 >> write_memory_operand 1
