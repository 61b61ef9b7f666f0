-- ===== src/Registers.antt =====
-- The register file of `microx/Executor.cpp`: which register stands for an operand
-- (`WidestRegister`), reading registers from the client (`ReadRegister`), the values of
-- general-purpose registers (`ReadGPR`, `WriteGPR`) and the write-back (`WriteRegisters`).
pub mod Gpr
pub mod Request
pub mod Lives
pub mod Tracking
pub mod WriteBack
pub mod Widest
mod Tests
use microx.Base.{
  ℕ, zero, suc, ◌+◌, ◌-◌, ◌*◌, ◌/◌, ◌%◌, ◌^◌, Bool, true, false, ◌&&◌, ◌||◌, not, ◌==◌, leb,
  if◌then◌else◌, u8, u16, u32, low_bits, store_bits, bit_and, bit_or, List, [], ◌∷◌,
}
use microx.Xed.{Xed, RegClass, x87, pseudox87, mmx, other_class}
use microx.State.{
  Globals, Executor, State, Act, done, ◌>>◌, modify, reading, update, RegRequestHint, write_back,
}

-- What `WriteGPR` stores for AH, BH, CH and DH: the second byte of the whole register is replaced.
unfoldable pub write_high_byte : ℕ → ℕ → ℕ
write_high_byte val whole = bit_or (bit_and whole 0xffff_ffff_ffff_00ff) (bit_and val 0xff * 2 ^ 8)

-- `ReadValue<T>` and `WriteValue<T>` at a `T` of `w` bits.
module _ (x : Xed) where
  unfoldable pub read_value : ℕ → ℕ → Globals → ℕ
  read_value w reg g = low_bits w (g.regs (x.enclosing reg))

  unfoldable pub write_value : ℕ → ℕ → ℕ → Globals → Globals
  write_value w reg val g =
      let store = x.enclosing reg in
      record g { regs = update g.regs store (store_bits w val (g.regs store)) }

  unfoldable pub is_gpr8h : ℕ → Bool
  is_gpr8h reg = leb x.gpr8h_first reg && leb reg x.gpr8h_last

  unfoldable pub read_gpr : ℕ → Globals → ℕ
  unfolding read_value is_gpr8h
  read_gpr reg g =
      let shift = if is_gpr8h reg then 8 else 0 in
      let size = if is_gpr8h reg then 16 else x.width_bits64 reg in
      if size == 64
      then read_value 64 reg g / 2 ^ shift
      else if size == 32
      then read_value 32 reg g / 2 ^ shift
      else if size == 16
      then read_value 16 reg g / 2 ^ shift
      else if size == 8
      then read_value 8 reg g / 2 ^ shift
      else 0

  unfoldable pub write_gpr : ℕ → ℕ → Globals → Globals
  unfolding read_value write_value is_gpr8h
  write_gpr reg val g =
      let width = x.width_bits64 reg in
      if width == 64
      then write_value 64 reg val g
      else if width == 32
      then write_value 64 reg (u32 val) g
      else if width == 16
      then write_value 16 reg val g
      else if width == 8
      then (if is_gpr8h reg
          then write_value 64 reg (write_high_byte val (read_value 64 reg g)) g
          else write_value 8 reg val g)
      else g

module _ {W : Type 0} (x : Xed) (e : Executor W) where
  -- Without AVX512 a ZMM register is its YMM part.
  abbrev pub downgrade_zmm : ℕ → ℕ
  downgrade_zmm wreg =
      if leb x.zmm_first wreg && leb wreg x.zmm_last && not e.has_avx512
      then wreg - x.zmm_first + x.ymm_first
      else wreg

  -- Without AVX a YMM register is its XMM part.
  abbrev pub downgrade_ymm : ℕ → ℕ
  downgrade_ymm wreg =
      if leb x.ymm_first wreg && leb wreg x.ymm_last && not e.has_avx
      then wreg - x.ymm_first + x.xmm_first
      else wreg

  unfoldable pub widest_register : ℕ → ℕ
  widest_register reg =
      let wreg = if e.addr_size == 64 then x.enclosing reg else x.enclosing32 reg in
      if wreg == x.invalid then reg else downgrade_ymm (downgrade_zmm wreg)

  -- The request to the client, for a register that was not read before.
  unfoldable pub request_register : ℕ → ℕ → RegRequestHint → Act W
  request_register reg widest hint s =
      let g = s.globals in
      let store = x.enclosing reg in
      let size = x.width_bits64 widest in
      let cleared = store_bits (8 * (size / 8)) 0 (g.regs store) in
      let (passed, val, env) = e.read_reg (x.reg_name widest) size hint cleared s.env in
      (
        passed,
        record s {
          globals = record g {
            regs = update g.regs store val;
            used_regs = update g.used_regs widest true;
            store_regs = update g.store_regs store true;
          };
          env = env;
        },
      )

  abbrev pub mark_modified : ℕ → RegRequestHint → Globals → Globals
  mark_modified reg write_back g = record g { modified_regs = update g.modified_regs reg true }
  mark_modified reg _ g = g

  -- From "Stack operations." on: the pseudo registers of a push and a pop are the stack pointer.
  unfoldable pub read_gpr_register : ℕ → RegRequestHint → Act W
  read_gpr_register reg hint =
      let stack_op = reg == x.stackpush || reg == x.stackpop in
      let reg' = if stack_op then x.esp else reg in
      let hint' = if stack_op then write_back else hint in
      let widest = widest_register reg' in
      modify (mark_modified widest hint')
      >> reading (λ g. if g.used_regs widest then done else request_register reg' widest hint')

  abbrev pub read_class : RegClass → ℕ → RegRequestHint → Act W
  read_class x87 reg hint = modify (λ g. record g { uses_fpu = true })
  read_class pseudox87 reg hint = modify (λ g. record g { uses_fpu = true })
  read_class mmx reg hint =
      modify (λ g. record g { uses_fpu = true; uses_mmx = true }) >> read_gpr_register reg hint
  read_class other_class reg hint = read_gpr_register reg hint

  unfoldable pub read_register : ℕ → RegRequestHint → Act W
  read_register reg hint = if reg == x.invalid then done else read_class (x.reg_class reg) reg hint

  -- One register to the client.
  unfoldable pub write_register : ℕ → Act W
  write_register reg s =
      let (passed, env) =
        e.write_reg (x.reg_name reg) (x.width_bits64 reg) (s.globals.regs (x.enclosing reg))
          s.env in
      (passed, record s { env = env })

  -- `gStackPtrAlias` back into the stack pointer.
  unfoldable pub restore_stack_ptr : Globals → Globals
  unfolding read_gpr write_gpr
  restore_stack_ptr g =
      if g.stack_ptr_alias == x.invalid
      then g
      else (let g' = write_gpr x x.rsp (read_gpr x g.stack_ptr_alias g) g in
          record g' { stack_ptr_alias = x.invalid })

  -- The loop over `gUsedRegs` from register `i` on, with `left` registers to go: it keeps the
  -- program counter for the end.
  unfoldable pub write_registers_loop : ℕ → ℕ → ℕ → Act W
  write_registers_loop zero i pc_reg s =
      (if pc_reg == x.invalid then done else write_register pc_reg) s
  write_registers_loop (suc left) i pc_reg s =
      let skipped = write_registers_loop left (i + 1) pc_reg s in
      let remembered = write_registers_loop left (i + 1) i s in
      let written = (write_register i >> write_registers_loop left (i + 1) pc_reg) s in
      if not (s.globals.used_regs i)
      then skipped
      else if i == x.eip || i == x.rip
      then remembered
      else if s.globals.modified_regs i
      then written
      else skipped

  unfoldable pub write_registers : Act W
  write_registers = modify restore_stack_ptr >> write_registers_loop x.reg_last 0 x.invalid
