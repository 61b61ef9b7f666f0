-- ===== src/Emulate/Machine.antt =====
-- What `Emulate` (`microx/Executor.cpp`) works on: the two memory operands as words, the flags in
-- the register file, the program counters, the locals at the head of the function, and its outcome.
use microx.Base.{
  ℕ, ◌/◌, Bool, true, ◌==◌, if◌then◌else◌, u8, u16, u32, add64, sub64, low_bits, store_bits, bit,
  to_u64,
}
use microx.Xed.{Xed, reg0, reg1, reg2}
use microx.State.{Globals, Executor, ExecutorStatus, update}
use microx.Registers.{widest_register, read_gpr, write_gpr}
use microx.Flags.{df_bit}

-- `return true` with the new `next_pc`; `return false` with an error status; `return false` with
-- `kGood`, which asks for the instruction to be executed natively.
pub data Emulated : Type 0 where
  handled : Globals → ℕ → Emulated
  rejected : ExecutorStatus → Emulated
  native : ℕ → Emulated

pub record Locals : Type 0 where
  pub next_pc : ℕ
  pub branch_target_pc : ℕ
  pub curr_pc : ℕ
  pub count_reg : ℕ
  pub count : ℕ
  pub src_reg : ℕ
  pub dest_reg : ℕ
  pub stack_reg : ℕ
  pub r0 : ℕ
  pub r1 : ℕ
  pub r2 : ℕ
  pub addr_size_bytes : ℕ
  pub op_size_bytes : ℕ
  pub simm0 : ℕ
  pub stringop_inc : ℕ

-- `mem0` and `mem1`, the first 8 bytes of the operands' data.
abbrev pub mem0 : Globals → ℕ
mem0 g = low_bits 64 g.memory0.contents

abbrev pub mem1 : Globals → ℕ
mem1 g = low_bits 64 g.memory1.contents

abbrev pub set_mem0 : ℕ → Globals → Globals
set_mem0 v g = record g {
  memory0 = record (g.memory0) { contents = store_bits 64 v g.memory0.contents };
}

abbrev pub set_mem1 : ℕ → Globals → Globals
set_mem1 v g = record g {
  memory1 = record (g.memory1) { contents = store_bits 64 v g.memory1.contents };
}

-- `gModifiedRegs.set(reg)`.
abbrev pub mark : ℕ → Globals → Globals
mark reg g = record g { modified_regs = update g.modified_regs reg true }

-- `BranchTarget` and `GetSignedImmediate`.
unfoldable pub branch_target : ℕ → Globals → ℕ
branch_target next_pc g = add64 next_pc (to_u64 g.xedd.branch_displacement)

unfoldable pub get_signed_immediate : Globals → ℕ
get_signed_immediate g =
    let simm0 = to_u64 g.xedd.signed_immediate in
    if g.operand_width == 64
    then simm0
    else if g.operand_width == 32
    then u32 simm0
    else if g.operand_width == 16
    then u16 simm0
    else if g.operand_width == 8
    then u8 simm0
    else 0

module _ (x : Xed) where
  -- A field of `aflag`, which is a reference into the register file.
  abbrev pub flag : ℕ → Globals → Bool
  flag k g = bit k (g.regs x.rflags)

  -- `WriteGPR(reg, ReadGPR(reg) + inc)` and the same with `-`, on words.
  abbrev pub add_gpr : ℕ → ℕ → Globals → Globals
  add_gpr reg inc g = write_gpr x reg (add64 (read_gpr x reg g) inc) g

  abbrev pub sub_gpr : ℕ → ℕ → Globals → Globals
  sub_gpr reg dec g = write_gpr x reg (sub64 (read_gpr x reg g) dec) g

module _ {W : Type 0} (x : Xed) (e : Executor W) where
  -- A program counter at the address size.
  abbrev pub mask_pc : ℕ → ℕ
  mask_pc pc = if e.addr_size == 32 then u32 pc else pc

  unfoldable pub get_pc : Globals → ℕ
  get_pc g = mask_pc (read_gpr x (widest_register x e x.eip) g)

  unfoldable pub get_next_pc : Globals → ℕ
  get_next_pc g = mask_pc (add64 (read_gpr x (widest_register x e x.eip) g) g.xedd.inst_length)

  -- The declarations at the head of `Emulate`.
  unfoldable pub locals : ℕ → Globals → Locals
  unfolding branch_target get_signed_immediate
  locals next_pc g =
      let count_reg = widest_register x e x.ecx in
      let op_size_bytes = g.operand_width / 8 in
      record {
        next_pc = mask_pc next_pc;
        branch_target_pc = mask_pc (branch_target next_pc g);
        curr_pc = read_gpr x x.rip g;
        count_reg = count_reg;
        count = read_gpr x count_reg g;
        src_reg = widest_register x e x.esi;
        dest_reg = widest_register x e x.edi;
        stack_reg = widest_register x e x.esp;
        r0 = g.xedd.get_reg reg0;
        r1 = g.xedd.get_reg reg1;
        r2 = g.xedd.get_reg reg2;
        addr_size_bytes = e.addr_size / 8;
        op_size_bytes = op_size_bytes;
        simm0 = get_signed_immediate g;
        stringop_inc = (if flag x df_bit g then sub64 0 op_size_bytes else op_size_bytes);
      }
