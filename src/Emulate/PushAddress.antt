-- ===== src/Emulate/PushAddress.antt =====
-- A push from its memory operand to its effect: `ReadMemory` computes the operand's address before
-- `Emulate` moves the stack pointer, and `WriteMemory` stores there.
use microx.Base.{◌≡◌, refl, ◌∙◌, Bool, true, false, if◌then◌else◌}
use microx.Xed.{Xed, Operand}
use microx.State.{Globals, Executor, State, modify, ◌>>◌}
use microx.MemoryOps.Forms.{below_stack, adjustment0}
use microx.MemoryOps.{adjust, is_agen, prepare_memory, fetch_memory, read_memory_operand}

module _ {W : Type 0} (x : Xed) (e : Executor W) (op : Operand) (s : State W) where
  -- The state in which `Emulate` runs, when memory has been read.
  abbrev pub operand_read : Globals
  operand_read = (read_memory_operand x e op 0 s).1.globals

  fetch_memory-regs : (fetch_memory x e op 0 s).1.globals.regs ≡ s.globals.regs
  unfolding fetch_memory
  fetch_memory-regs = either (is_agen op.name) _ _ refl refl
    where
      either :
          (b : Bool) (p q : Bool × State W)
          → p.1.globals.regs ≡ s.globals.regs
          → q.1.globals.regs ≡ s.globals.regs
          → (if b then p else q).1.globals.regs ≡ s.globals.regs
      either true p q l r = l
      either false p q l r = r

prepare_memory-regs :
    (x : Xed) (op : Operand) (g : Globals)
    → adjustment0 g.xedd.iform ≡ below_stack
    → (prepare_memory x op 0 g).regs ≡ g.regs
unfolding prepare_memory adjust
prepare_memory-regs x op g below = rw below refl

pub read_memory_operand-regs :
    {W : Type 0} (x : Xed) (e : Executor W) (op : Operand) (s : State W)
    → adjustment0 s.globals.xedd.iform ≡ below_stack
    → (operand_read x e op s).regs ≡ s.globals.regs
unfolding read_memory_operand modify ◌>>◌
read_memory_operand-regs x e op s below =
    fetch_memory-regs x e op (record s { globals = prepare_memory x op 0 s.globals })
    ∙ prepare_memory-regs x op s.globals below
