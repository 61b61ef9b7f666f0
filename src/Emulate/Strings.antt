-- ===== src/Emulate/Strings.antt =====
-- The string instructions of `Emulate` (`microx/Executor.cpp`): the macros STOS, SCAS, LODS, MOVS
-- and CMPS, and the repetition macros REPNE, REPE and REP, which do one round.
use microx.Base.{ℕ, ◌-◌, Bool, true, not, ◌&&◌, ◌==◌, if◌then◌else◌, sub64}
use microx.Xed.{Xed}
use microx.Host.{Host}
use microx.State.{Globals, update}
use microx.Registers.{read_gpr, write_gpr}
use microx.Flags.{update_flags_sub, zf_bit}
use microx.Emulate.Machine.{Emulated, handled, Locals, mem0, mem1, set_mem0, mark, flag, add_gpr}

module _ (x : Xed) where
  -- The pointer moves by the increment, and is marked for the write-back.
  abbrev pub advance : ℕ → Locals → Globals → Globals
  advance reg l g = mark reg (add_gpr x reg l.stringop_inc g)

  unfoldable pub stos : Locals → Globals → Globals
  stos l g = advance l.dest_reg l (set_mem0 (read_gpr x l.r0 g) g)

  unfoldable pub lods : Locals → Globals → Globals
  lods l g = advance l.src_reg l (write_gpr x l.r0 (mem0 g) g)

  unfoldable pub movs : Locals → Globals → Globals
  movs l g =
      let g' = add_gpr x l.src_reg l.stringop_inc (set_mem0 (mem1 g) g) in
      mark l.dest_reg (mark l.src_reg (add_gpr x l.dest_reg l.stringop_inc g'))

  -- `UpdateFlagsSub(aflag, lhs, rhs, lhs - rhs, size)` on the flags in the register file.
  unfoldable pub compare_flags : Host → ℕ → ℕ → Globals → Globals
  compare_flags h lhs rhs g = record g {
    regs =
        update g.regs x.rflags
          (update_flags_sub h lhs rhs (sub64 lhs rhs) g.operand_width (g.regs x.rflags));
  }

  unfoldable pub scas : Host → Locals → Globals → Globals
  unfolding compare_flags
  scas h l g = advance l.dest_reg l (compare_flags h (read_gpr x l.r0 g) (mem0 g) g)

  unfoldable pub cmps : Host → Locals → Globals → Globals
  unfolding compare_flags
  cmps h l g =
      let g' = add_gpr x l.src_reg l.stringop_inc (compare_flags h (mem0 g) (mem1 g) g) in
      mark l.dest_reg (mark l.src_reg (add_gpr x l.dest_reg l.stringop_inc g'))

  -- One round, after which the program counter stays if another is due.
  unfoldable pub rep_if :
      (Globals → Bool) → (Locals → Globals → Globals) → Locals → Globals → Emulated
  rep_if again body l g =
      if l.count == 0
      then handled g l.next_pc
      else (let g' = write_gpr x l.count_reg (l.count - 1) (body l g) in
          handled g' (if not (l.count - 1 == 0) && again g' then l.curr_pc else l.next_pc))

  abbrev pub rep : (Locals → Globals → Globals) → Locals → Globals → Emulated
  rep = rep_if (λ _. true)

  abbrev pub repe : (Locals → Globals → Globals) → Locals → Globals → Emulated
  repe = rep_if (flag x zf_bit)

  abbrev pub repne : (Locals → Globals → Globals) → Locals → Globals → Emulated
  repne = rep_if (λ g. not (flag x zf_bit g))

  unfoldable pub once : (Locals → Globals → Globals) → Locals → Globals → Emulated
  once body l g = handled (body l g) l.next_pc
