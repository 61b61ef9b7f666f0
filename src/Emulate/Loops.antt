-- ===== src/Emulate/Loops.antt =====
-- The LOOP family of `Emulate`.
use microx.Base.{ℕ, ◌^◌, ◌<◌, ◌≡◌, ◌≢◌, ◌↔◌, ◌==◌, if◌then◌else◌, sub64, arith}
use microx.Xed.{Xed, Iform}
use microx.Host.{Host}
use microx.State.{Globals}
use microx.Emulate.Machine.{Emulated, handled, rejected, native, Locals}
use microx.Emulate.Branch.{loop_if}
use microx.Emulate.Dispatch.{emulate_form}

-- The program counter after an instruction that is handled.
abbrev pub pc_after : Emulated → ℕ
pc_after (handled g pc) = pc
pc_after (rejected status) = 0
pc_after (native pc) = pc

module _ (x : Xed) (h : Host) (l : Locals) (g : Globals) where
  -- LOOP with a count below 2^64 and a target that is not the next instruction goes where the
  -- processor goes, which branches when the decremented count is not zero, exactly if the count
  -- before is neither 0 nor 1.
  pub loop_agrees_iff :
      l.count < 2 ^ 64
      → l.next_pc ≢ l.branch_target_pc
      → (pc_after (emulate_form x h Iform.loop_relbrb l g)
          ≡ (if sub64 l.count 1 == 0 then l.next_pc else l.branch_target_pc))
        ↔ ((l.count ≢ 0) × (l.count ≢ 1))
  unfolding emulate_form loop_if
  loop_agrees_iff fits ne = ground arith
