-- ===== src/Emulate/Branch.antt =====
-- The control-flow cases of `Emulate` (`microx/Executor.cpp`): conditional branches, the LOOP
-- family, jumps, calls and returns.
use microx.Base.{
  ℕ, ◌+◌, Bool, not, differs, ◌&&◌, ◌||◌, ◌==◌, if◌then◌else◌, u16, sub64, store_bits,
}
use microx.Xed.{Xed}
use microx.State.{Globals, update}
use microx.Registers.{read_gpr, write_gpr}
use microx.Flags.{cf_bit, pf_bit, zf_bit, sf_bit, of_bit}
use microx.Emulate.Machine.{
  Emulated, handled, Locals, mem0, set_mem0, set_mem1, flag, add_gpr, sub_gpr,
}

-- `if (test) next_pc = branch_target_pc; return true;`
abbrev pub branch_if : Bool → Locals → Globals → Emulated
branch_if test l g = handled g (if test then l.branch_target_pc else l.next_pc)

module _ (x : Xed) where
  -- The tests of the conditional branches.
  unfoldable pub jnle : Globals → Bool
  jnle g = not (flag x zf_bit g) && not (differs (flag x sf_bit g) (flag x of_bit g))

  unfoldable pub jns : Globals → Bool
  jns g = not (flag x sf_bit g)

  unfoldable pub jl : Globals → Bool
  jl g = differs (flag x sf_bit g) (flag x of_bit g)

  unfoldable pub jnp : Globals → Bool
  jnp g = not (flag x pf_bit g)

  unfoldable pub jnz : Globals → Bool
  jnz g = not (flag x zf_bit g)

  unfoldable pub jnb : Globals → Bool
  jnb g = not (flag x cf_bit g)

  unfoldable pub jno : Globals → Bool
  jno g = not (flag x of_bit g)

  unfoldable pub jnl : Globals → Bool
  jnl g = not (differs (flag x sf_bit g) (flag x of_bit g))

  unfoldable pub jnbe : Globals → Bool
  jnbe g = not (flag x cf_bit g) && not (flag x zf_bit g)

  unfoldable pub jbe : Globals → Bool
  jbe g = flag x cf_bit g || flag x zf_bit g

  unfoldable pub jz : Globals → Bool
  jz g = flag x zf_bit g

  unfoldable pub jp : Globals → Bool
  jp g = flag x pf_bit g

  unfoldable pub js : Globals → Bool
  js g = flag x sf_bit g

  unfoldable pub jo : Globals → Bool
  jo g = flag x of_bit g

  unfoldable pub jb : Globals → Bool
  jb g = flag x cf_bit g

  unfoldable pub jle : Globals → Bool
  jle g = flag x zf_bit g || differs (flag x sf_bit g) (flag x of_bit g)

  -- LOOPNE, LOOPE and LOOP: the count that was read is what is tested.
  unfoldable pub loop_if : (Globals → Bool) → Locals → Globals → Emulated
  loop_if again l g =
      let g' = write_gpr x l.count_reg (sub64 l.count 1) g in
      branch_if (not (l.count == 0) && again g') l g'

  unfoldable pub jcxz : ℕ → Locals → Globals → Emulated
  jcxz reg l g = branch_if (read_gpr x reg g == 0) l g

  -- The transaction fails at once, with the error code 8.
  unfoldable pub xbegin : Locals → Globals → Emulated
  xbegin l g =
      let regs = update g.regs x.rax (store_bits 64 8 (g.regs x.rax)) in
      handled (record g { regs = update regs x.eax (store_bits 32 8 (regs x.eax)) })
        l.branch_target_pc

  unfoldable pub jmp_mem : Locals → Globals → Emulated
  jmp_mem l g = handled g (mem0 g)

  unfoldable pub jmp_gpr : Locals → Globals → Emulated
  jmp_gpr l g = handled g (read_gpr x l.r0 g)

  unfoldable pub call_rel : Locals → Globals → Emulated
  call_rel l g =
      handled (sub_gpr x l.stack_reg l.addr_size_bytes (set_mem0 l.next_pc g)) l.branch_target_pc

  unfoldable pub call_mem : Locals → Globals → Emulated
  call_mem l g =
      let g' = set_mem1 l.next_pc g in
      handled (sub_gpr x l.stack_reg l.addr_size_bytes g') (mem0 g')

  unfoldable pub call_gpr : Locals → Globals → Emulated
  call_gpr l g =
      let g' = set_mem0 l.next_pc g in
      handled (sub_gpr x l.stack_reg l.addr_size_bytes g') (read_gpr x l.r0 g')

  unfoldable pub ret : ℕ → Locals → Globals → Emulated
  ret extra l g = handled (add_gpr x l.stack_reg (l.addr_size_bytes + extra) g) (mem0 g)

  unfoldable pub ret_imm : Locals → Globals → Emulated
  unfolding ret
  ret_imm l = ret (u16 l.simm0) l
