-- ===== src/Emulate/StackLaws.antt =====
-- The stack instructions of `Emulate`: calls and returns, pushes and pops.
use microx.Base.{ℕ, ◌%◌, ◌^◌, ◌<◌, ◌≡◌, ◌≢◌, ◌↔◌, refl, ap, ◌∙◌, inl, arith, u32, add64, sub64}
use microx.Xed.{Xed}
use microx.State.{Globals}
use microx.Registers.{read_gpr, write_gpr}
use microx.Registers.Gpr.{
  HighBytes, read_gpr-write_gpr, read_gpr-write_gpr_ne, read_gpr-regs, read_gpr-fits,
  write_gpr-memory0,
}
use microx.Emulate.Machine.{handled, Locals, mem0, set_mem0, add_gpr, sub_gpr}
use microx.Emulate.Stack.{push_imm, pop_gpr, leave}

-- What is stored as the first operand's data is read from it.
mem0-set_mem0 : (v : ℕ) (g : Globals) → v < 2 ^ 64 → mem0 (set_mem0 v g) ≡ v
mem0-set_mem0 v g fits = omega arith

module _ (x : Xed) (high : HighBytes x) (reg : ℕ) (wide : x.width_bits64 reg ≡ 64) where
  pub stored_is_read : (v : ℕ) (g : Globals) → v < 2 ^ 64 → read_gpr x reg (write_gpr x reg v g) ≡ v
  stored_is_read v g fits = read_gpr-write_gpr x reg v g high (inl wide) ∙ rw wide (omega arith)

  read_gpr-sub_gpr :
      (n : ℕ) (g : Globals) → read_gpr x reg (sub_gpr x reg n g) ≡ sub64 (read_gpr x reg g) n
  read_gpr-sub_gpr n g = stored_is_read (sub64 (read_gpr x reg g) n) g (omega arith)

  read_gpr-add_gpr :
      (n : ℕ) (g : Globals) → read_gpr x reg (add_gpr x reg n g) ≡ add64 (read_gpr x reg g) n
  read_gpr-add_gpr n g = stored_is_read (add64 (read_gpr x reg g) n) g (omega arith)

  -- The stack pointer after data was stored in the operand.
  pub pushed_pointer :
      (n v : ℕ) (g : Globals)
      → read_gpr x reg (sub_gpr x reg n (set_mem0 v g)) ≡ sub64 (read_gpr x reg g) n
  pushed_pointer n v g =
      read_gpr-sub_gpr n (set_mem0 v g)
      ∙ ap (λ p. sub64 p n) (read_gpr-regs x reg g (set_mem0 v g) refl)

  pub pushed_data : (n v : ℕ) (g : Globals) → v < 2 ^ 64 → mem0 (sub_gpr x reg n (set_mem0 v g)) ≡ v
  pushed_data n v g fits =
      ap (λ m. m.contents % 2 ^ 64)
        (write_gpr-memory0 x reg (sub64 (read_gpr x reg (set_mem0 v g)) n) (set_mem0 v g))
      ∙ mem0-set_mem0 v g fits

  -- Down and up again.
  pub down_and_up :
      (n m : ℕ) (g g' : Globals)
      → n ≡ m
      → read_gpr x reg g' ≡ sub64 (read_gpr x reg g) n
      → read_gpr x reg (add_gpr x reg m g') ≡ read_gpr x reg g
  down_and_up n m g g' same e =
      let b = read_gpr-fits x reg g in read_gpr-add_gpr m g' ∙ rw e (omega arith)

-- A pop into the 64-bit stack pointer itself leaves it at the value that was popped, as the
-- processor does, exactly if the operand's size is a multiple of 2^64: the size is added to the
-- value after it is stored.
-- The high byte registers have 8 bits.
pop_gpr_stack_iff :
    (x : Xed) (l : Locals) (g : Globals)
    → HighBytes x
    → x.width_bits64 l.stack_reg ≡ 64
    → l.r0 ≡ l.stack_reg
    → (g' : Globals) × (pop_gpr x l g ≡ handled g' l.next_pc)
      × ((read_gpr x l.stack_reg g' ≡ mem0 g) ↔ (l.op_size_bytes % 2 ^ 64 ≡ 0))
unfolding pop_gpr
pop_gpr_stack_iff x l g high wide same =
    let sp = l.stack_reg in
    let loaded = write_gpr x l.r0 (mem0 g) g in
    (
      add_gpr x sp l.op_size_bytes loaded,
      refl,
      rw
          (
            read_gpr-add_gpr x high sp wide l.op_size_bytes loaded,
            same,
            stored_is_read x high sp wide (mem0 g) g (omega arith),
          )
          ((λ e. omega arith), (λ e. omega arith)),
    )

-- A push of an immediate stores the sign-extended immediate exactly if it is below 2^32, and moves
-- the 64-bit stack pointer down by the operand's size in any case.
-- The high byte registers have 8 bits.
push_imm_iff :
    (x : Xed) (l : Locals) (g : Globals)
    → HighBytes x
    → x.width_bits64 l.stack_reg ≡ 64
    → (g' : Globals) × (push_imm x l g ≡ handled g' l.next_pc)
      × ((mem0 g' ≡ l.simm0) ↔ (l.simm0 < 2 ^ 32))
      × (read_gpr x l.stack_reg g' ≡ sub64 (read_gpr x l.stack_reg g) l.op_size_bytes)
unfolding push_imm
push_imm_iff x l g high wide =
    let sp = l.stack_reg in
    let n = l.op_size_bytes in
    (
      sub_gpr x sp n (set_mem0 (u32 l.simm0) g),
      refl,
      rw (pushed_data x high sp wide n (u32 l.simm0) g (omega arith))
          ((λ e. omega arith), (λ e. omega arith)),
      pushed_pointer x high sp wide n (u32 l.simm0) g,
    )

-- LEAVE with the 64-bit frame pointer as `r0` and the 64-bit stack pointer as `r1`: the frame
-- pointer gets the operand, and the stack pointer the frame pointer's old value, without the size
-- of the operand that the processor pops.
-- The high byte registers have 8 bits.
leave-registers :
    (x : Xed) (l : Locals) (g : Globals)
    → HighBytes x
    → x.width_bits64 l.r0 ≡ 64
    → x.width_bits64 l.r1 ≡ 64
    → x.enclosing l.r1 ≢ x.enclosing l.r0
    → (g' : Globals) × (leave x l g ≡ handled g' l.next_pc)
      × (read_gpr x l.r0 g' ≡ mem0 g)
      × (read_gpr x l.r1 g' ≡ read_gpr x l.r0 g)
unfolding leave
leave-registers x l g high wide0 wide1 apart =
    let v = read_gpr x l.r0 g in
    let moved = write_gpr x l.r1 v g in
    (
      write_gpr x l.r0 (mem0 moved) moved,
      refl,
      stored_is_read x high l.r0 wide0 (mem0 moved) moved (omega arith)
          ∙ ap (λ m. m.contents % 2 ^ 64) (write_gpr-memory0 x l.r1 v g),
      read_gpr-write_gpr_ne x l.r0 l.r1 (mem0 moved) moved apart
          ∙ stored_is_read x high l.r1 wide1 v g (read_gpr-fits x l.r0 g),
    )
