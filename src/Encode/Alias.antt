-- ===== src/Encode/Alias.antt =====
-- The register that stands in for the stack pointer when an instruction runs natively.
use microx.Base.{
  ℕ, ◌≡◌, ◌≢◌, refl, ap, ◌∙◌, inl, inr, Bool, true, false, ◌&&◌, ◌==◌, Bool-cases, ==-refl,
  if◌then◌else◌, arith,
}
use microx.Xed.{Xed}
use microx.State.{Globals}
use microx.Registers.{read_gpr, write_gpr}
use microx.Registers.Gpr.{
  HighBytes, read_gpr-write_gpr, read_gpr-write_gpr_ne, read_gpr-regs, read_gpr-fits,
}
use microx.Encode.{free_register, choose_alias}

-- What the code relies on in XED's numbers: the four registers are of 64 bits and not the invalid
-- register.
pub record IsFourRegisters (x : Xed) : Type 0 where
  pub rax_width : x.width_bits64 x.rax ≡ 64
  pub rcx_width : x.width_bits64 x.rcx ≡ 64
  pub rdx_width : x.width_bits64 x.rdx ≡ 64
  pub rbx_width : x.width_bits64 x.rbx ≡ 64
  pub invalid_width : x.width_bits64 x.invalid ≡ 0

module _ (x : Xed) (four : IsFourRegisters x) (g : Globals) where
  -- Not all four are used by the instruction.
  abbrev pub all_used : Bool
  all_used = g.store_regs x.rax && g.store_regs x.rcx && g.store_regs x.rdx && g.store_regs x.rbx

  -- A register that is 64 bits wide and not used.
  abbrev IsFree : ℕ → Type 0
  IsFree r = (g.store_regs r ≡ false) × (x.width_bits64 r ≡ 64)

  free_register-IsFree : all_used ≡ false → IsFree (free_register x g)
  unfolding free_register
  free_register-IsFree some_free = elim (Bool-cases (g.store_regs x.rax)) [
    | inr n ↦ rw n (n, four.rax_width)
    | inl y ↦ rw y (elim (Bool-cases (g.store_regs x.rcx)) [
      | inr n ↦ rw n (n, four.rcx_width)
      | inl y' ↦ rw y' (elim (Bool-cases (g.store_regs x.rdx)) [
        | inr n ↦ rw n (n, four.rdx_width)
        | inl y'' ↦
            let n : g.store_regs x.rbx ≡ false = ground arith in rw (y'', n) (n, four.rbx_width)
      ])
    ])
  ]

alias-write_gpr :
    (x : Xed) (reg val : ℕ) (g : Globals)
    → (write_gpr x reg val g).stack_ptr_alias ≡ g.stack_ptr_alias
unfolding write_gpr
alias-write_gpr x reg val g = ground arith

-- What is wide is not the invalid register.
is_valid :
    (x : Xed) (reg : ℕ) → IsFourRegisters x → x.width_bits64 reg ≡ 64 → (reg == x.invalid) ≡ false
is_valid x reg four wide = let none = four.invalid_width in ground arith

-- For XED's register numbers and an instruction that leaves one of RAX, RCX, RDX and RBX unused:
-- the alias that is chosen is a register that the instruction does not use, it holds the stack
-- pointer's value, all registers outside the alias keep their values, and a second choice for the
-- same instruction changes nothing.
pub choose_alias-holds :
    (x : Xed) (four : IsFourRegisters x) (g : Globals)
    → HighBytes x
    → all_used x four g ≡ false
    → g.stack_ptr_alias ≡ x.invalid
    → (alias : ℕ) × (g' : Globals) × (choose_alias x g ≡ g')
      × (g'.stack_ptr_alias ≡ alias)
      × (g.store_regs alias ≡ false)
      × (read_gpr x alias g' ≡ read_gpr x x.rsp g)
      × ((r : ℕ) → x.enclosing r ≢ x.enclosing alias → read_gpr x r g' ≡ read_gpr x r g)
      × (choose_alias x g' ≡ g')
unfolding choose_alias
choose_alias-holds x four g high some_free first =
    let alias = free_register x g in
    let chosen = record g { stack_ptr_alias = alias } in
    let v = read_gpr x x.rsp g in
    let (free, wide) = free_register-IsFree x four g some_free in
    let chooses : (g.stack_ptr_alias == x.invalid) ≡ true = rw first (==-refl x.invalid) in
    let kept = alias-write_gpr x alias v chosen in
    let renewed =
      (let again = write_gpr x alias v chosen in
        write_gpr x (free_register x again) (read_gpr x x.rsp again)
          (record again { stack_ptr_alias = free_register x again })) in
    (
      alias,
      write_gpr x alias v chosen,
      ap (λ b. if b then write_gpr x alias v chosen else g) chooses,
      kept,
      free,
      read_gpr-write_gpr x alias v chosen high (inl wide)
          ∙ rw wide (let b = read_gpr-fits x x.rsp g in omega arith),
      λ r ne. read_gpr-write_gpr_ne x alias r v chosen ne ∙ read_gpr-regs x r g chosen refl,
      ap (λ b. if b then renewed else write_gpr x alias v chosen)
          (ap (λ r. r == x.invalid) kept ∙ is_valid x alias four wide),
    )
