-- ===== src/Registers/Gpr.antt =====
-- The values of general-purpose registers: `ReadGPR` after `WriteGPR`.
use Prim.Native.Nat.{bit_or-bitwise}
use microx.Base.{
  ℕ, ◌+◌, ◌-◌, ◌*◌, ◌/◌, ◌%◌, ◌^◌, ◌<◌, ◌≡◌, ◌≢◌, ◌⊎◌, Bool, true, ◌==◌, if◌then◌else◌, bit_and,
  arith,
}
use microx.Base.Bits.{
  bit_and_split, bit_or_split, bit_and-zero, bit_or-zero, bit_and_mask, bit_and_low,
}
use microx.Xed.{Xed}
use microx.State.{Globals}
use microx.Registers.{is_gpr8h, read_gpr, write_gpr, write_high_byte}

keep_all_but_second :
    (whole : ℕ)
    → whole < 2 ^ 64
    → bit_and whole 0xffff_ffff_ffff_00ff ≡ whole / 2 ^ 16 * 2 ^ 16 + (0 * 2 ^ 8 + whole % 2 ^ 8)
keep_all_but_second whole h = ground (
  arith,
  bit_and_split 16 (whole / 2 ^ 16) (2 ^ 48 - 1) (whole % 2 ^ 16) 0xff,
  bit_and_split 8 (whole / 2 ^ 8 % 2 ^ 8) 0 (whole % 2 ^ 8) 0xff,
  bit_and_mask 48 (whole / 2 ^ 16),
  bit_and-zero 8 (whole / 2 ^ 8 % 2 ^ 8),
  bit_and_mask 8 (whole % 2 ^ 8),
)

-- As arithmetic: the second byte is exchanged, and the others stay.
pub write_high_byte_lem :
    (val whole : ℕ)
    → whole < 2 ^ 64
    → write_high_byte val whole ≡ whole / 2 ^ 16 * 2 ^ 16 + val % 2 ^ 8 * 2 ^ 8 + whole % 2 ^ 8
unfolding write_high_byte
write_high_byte_lem val whole h =
    rw (keep_all_but_second whole h, bit_and_low 8 val)
      (ground (
        arith,
        bit_or_split 16 (whole / 2 ^ 16) 0 (whole % 2 ^ 8) (val % 2 ^ 8 * 2 ^ 8),
        bit_or_split 8 0 (val % 2 ^ 8) (whole % 2 ^ 8) 0,
        bit_or-zero 48 (whole / 2 ^ 16),
        bit_or-bitwise 0 (val % 2 ^ 8),
        bit_or-zero 8 (whole % 2 ^ 8),
      ))

-- What x86-64 makes of the low 64 bits of a register that is written through a part of `width`
-- bits, at bit 8 for the high byte registers: a 32-bit write clears the upper half.
abbrev pub merged : ℕ → Bool → ℕ → ℕ → ℕ
merged width high val old =
    if high
    then old / 2 ^ 16 * 2 ^ 16 + val % 2 ^ 8 * 2 ^ 8 + old % 2 ^ 8
    else if width == 32
    then val % 2 ^ 32
    else old / 2 ^ width * 2 ^ width + val % 2 ^ width

abbrev pub IsGprWidth : ℕ → Type 0
IsGprWidth w = (w ≡ 64) ⊎ (w ≡ 32) ⊎ (w ≡ 16) ⊎ (w ≡ 8)

module _ (x : Xed) where
  -- AH, BH, CH and DH are registers of 8 bits.
  abbrev pub HighBytes : Type 0
  HighBytes = (r : ℕ) → is_gpr8h x r ≡ true → x.width_bits64 r ≡ 8

  abbrev pub stored : ℕ → Globals → ℕ
  stored reg g = g.regs (x.enclosing reg)

  -- For a register of 8, 16, 32 or 64 bits, where the high byte registers have 8: a write changes
  -- the low 64 bits of the enclosing register as the processor does, and nothing above them.
  pub write_gpr-merged :
      (reg val : ℕ) (g : Globals)
      → HighBytes
      → IsGprWidth (x.width_bits64 reg)
      → stored reg (write_gpr x reg val g)
        ≡ stored reg g / 2 ^ 64 * 2 ^ 64
          + merged (x.width_bits64 reg) (is_gpr8h x reg) val (stored reg g % 2 ^ 64)
  unfolding write_gpr
  write_gpr-merged reg val g high w =
      ground (arith, high reg, write_high_byte_lem val (stored reg g % 2 ^ 64))

  -- For a register of 8, 16, 32 or 64 bits, where the high byte registers have 8: what is written
  -- is read back, modulo the register's width.
  pub read_gpr-write_gpr :
      (reg val : ℕ) (g : Globals)
      → HighBytes
      → IsGprWidth (x.width_bits64 reg)
      → read_gpr x reg (write_gpr x reg val g) ≡ val % 2 ^ x.width_bits64 reg
  unfolding write_gpr read_gpr
  read_gpr-write_gpr reg val g high w =
      ground (arith, high reg, write_high_byte_lem val (stored reg g % 2 ^ 64))

  -- The other registers of the file are not written.
  pub regs-write_gpr_ne :
      (reg store val : ℕ) (g : Globals)
      → store ≢ x.enclosing reg
      → (write_gpr x reg val g).regs store ≡ g.regs store
  unfolding write_gpr
  regs-write_gpr_ne reg store val g ne = ground arith

  -- A register in another enclosing register keeps its value.
  pub read_gpr-write_gpr_ne :
      (reg other val : ℕ) (g : Globals)
      → x.enclosing other ≢ x.enclosing reg
      → read_gpr x other (write_gpr x reg val g) ≡ read_gpr x other g
  unfolding read_gpr
  read_gpr-write_gpr_ne reg other val g ne = rw (regs-write_gpr_ne reg (x.enclosing other) val g ne)

  -- The value of a register depends on the register file alone.
  pub read_gpr-regs :
      (reg : ℕ) (g g' : Globals) → g'.regs ≡ g.regs → read_gpr x reg g' ≡ read_gpr x reg g
  unfolding read_gpr
  read_gpr-regs reg g g' e = rw e

  -- A value fits into a `uintptr_t`.
  pub read_gpr-fits : (reg : ℕ) (g : Globals) → read_gpr x reg g < 2 ^ 64
  unfolding read_gpr
  read_gpr-fits reg g = ground arith

  pub write_gpr-memory0 : (reg val : ℕ) (g : Globals) → (write_gpr x reg val g).memory0 ≡ g.memory0
  unfolding write_gpr
  write_gpr-memory0 reg val g = ground arith
