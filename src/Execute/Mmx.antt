-- ===== src/Execute/Mmx.antt =====
-- The MMX registers within the FPU state (`CopyMMXStateToFPU`, `CopyMMXStateFromFPU` of
-- `microx/Executor.cpp`). `st[i]` of both `FXSAVE` layouts starts at byte 32 + 16 * i, with the
-- `mmx` field first and `infinity` behind its 8 bytes.
use microx.Base.{ℕ, zero, suc, ◌+◌, ◌*◌, ◌/◌, ◌%◌, ◌^◌, if◌then◌else◌, low_bits, store_bits}
use microx.Xed.{Xed}
use microx.State.{Globals, update}

-- `w` bits of a structure, from bit `offset` on, and a store of them.
abbrev pub field_at : ℕ → ℕ → ℕ → ℕ
field_at w offset d = low_bits w (d / 2 ^ offset)

abbrev pub store_at : ℕ → ℕ → ℕ → ℕ → ℕ
store_at w offset v d = store_bits w v (d / 2 ^ offset) * 2 ^ offset + d % 2 ^ offset

-- The bit at which `st[i]` starts.
abbrev pub st_offset : ℕ → ℕ
st_offset i = 8 * (32 + 16 * i)

module _ (x : Xed) where
  unfoldable pub copy_mmx_to_fpu : ℕ → Globals → Globals
  copy_mmx_to_fpu i g =
      let fpu = store_at 64 (st_offset i) (g.regs (x.mmx_reg i)) g.fpu in
      if g.used_regs (x.mmx_reg i)
      then record g { fpu = store_at 16 (st_offset i + 64) 0xffff fpu }
      else g

  unfoldable pub copy_mmx_from_fpu : ℕ → Globals → Globals
  copy_mmx_from_fpu i g =
      let reg = x.mmx_reg i in
      if g.used_regs reg
      then record g {
        regs = update g.regs reg (store_bits 64 (field_at 64 (st_offset i) g.fpu) (g.regs reg));
      }
      else g

-- For each of the first registers, in ascending order.
unfoldable pub for_below : ℕ → (ℕ → Globals → Globals) → Globals → Globals
for_below zero copy g = g
for_below (suc n) copy g = copy n (for_below n copy g)

module _ (x : Xed) where
  unfoldable pub copy_mmx_state_to_fpu : Globals → Globals
  unfolding for_below copy_mmx_to_fpu
  copy_mmx_state_to_fpu = for_below 8 (copy_mmx_to_fpu x)

  unfoldable pub copy_mmx_state_from_fpu : Globals → Globals
  unfolding for_below copy_mmx_from_fpu
  copy_mmx_state_from_fpu = for_below 8 (copy_mmx_from_fpu x)
