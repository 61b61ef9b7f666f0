-- ===== src/Flags.antt =====
-- The arithmetic flags (`microx/Executor.cpp`): the union `Flags`, `ParityFlag`, `UpdateFlagsSub`,
-- and the transfer of single flags from and to the client (`ReadFlags`, `WriteFlags`).
pub mod Fields
pub mod Keeps
pub mod Parity
pub mod Sub
pub mod Transfer
mod Tests
pub use Fields.*
use microx.Base.{
  ℕ, ◌/◌, ◌%◌, ◌*◌, ◌-◌, ◌^◌, Bool, true, false, not, ◌==◌, ltb, if◌then◌else◌, ◌&&◌, differs,
  of_bool, u8, u16, low_bits, store_bits, sub64, bit, set_bit, bit_and, bit_or, bit_xor, List, [],
  ◌∷◌, Option, none, some, String,
}
use microx.Xed.{Xed, SimpleFlag}
use microx.Host.{Host, shr64}
use microx.State.{Globals, Executor, State, Act, update, condition_code}
use microx.Registers.{widest_register}

-- `ParityFlag` of the low 8 bits of a result.
unfoldable pub parity_flag : ℕ → Bool
parity_flag r0 =
    let r1 = r0 / 2 in
    let r2 = r1 / 2 in
    let r3 = r2 / 2 in
    let r4 = r3 / 2 in
    let r5 = r4 / 2 in
    let r6 = r5 / 2 in
    let r7 = r6 / 2 in
    bit_and 1
      (bit_xor (bit_xor (bit_xor (bit_xor (bit_xor (bit_xor (bit_xor r0 r1) r2) r3) r4) r5) r6) r7)
    == 0

-- `UpdateFlagsSub`. The sign bits are shifted down by `sign_shift`, as in the source.
pub update_flags_sub : Host → ℕ → ℕ → ℕ → ℕ → ℕ → ℕ
unfolding shr64 parity_flag
update_flags_sub h lhs rhs res size flags =
    let sign_shift = 2 ^ (size - 1) in
    let sign_lhs = shr64 h lhs sign_shift % 2 in
    let sign_rhs = shr64 h rhs sign_shift % 2 in
    let sign_res = shr64 h res sign_shift % 2 in
    let sf = set_bit sf_bit (sign_res == 1) flags in
    let cf = set_bit cf_bit (ltb lhs rhs) sf in
    let of = set_bit of_bit (not (sign_lhs == sign_rhs) && not (sign_lhs == sign_res)) cf in
    let zf = set_bit zf_bit (res == 0) of in
    let af = set_bit af_bit (not (bit_and (bit_xor (bit_xor res lhs) rhs) 0x10 == 0)) zf in
    set_bit pf_bit (parity_flag (u8 res)) af

-- The flags that are transferred, in the order of `READ_FLAG` and `WRITE_FLAG`.
abbrev pub flag_order : List (ℕ × String)
flag_order =
    (cf_bit, "CF")
    ∷ (pf_bit, "PF")
    ∷ (af_bit, "AF")
    ∷ (zf_bit, "ZF")
    ∷ (sf_bit, "SF")
    ∷ (df_bit, "DF")
    ∷ (of_bit, "OF")
    ∷ []

module _ {W : Type 0} (x : Xed) (e : Executor W) where
  -- `READ_FLAG` for each flag of a list: the flags so far, `flag_val`, the client.
  unfoldable pub read_flag_list : List (ℕ × String) → ℕ → ℕ → ℕ → W → Bool × ℕ × W
  read_flag_list [] wanted aflag flag_val env = (true, aflag, env)
  read_flag_list ((k, name) ∷ rest) wanted aflag flag_val env =
      let (passed, val, env') = e.read_reg name 1 condition_code flag_val env in
      let found =
        read_flag_list rest wanted (set_bit k (bit 0 val) aflag) (store_bits 8 0 val) env' in
      let other = read_flag_list rest wanted aflag flag_val env in
      if bit k wanted then (if passed then found else (false, aflag, env')) else other

  -- The mask of the flags that must be requested.
  unfoldable pub read_mask : SimpleFlag → ℕ
  read_mask info =
      if info.may_write
      then bit_or (u16 info.flags_read) info.flags_written
      else u16 info.flags_read

  abbrev pub mark_flags : SimpleFlag → Globals → Globals
  mark_flags info g =
      let flags_reg = widest_register x e x.eflags in
      let back = u16 info.flags_written in
      record g {
        write_back_flags = back;
        used_regs = update g.used_regs flags_reg true;
        modified_regs =
            (if back == 0 then g.modified_regs else update g.modified_regs flags_reg true);
      }

  unfoldable pub read_flags_of : Host → Option SimpleFlag → Act W
  read_flags_of h none s =
      (true, record s { globals = record (s.globals) { write_back_flags = 0 } })
  read_flags_of h (some info) s =
      let g = mark_flags info s.globals in
      let (passed, aflag, env) =
        read_flag_list flag_order (read_mask info) h.native_flags 0 s.env in
      let flags = store_bits 64 aflag (g.regs x.rflags) in
      (
        passed,
        record s {
          globals = if passed then record g { regs = update g.regs x.rflags flags } else g;
          env = env;
        },
      )

  unfoldable pub read_flags : Host → Act W
  read_flags h s = read_flags_of h s.globals.xedd.rflags_info s

  -- `WRITE_FLAG` for each flag of a list.
  unfoldable pub write_flag_list : List (ℕ × String) → ℕ → ℕ → ℕ → W → Bool × W
  write_flag_list [] back aflag flag_val env = (true, env)
  write_flag_list ((k, name) ∷ rest) back aflag flag_val env =
      let val = store_bits 8 (of_bool (bit k aflag)) flag_val in
      let (passed, env') = e.write_reg name 1 val env in
      let next = write_flag_list rest back aflag (store_bits 8 0 val) env' in
      let other = write_flag_list rest back aflag flag_val env in
      if bit k back then (if passed then next else (false, env')) else other

  unfoldable pub write_flags : Act W
  write_flags s =
      let g = s.globals in
      let flags_reg = widest_register x e x.eflags in
      let g' = record g {
        used_regs = update g.used_regs flags_reg false;
        modified_regs = update g.modified_regs flags_reg false;
      } in
      let (passed, env) =
        write_flag_list flag_order g.write_back_flags (low_bits 64 (g.regs x.rflags)) 0 s.env in
      if g.modified_regs flags_reg
      then (
        passed,
        record s {
          globals = (if passed then record g' { write_back_flags = 0 } else g');
          env = env;
        },
      )
      else (true, s)
