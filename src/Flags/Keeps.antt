-- ===== src/Flags/Keeps.antt =====
-- `ReadFlags`, and predicates on the client's state.
use microx.Base.{ℕ, arith, set_bit, store_bits, List, [], ◌∷◌, String, Option, none, some, bit}
use microx.Xed.{Xed, SimpleFlag}
use microx.Host.{Host}
use microx.State.{Executor, condition_code}
use microx.State.Keeps.{ReadsKeep, Keeps}
use microx.Flags.{read_flag_list, read_flags_of, read_flags}

module _ {W : Type 0} (I : W → Type 0) (x : Xed) (e : Executor W) {clear : W → W}
    (r : ReadsKeep I e clear) where
  read_flag_list_keeps :
      (flags : List (ℕ × String)) (wanted aflag val : ℕ) (w : W)
      → I w
      → I (read_flag_list x e flags wanted aflag val w).2
  unfolding read_flag_list
  read_flag_list_keeps [] wanted aflag val w k = k
  read_flag_list_keeps ((b, name) ∷ flags) wanted aflag val w k =
      let (passed, val', w') = e.read_reg name 1 condition_code val w in
      let k' : I w' = r.read_reg_keeps name 1 condition_code val w k in
      ground (
        arith,
        read_flag_list_keeps flags wanted aflag val w k,
        read_flag_list_keeps flags wanted (set_bit b (bit 0 val') aflag) (store_bits 8 0 val') w'
            k',
      )

  read_flags_of-Keeps : (h : Host) (info : Option SimpleFlag) → Keeps I (read_flags_of x e h info)
  unfolding read_flags_of
  read_flags_of-Keeps h none = record { keeps = λ s k. k }
  read_flags_of-Keeps h (some info) = record { keeps = λ s k. read_flag_list_keeps _ _ _ _ s.env k }

  pub read_flags-Keeps : (h : Host) → Keeps I (read_flags x e h)
  unfolding read_flags
  read_flags-Keeps h = record {
    keeps = λ s k. (read_flags_of-Keeps h s.globals.xedd.rflags_info).keeps s k;
  }
