-- ===== src/Flags/Transfer.antt =====
-- The transfer of single flags from and to the client.
use microx.Base.{
  ap, ◌∙◌, ℕ, ◌≡◌, refl, Bool, true, false, ◌&&◌, ◌==◌, if◌then◌else◌, of_bool, low_bits,
  store_bits, bit, set_bit, bit-set_bit, List, [], ◌∷◌, Option, none, some, String, arith,
}
use microx.Xed.{Xed, SimpleFlag}
use microx.Host.{Host}
use microx.State.{Executor, Globals, State, update, condition_code}
use microx.Registers.{widest_register}
use microx.Flags.{
  mark_flags, read_mask, read_flags, read_flags_of, flag_order, read_flag_list, write_flag_list,
  write_flags,
}

-- The name under which a bit was requested last, if it was.
unfoldable pub asked : List (ℕ × String) → ℕ → ℕ → Option String
asked [] wanted j = none
asked ((k, name) ∷ rest) wanted j = elim (asked rest wanted j) [
  | some later ↦ some later
  | none ↦ if bit k wanted && j == k then some name else none
]

-- The bit that a client answers, or the one there was.
abbrev pub answered : (String → ℕ) → Option String → Bool → Bool
answered answers none old = old
answered answers (some name) old = bit 0 (answers name)

-- The flags to write, by name, with their values.
unfoldable pub planned : List (ℕ × String) → ℕ → ℕ → List (String × ℕ)
planned [] back aflag = []
planned ((k, name) ∷ rest) back aflag =
    let others = planned rest back aflag in
    if bit k back then (name, of_bool (bit k aflag)) ∷ others else others

module _ {W : Type 0} (x : Xed) (e : Executor W) where
  read_flag_list_bits :
      (answers : String → ℕ)
      → ((name : String) (val : ℕ) (w : W)
          → e.read_reg name 1 condition_code val w ≡ (true, answers name, w))
      → (flags : List (ℕ × String)) (wanted aflag val j : ℕ) (w : W)
      → bit j (read_flag_list x e flags wanted aflag val w).1
        ≡ answered answers (asked flags wanted j) (bit j aflag)
  unfolding read_flag_list asked
  read_flag_list_bits answers client [] wanted aflag val j w = refl
  read_flag_list_bits answers client ((k, name) ∷ rest) wanted aflag val j w = ground (
    arith,
    client name val w,
    bit-set_bit j k aflag (bit 0 (answers name)),
    read_flag_list_bits answers client rest wanted aflag val j w,
    read_flag_list_bits answers client rest wanted (set_bit k (bit 0 (answers name)) aflag)
        (store_bits 8 0 (answers name)) j w,
  )

  -- The writes of a list one after the other, until one fails.
  unfoldable pub write_all : List (String × ℕ) → W → Bool × W
  write_all [] env = (true, env)
  write_all ((name, val) ∷ rest) env =
      let (passed, env') = e.write_reg name 1 val env in
      let others = write_all rest env' in if passed then others else (false, env')

  one_byte : (b : Bool) → store_bits 8 (of_bool b) 0 ≡ of_bool b
  one_byte true = omega arith
  one_byte false = omega arith

  no_byte : (b : Bool) → store_bits 8 0 (of_bool b) ≡ 0
  no_byte true = omega arith
  no_byte false = omega arith

  write_flag_list-planned :
      (flags : List (ℕ × String)) (back aflag : ℕ) (env : W)
      → write_flag_list x e flags back aflag 0 env ≡ write_all (planned flags back aflag) env
  unfolding write_flag_list planned write_all
  write_flag_list-planned [] back aflag env = refl
  write_flag_list-planned ((k, name) ∷ rest) back aflag env =
      rw (one_byte (bit k aflag), no_byte (bit k aflag))
        (ground (
          arith,
          write_flag_list-planned rest back aflag env,
          write_flag_list-planned rest back aflag
              (e.write_reg name 1 (of_bool (bit k aflag)) env).1,
        ))

  read_flag_list_passes :
      (answers : String → ℕ)
      → ((name : String) (val : ℕ) (w : W)
          → e.read_reg name 1 condition_code val w ≡ (true, answers name, w))
      → (flags : List (ℕ × String)) (wanted aflag val : ℕ) (w : W)
      → (read_flag_list x e flags wanted aflag val w).0 ≡ true
  unfolding read_flag_list
  read_flag_list_passes answers client [] wanted aflag val w = refl
  read_flag_list_passes answers client ((k, name) ∷ rest) wanted aflag val w = ground (
    arith,
    client name val w,
    read_flag_list_passes answers client rest wanted aflag val w,
    read_flag_list_passes answers client rest wanted (set_bit k (bit 0 (answers name)) aflag)
        (store_bits 8 0 (answers name)) w,
  )

  -- With a client whose answers are fixed, `ReadFlags` of an instruction that uses flags succeeds
  -- and stores a flags word in the register file: in it each flag that is requested, one that the
  -- instruction reads, or also writes if it need not, is the lowest bit of the client's answer, and
  -- every other bit is the native one.
  pub read_flags-answered :
      (answers : String → ℕ) (h : Host) (info : SimpleFlag) (s : State W)
      → ((name : String) (val : ℕ) (w : W)
          → e.read_reg name 1 condition_code val w ≡ (true, answers name, w))
      → s.globals.xedd.rflags_info ≡ some info
      → (aflag : ℕ) × ((read_flags x e h s).0 ≡ true)
        × ((read_flags x e h s).1.globals.regs x.rflags
            ≡ store_bits 64 aflag (s.globals.regs x.rflags))
        × ((j : ℕ)
            → bit j aflag
              ≡ answered answers (asked flag_order (read_mask x e info) j) (bit j h.native_flags))
  unfolding read_flags read_flags_of
  read_flags-answered answers h info s client uses =
      let g = mark_flags x e info s.globals in
      let read = read_flag_list x e flag_order (read_mask x e info) h.native_flags 0 s.env in
      let passes =
        read_flag_list_passes answers client flag_order (read_mask x e info) h.native_flags 0
          s.env in
      (
        read.1,
        ap (λ (found : Option SimpleFlag). (read_flags_of x e h found s).0) uses ∙ passes,
        ap (λ (found : Option SimpleFlag). (read_flags_of x e h found s).1.globals.regs x.rflags)
              uses
            ∙ ground (arith, passes),
        λ j.
            read_flag_list_bits answers client flag_order (read_mask x e info) h.native_flags 0 j
              s.env,
      )

  -- The globals after the flags are sent, of which the last is reached or not.
  abbrev pub flags_written : Bool → Globals → Globals
  flags_written finished g =
      let flags_reg = widest_register x e x.eflags in
      record g {
        used_regs = λ r. if r == flags_reg then false else g.used_regs r;
        modified_regs = λ r. if r == flags_reg then false else g.modified_regs r;
        write_back_flags = if finished then 0 else g.write_back_flags;
      }

  flags_written_lem :
      (finished : Bool) (g : Globals)
      → let flags_reg = widest_register x e x.eflags in
        let g' = record g {
          used_regs = update g.used_regs flags_reg false;
          modified_regs = update g.modified_regs flags_reg false;
        } in
        (if finished then record g' { write_back_flags = 0 } else g') ≡ flags_written finished g
  flags_written_lem true g = refl
  flags_written_lem false g = refl

  -- If the flags register is modified, `WriteFlags` writes, under their own names, exactly the flags
  -- that the instruction wrote, in the order CF, PF, AF, ZF, SF, DF, OF, until a write fails, each as
  -- one byte with the flag's value. Of the globals it changes this: the flags register, and no other,
  -- is neither used nor modified any more, and no flag is left to be written if every write succeeded.
  -- If the flags register is not modified, it succeeds and changes nothing at all.
  pub write_flags-planned :
      (s : State W)
      → let g = s.globals in
        let (finished, env) =
          write_all (planned flag_order g.write_back_flags (low_bits 64 (g.regs x.rflags))) s.env in
        write_flags x e s ≡ (
          if g.modified_regs (widest_register x e x.eflags)
          then (finished, record s { globals = flags_written finished g; env = env })
          else (true, s))
  unfolding write_flags
  write_flags-planned s =
      let g = s.globals in
      let sent =
        write_flag_list-planned flag_order g.write_back_flags (low_bits 64 (g.regs x.rflags))
          s.env in
      let flags_reg = widest_register x e x.eflags in
      let g' = record g {
        used_regs = update g.used_regs flags_reg false;
        modified_regs = update g.modified_regs flags_reg false;
      } in
      let r =
        write_all (planned flag_order g.write_back_flags (low_bits 64 (g.regs x.rflags))) s.env in
      ap
        (λ (q : Bool × W).
          if g.modified_regs flags_reg
          then (
            q.0,
            record s {
              globals = (if q.0 then record g' { write_back_flags = 0 } else g');
              env = q.1;
            },
          )
          else (true, s))
        sent
      ∙ ap
          (λ (g'' : Globals).
            if g.modified_regs flags_reg
            then (r.0, record s { globals = g''; env = r.1 })
            else (true, s))
          (flags_written_lem r.0 g)
