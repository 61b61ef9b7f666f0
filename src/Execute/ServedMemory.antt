-- ===== src/Execute/ServedMemory.antt =====
-- The actions of `Execute` on flags and memory, with a client whose methods succeed
-- (`microx/Executor.cpp`).
use microx.Base.{
  ℕ, refl, not, bit, of_bool, set_bit, store_bits, low_bits, Bool-cases, inl, inr, List, [], ◌∷◌,
  String, Option, none, some, ◌||◌,
}
use microx.Xed.{Xed, Operand, OperandName, agen, mem0, mem1, SimpleFlag}
use microx.Host.{Host}
use microx.State.{Executor, condition_code}
use microx.State.Serves.{Served, ServesCalls, Serves, Serves-done, serve_rules}
use microx.Registers.{widest_register}
use microx.Flags.{
  read_flag_list, flag_order, read_flags_of, read_flags, write_flag_list, write_flags,
}
use microx.MemoryOps.{
  is_agen, memory_at, fetch_memory, read_memory_operand, read_memory_named, read_memory_operands,
  read_memory, write_memory_operand, write_memory,
}

module _ {W : Type 0} (I : W → Type 0) (x : Xed) (e : Executor W) {clear : W → W}
    (r : ServesCalls I e clear) where
  -- `ReadFlags` and `WriteFlags`.
  read_flag_list_serves :
      (flags : List (ℕ × String)) (wanted aflag val : ℕ) (w : W)
      → I w
      → let (passed, aflag', w') = read_flag_list x e flags wanted aflag val w in
        Served I (passed, w')
  unfolding read_flag_list
  read_flag_list_serves [] wanted aflag val w i = (refl, i)
  read_flag_list_serves ((k, name) ∷ flags) wanted aflag val w i =
      let (passed, val', w') = e.read_reg name 1 condition_code val w in
      let (served, i') = r.serves_read_reg name 1 condition_code val w i in
      elim (Bool-cases (bit k wanted)) [
        | inl y ↦
            rw (y, served)
              (read_flag_list_serves flags wanted (set_bit k (bit 0 val') aflag)
                (store_bits 8 0 val') w' i')
        | inr n ↦ rw n (read_flag_list_serves flags wanted aflag val w i)
      ]

  read_flags_of-Serves : (h : Host) (info : Option SimpleFlag) → Serves I (read_flags_of x e h info)
  unfolding read_flags_of
  read_flags_of-Serves h none = record { serves = λ s i. (refl, i) }
  read_flags_of-Serves h (some info) = record {
    serves = λ s i. read_flag_list_serves _ _ _ _ s.env i;
  }

  pub read_flags-Serves : (h : Host) → Serves I (read_flags x e h)
  unfolding read_flags
  read_flags-Serves h = record {
    serves = λ s i. (read_flags_of-Serves h s.globals.xedd.rflags_info).serves s i;
  }

  write_flag_list_serves :
      (flags : List (ℕ × String)) (back aflag val : ℕ) (w : W)
      → I w
      → Served I (write_flag_list x e flags back aflag val w)
  unfolding write_flag_list
  write_flag_list_serves [] back aflag val w i = (refl, i)
  write_flag_list_serves ((k, name) ∷ flags) back aflag val w i =
      let set = store_bits 8 (of_bool (bit k aflag)) val in
      let (served, i') = r.serves_write_reg name 1 set w i in
      elim (Bool-cases (bit k back)) [
        | inl y ↦ rw (y, served) (write_flag_list_serves flags back aflag (store_bits 8 0 set) _ i')
        | inr n ↦ rw n (write_flag_list_serves flags back aflag val w i)
      ]

  pub write_flags-Serves : Serves I (write_flags x e)
  unfolding write_flags
  write_flags-Serves = record {
    serves = λ s i.
        let flags =
          write_flag_list_serves flag_order s.globals.write_back_flags
            (low_bits 64 (s.globals.regs x.rflags)) 0 s.env i in
        elim (Bool-cases (s.globals.modified_regs (widest_register x e x.eflags))) [
          | inl y ↦ rw y flags
          | inr n ↦ rw n (refl, i)
        ];
  }

  -- `ReadMemory` and `WriteMemory`.
  fetch_memory-Serves : (op : Operand) (i : ℕ) → Serves I (fetch_memory x e op i)
  unfolding fetch_memory
  fetch_memory-Serves op i = record {
    serves = λ s k.
        let k' = r.serves_address _ _ _ _ _ _ _ _ k in
        elim (Bool-cases (is_agen op.name)) [
          | inl y ↦ rw y (refl, k')
          | inr n ↦ rw n (r.serves_read_mem _ _ _ _ _ k')
        ];
  }

  read_memory_operand-Serves : (op : Operand) (i : ℕ) → Serves I (read_memory_operand x e op i)
  unfolding read_memory_operand
  read_memory_operand-Serves op i = search (serve_rules, fetch_memory-Serves)

  read_memory_named-Serves :
      (name : OperandName) (op : Operand) → Serves I (read_memory_named x e name op)
  read_memory_named-Serves agen op = read_memory_operand-Serves op 0
  read_memory_named-Serves mem0 op = read_memory_operand-Serves op 0
  read_memory_named-Serves mem1 op = read_memory_operand-Serves op 1
  read_memory_named-Serves _ op = Serves-done

  read_memory_operands-Serves : (ops : List Operand) → Serves I (read_memory_operands x e ops)
  unfolding read_memory_operands
  read_memory_operands-Serves [] = Serves-done
  read_memory_operands-Serves (op ∷ ops) =
      search (serve_rules, read_memory_named-Serves op.name op, read_memory_operands-Serves ops)

  pub read_memory-Serves : Serves I (read_memory x e)
  unfolding read_memory
  read_memory-Serves = search (serve_rules, read_memory_operands-Serves)

  write_memory_operand-Serves : (i : ℕ) → Serves I (write_memory_operand x e i)
  unfolding write_memory_operand
  write_memory_operand-Serves i = record {
    serves = λ s k.
        let m = memory_at i s.globals in
        elim (Bool-cases (not m.present || not m.write_back)) [
          | inl y ↦ rw y (refl, k)
          | inr n ↦ rw n (r.serves_write_mem m.address m.size m.contents s.env k)
        ];
  }

  pub write_memory-Serves : Serves I (write_memory x e)
  unfolding write_memory
  write_memory-Serves = search (serve_rules, write_memory_operand-Serves)
