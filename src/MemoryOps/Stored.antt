-- ===== src/MemoryOps/Stored.antt =====
-- An operand that one instruction writes and the next one reads (`ReadMemory` and `WriteMemory` of
-- `microx/Executor.cpp`), for a client that keeps what is written.
use microx.Base.{
  ℕ, ◌*◌, ◌≡◌, ◌≢◌, refl, sym, ap, ◌∙◌, Bool, true, false, ◌||◌, ◌==◌, low_bits, to_u64, arith,
}
use microx.Xed.{Xed, Inst, Operand}
use microx.State.{Globals, Executor, State, MemRequestHint, modify, ◌>>◌}
use microx.Registers.{read_gpr}
use microx.Registers.Gpr.{read_gpr-fits}
use microx.MemoryOps.Forms.{Adjustment, below_stack, no_adjustment, adjustment0}
use microx.MemoryOps.{
  adjust, is_agen, memory_hint, mask_address, prepare_memory, fetch_memory, read_memory_operand,
  write_memory_operand,
}
use microx.MemoryOps.Address.{IsDefault, address64, read_memory_operand-address}

-- A write succeeds, and a read of the same address and size gives back what was written.
pub record KeepsMemory {W : Type 0} (e : Executor W) : Type 0 where
  pub writes : (addr size val : ℕ) (w : W) → (e.write_mem addr size val w).0 ≡ true
  pub reads_back :
      (addr size val old : ℕ) (hint : MemRequestHint) (w : W)
      → let w' = (e.write_mem addr size val w).1 in
        e.read_mem addr size hint old w' ≡ (true, low_bits size val, w')

-- The operand `gMemory[0]` of an instruction on the stack, of 8 bytes at a 64-bit address, with the
-- stack pointer as base, no index and no displacement.
pub record IsOnStack (x : Xed) (sp : ℕ) (adj : Adjustment) (op : Operand) (inst : Inst)
    (g : Globals) : Type 0 where
  pub adjusted : adjustment0 inst.iform ≡ adj
  pub address_width : inst.memop_address_width 0 ≡ 64
  pub base : inst.base_reg 0 ≡ sp
  pub not_pc : (sp == x.eip || sp == x.rip) ≡ false
  pub no_index : read_gpr x (inst.index_reg 0) g ≡ 0
  pub index_apart : x.enclosing (inst.index_reg 0) ≢ x.enclosing sp
  pub no_displacement : to_u64 (inst.memory_displacement 0) ≡ 0
  pub eight_bytes : inst.memory_operand_length 0 ≡ 8
  pub is_memory : is_agen op.name ≡ false

module _ {W : Type 0} (x : Xed) (e : Executor W) (op : Operand) where
  -- What `ReadMemory` leaves in the operand, where it accesses memory.
  fetched_size :
      (s : State W)
      → is_agen op.name ≡ false
      → (fetch_memory x e op 0 s).1.globals.memory0.size
        ≡ 8 * s.globals.xedd.memory_operand_length 0
  unfolding fetch_memory
  fetched_size s memory = rw memory refl

  fetched_present :
      (s : State W)
      → is_agen op.name ≡ false
      → ((fetch_memory x e op 0 s).1.globals.memory0.present ≡ s.globals.memory0.present)
        × ((fetch_memory x e op 0 s).1.globals.memory0.write_back ≡ s.globals.memory0.write_back)
  unfolding fetch_memory
  fetched_present s memory = rw memory (refl, refl)

  fetched_regs :
      (s : State W)
      → is_agen op.name ≡ false
      → (fetch_memory x e op 0 s).1.globals.regs ≡ s.globals.regs
  unfolding fetch_memory
  fetched_regs s memory = rw memory refl

  -- The call of `ComputeAddress`, and of `ReadMem` at an address.
  abbrev computed : State W → ℕ × W
  computed s =
      let m = s.globals.memory0 in
      e.compute_address (x.reg_name m.segment_reg) m.base m.index m.scale m.displacement m.size
        (memory_hint op) s.env

  abbrev asked_client : ℕ → State W → Bool × ℕ × W
  asked_client address s =
      e.read_mem address (8 * s.globals.xedd.memory_operand_length 0) (memory_hint op) 0
        (computed s).1

  fetched_address_lem :
      (s : State W)
      → is_agen op.name ≡ false
      → (fetch_memory x e op 0 s).1.globals.memory0.address
        ≡ mask_address (s.globals.xedd.memop_address_width 0) (computed s).0
  unfolding fetch_memory
  fetched_address_lem s memory = rw memory refl

  fetched_answer :
      (s : State W)
      → is_agen op.name ≡ false
      → let address = mask_address (s.globals.xedd.memop_address_width 0) (computed s).0 in
        ((fetch_memory x e op 0 s).0 ≡ (asked_client address s).0)
        × ((fetch_memory x e op 0 s).1.globals.memory0.contents ≡ (asked_client address s).1)
  unfolding fetch_memory
  fetched_answer s memory = rw memory (refl, refl)

  -- The client is asked at the operand's address.
  fetched_contents :
      (address : ℕ) (s : State W)
      → is_agen op.name ≡ false
      → (fetch_memory x e op 0 s).1.globals.memory0.address ≡ address
      → ((fetch_memory x e op 0 s).0 ≡ (asked_client address s).0)
        × ((fetch_memory x e op 0 s).1.globals.memory0.contents ≡ (asked_client address s).1)
  fetched_contents address s memory at =
      let (passed, contents) = fetched_answer s memory in
      let same = sym (fetched_address_lem s memory) ∙ at in
      (passed ∙ ap (λ a. (asked_client a s).0) same, contents ∙ ap (λ a. (asked_client a s).1) same)

  prepared_fields :
      (g : Globals)
      → adjustment0 g.xedd.iform ≡ below_stack
      → ((prepare_memory x op 0 g).memory0.present ≡ true)
        × ((prepare_memory x op 0 g).memory0.write_back ≡ op.written)
        × ((prepare_memory x op 0 g).xedd ≡ g.xedd)
  unfolding prepare_memory adjust
  prepared_fields g below = rw below (refl, refl, refl)

  prepared_plain :
      (g : Globals)
      → adjustment0 g.xedd.iform ≡ no_adjustment
      → ((prepare_memory x op 0 g).regs ≡ g.regs) × ((prepare_memory x op 0 g).xedd ≡ g.xedd)
  unfolding prepare_memory adjust
  prepared_plain g none = rw none (refl, refl)

  -- The operand of an instruction that stores below the stack pointer: it is to be written back, with
  -- 8 bytes.
  pub pushing_operand :
      (sp : ℕ) (s : State W)
      → IsOnStack x sp below_stack op s.globals.xedd s.globals
      → op.written ≡ true
      → let m = (read_memory_operand x e op 0 s).1.globals.memory0 in
        (m.present ≡ true) × (m.write_back ≡ true) × (m.size ≡ 64)
  unfolding read_memory_operand modify ◌>>◌
  pushing_operand sp s i written =
      let (present, back, inst) = prepared_fields s.globals i.adjusted in
      let prepared : State W = record s { globals = prepare_memory x op 0 s.globals } in
      let (kept, kept_back) = fetched_present prepared i.is_memory in
      (
        kept ∙ present,
        kept_back ∙ back ∙ written,
        fetched_size prepared i.is_memory
            ∙ ap (λ (n : Inst). 8 * n.memory_operand_length 0) inst
            ∙ rw i.eight_bytes refl,
      )

  popped_address :
      (sp : ℕ) (s : State W)
      → IsDefault e
      → IsOnStack x sp no_adjustment op s.globals.xedd s.globals
      → (read_memory_operand x e op 0 s).1.globals.memory0.address ≡ read_gpr x sp s.globals
  popped_address sp s default i =
      let fits = read_gpr-fits x sp s.globals in
      read_memory_operand-address x e op 0 s default (rw i.address_width address64) i.adjusted
      ∙ rw (i.base, i.not_pc, i.no_index, i.no_displacement, i.address_width) (omega arith)

  -- The operand of an instruction that reads the stack's top, from a client whose answer at that
  -- address is known: the read succeeds, and no register changes.
  pub popping_operand :
      (sp val : ℕ) (s : State W)
      → IsDefault e
      → IsOnStack x sp no_adjustment op s.globals.xedd s.globals
      → ((hint : MemRequestHint)
          → e.read_mem (read_gpr x sp s.globals) 64 hint 0 s.env ≡ (true, val, s.env))
      → let (passed, s') = read_memory_operand x e op 0 s in
        (passed ≡ true) × (s'.globals.memory0.contents ≡ val) × (s'.globals.regs ≡ s.globals.regs)
  unfolding read_memory_operand modify ◌>>◌
  popping_operand sp val s default i answer =
      let (regs, inst) = prepared_plain s.globals i.adjusted in
      let prepared : State W = record s { globals = prepare_memory x op 0 s.globals } in
      let at = popped_address sp s default i in
      let (passed, contents) = fetched_contents (read_gpr x sp s.globals) prepared i.is_memory at in
      let asked : asked_client (read_gpr x sp s.globals) prepared ≡ (true, val, s.env) =
        ap
          (λ (n : Inst).
            e.read_mem (read_gpr x sp s.globals) (8 * n.memory_operand_length 0) (memory_hint op) 0
              (computed prepared).1)
          inst
        ∙ ap
            (λ n.
              e.read_mem (read_gpr x sp s.globals) (8 * n) (memory_hint op) 0 (computed prepared).1)
            i.eight_bytes
        ∙ ap (λ (r : ℕ × W). e.read_mem (read_gpr x sp s.globals) 64 (memory_hint op) 0 r.1)
            (default _ _ _ _ _ _ _ s.env)
        ∙ answer (memory_hint op) in
      (
        passed ∙ ap (λ r. r.0) asked,
        contents ∙ ap (λ r. r.1) asked,
        fetched_regs prepared i.is_memory ∙ regs,
      )

-- `WriteMemory` of an operand that is to be written back, and what the client then answers.
pub writing_operand :
    {W : Type 0} (x : Xed) (e : Executor W) (s : State W)
    → KeepsMemory e
    → s.globals.memory0.present ≡ true
    → s.globals.memory0.write_back ≡ true
    → s.globals.memory0.size ≡ 64
    → let m = s.globals.memory0 in
      let (passed, s') = write_memory_operand x e 0 s in
      (passed ≡ true)
      × (s'.globals ≡ s.globals)
      × ((hint : MemRequestHint)
          → e.read_mem m.address 64 hint 0 s'.env ≡ (true, low_bits 64 m.contents, s'.env))
unfolding write_memory_operand
writing_operand x e s keeps present back size =
    let m = s.globals.memory0 in
    rw (present, back, size)
      (
        keeps.writes m.address 64 m.contents s.env,
        refl,
        λ hint. keeps.reads_back m.address 64 m.contents 0 hint s.env,
      )
