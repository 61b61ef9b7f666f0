-- ===== src/MemoryOps/Address.antt =====
-- The address of a memory operand, for a client with the default `ComputeAddress`.
use mathlib.Core.Path.{subst}
use microx.Base.{
  ℕ, ◌+◌, ◌*◌, ◌/◌, ◌%◌, ◌^◌, ◌≡◌, refl, sym, ap, ◌∙◌, arith, Bool, true, false, ◌||◌, ◌==◌,
  if◌then◌else◌, u64, sub64, to_u64, String,
}
use microx.Xed.{Xed, Inst, Operand}
use microx.State.{Memory, Globals, Executor, State, MemRequestHint, modify, ◌>>◌}
use microx.Registers.{read_gpr}
use microx.MemoryOps.Forms.{Adjustment, no_adjustment, below_stack, adjustment0, adjustment1}
use microx.MemoryOps.{
  compute_address, memory_at, set_memory_at, mask_address, memory_base, adjust, prepare_memory,
  fetch_memory, read_memory_operand, is_agen, memory_hint,
}

-- `ComputeAddress` is not overridden.
abbrev pub IsDefault : {W : Type 0} → Executor W → Type 0
IsDefault {W} e =
    (seg_name : String) (base index scale displacement size : ℕ) (hint : MemRequestHint) (env : W)
    → e.compute_address seg_name base index scale displacement size hint env
      ≡ (compute_address seg_name base index scale displacement size hint, env)

-- The widths of addresses.
pub data IsAddressWidth : ℕ → Type 0 where
  address16 : IsAddressWidth 16
  address32 : IsAddressWidth 32
  address64 : IsAddressWidth 64

-- The adjustment of operand `i`.
abbrev pub adjustment_of : ℕ → Inst → Adjustment
adjustment_of i inst = if i == 0 then adjustment0 inst.iform else adjustment1 inst.iform

-- Where the addresses of an operand start: after the instruction, if relative to its end.
abbrev pub start_of : Xed → ℕ → Globals → ℕ
start_of x i g =
    let reg = g.xedd.base_reg i in
    read_gpr x reg g + (if reg == x.eip || reg == x.rip then g.xedd.inst_length else 0)

memory_at-set_memory_at : (i : ℕ) (m : Memory) (g : Globals) → memory_at i (set_memory_at i m g) ≡ m
memory_at-set_memory_at i m g = by_bool (i == 0)
  where
    by_bool :
        (b : Bool)
        → (let g' = if b then record g { memory0 = m } else record g { memory1 = m } in
            if b then g'.memory0 else g'.memory1)
          ≡ m
    by_bool true = refl
    by_bool false = refl

xedd-set_memory_at : (i : ℕ) (m : Memory) (g : Globals) → (set_memory_at i m g).xedd ≡ g.xedd
xedd-set_memory_at i m g = by_bool (i == 0)
  where
    by_bool :
        (b : Bool)
        → (if b then record g { memory0 = m } else record g { memory1 = m }).xedd ≡ g.xedd
    by_bool true = refl
    by_bool false = refl

masked : (w a : ℕ) → IsAddressWidth w → mask_address w (u64 a) ≡ a % 2 ^ w
unfolding mask_address
masked _ a address16 = omega arith
masked _ a address32 = omega arith
masked _ a address64 = omega arith

module _ {W : Type 0} (x : Xed) (e : Executor W) where
  -- The address of operand `i` in a state.
  abbrev pub address_in : ℕ → State W → ℕ
  address_in i s = (memory_at i s.globals).address

  abbrev pub read_address : Operand → ℕ → State W → ℕ
  read_address op i s = address_in i (read_memory_operand x e op i s).1

  either :
      (i v : ℕ) (b : Bool) (p q : Bool × State W)
      → address_in i p.1 ≡ v
      → address_in i q.1 ≡ v
      → address_in i (if b then p else q).1 ≡ v
  either i v true p q l r = l
  either i v false p q l r = r

  -- What `ComputeAddress` adds up.
  abbrev pub effective : Memory → ℕ
  effective m = m.base + m.index * m.scale + m.displacement

  fetched_address :
      (op : Operand) (i : ℕ) (s : State W)
      → IsDefault e
      → IsAddressWidth (s.globals.xedd.memop_address_width i)
      → address_in i (fetch_memory x e op i s).1
        ≡ effective (memory_at i s.globals) % 2 ^ s.globals.xedd.memop_address_width i
  unfolding fetch_memory compute_address
  fetched_address op i s default width =
      let m = memory_at i s.globals in
      let w = s.globals.xedd.memop_address_width i in
      let computed =
        ap (λ (c : ℕ × W). mask_address w c.0)
          (default (x.reg_name m.segment_reg) m.base m.index m.scale m.displacement m.size
            (memory_hint op) s.env)
        ∙ masked w (effective m) width in
      either i _ (is_agen op.name) _ _
        (ap (λ m. m.address) (memory_at-set_memory_at i _ s.globals) ∙ computed)
        (ap (λ m. m.address) (memory_at-set_memory_at i _ s.globals) ∙ computed)

  -- The sum for an operand whose displacement is adjusted to `disp`, nothing else being changed.
  prepared :
      (op : Operand) (i disp : ℕ) (g : Globals)
      → adjust x
          (adjustment_of i g.xedd)
          (g.xedd.base_reg i)
          (to_u64 (g.xedd.memory_displacement i))
          g
        ≡ (disp, g)
      → effective (memory_at i (prepare_memory x op i g))
        ≡ memory_base x g.xedd (g.xedd.base_reg i) g
          + read_gpr x (g.xedd.index_reg i) g * g.xedd.scale i
          + disp
  unfolding prepare_memory
  prepared op i disp g adjusted = rw adjusted (ap effective (memory_at-set_memory_at i _ g))

  prepared_width :
      (op : Operand) (i disp : ℕ) (g : Globals)
      → adjust x
          (adjustment_of i g.xedd)
          (g.xedd.base_reg i)
          (to_u64 (g.xedd.memory_displacement i))
          g
        ≡ (disp, g)
      → (prepare_memory x op i g).xedd ≡ g.xedd
  unfolding prepare_memory
  prepared_width op i disp g adjusted = rw adjusted (xedd-set_memory_at i _ g)

  starts :
      (w i rest : ℕ) (g : Globals)
      → IsAddressWidth w
      → (memory_base x g.xedd (g.xedd.base_reg i) g + rest) % 2 ^ w
        ≡ (start_of x i g + rest) % 2 ^ w
  unfolding memory_base
  starts _ i rest g address16 = ground arith
  starts _ i rest g address32 = ground arith
  starts _ i rest g address64 = ground arith

  adjusted_address :
      (op : Operand) (i disp : ℕ) (s : State W)
      → IsDefault e
      → IsAddressWidth (s.globals.xedd.memop_address_width i)
      → adjust x
          (adjustment_of i s.globals.xedd)
          (s.globals.xedd.base_reg i)
          (to_u64 (s.globals.xedd.memory_displacement i))
          s.globals
        ≡ (disp, s.globals)
      → read_address op i s
        ≡ (start_of x i s.globals
            + (read_gpr x (s.globals.xedd.index_reg i) s.globals * s.globals.xedd.scale i + disp))
          % 2 ^ s.globals.xedd.memop_address_width i
  unfolding read_memory_operand modify ◌>>◌
  adjusted_address op i disp s default width adjusted =
      let g = s.globals in
      let g' = prepare_memory x op i g in
      let same = prepared_width op i disp g adjusted in
      let rest = read_gpr x (g.xedd.index_reg i) g * g.xedd.scale i + disp in
      fetched_address op i (record s { globals = g' }) default
        (subst (λ (inst : Inst). IsAddressWidth (inst.memop_address_width i)) (sym same) width)
      ∙ ap (λ (inst : Inst). effective (memory_at i g') % 2 ^ inst.memop_address_width i) same
      ∙ ap (λ a. a % 2 ^ g.xedd.memop_address_width i) (prepared op i disp g adjusted ∙ omega arith)
      ∙ starts (g.xedd.memop_address_width i) i rest g width

-- For a client that does not override `ComputeAddress`, and an instruction form that does not
-- adjust the operand `i`: whatever the access to memory answers, the operand's address is base plus
-- scaled index plus displacement, counted from the instruction's end if the base is the program
-- counter, modulo 2^16, 2^32 or 2^64 as the address's width says.
pub read_memory_operand-address :
    {W : Type 0} (x : Xed) (e : Executor W) (op : Operand) (i : ℕ) (s : State W)
    → IsDefault e
    → IsAddressWidth (s.globals.xedd.memop_address_width i)
    → adjustment_of i s.globals.xedd ≡ no_adjustment
    → read_address x e op i s
      ≡ (start_of x i s.globals
          + (read_gpr x (s.globals.xedd.index_reg i) s.globals * s.globals.xedd.scale i
              + to_u64 (s.globals.xedd.memory_displacement i)))
        % 2 ^ s.globals.xedd.memop_address_width i
unfolding adjust
read_memory_operand-address x e op i s default width none =
    adjusted_address x e op i (to_u64 (s.globals.xedd.memory_displacement i)) s default width
      (rw none refl)

-- For the same client, an instruction form that stores below the stack pointer, and an operand
-- whose base is a stack pointer of 64 bits, with no index and no displacement: the operand's
-- address is the stack pointer less the operand's size.
pub read_memory_operand-below_stack :
    {W : Type 0} (x : Xed) (e : Executor W) (op : Operand) (i : ℕ) (s : State W)
    → IsDefault e
    → s.globals.xedd.memop_address_width i ≡ 64
    → adjustment_of i s.globals.xedd ≡ below_stack
    → (s.globals.xedd.base_reg i == x.eip || s.globals.xedd.base_reg i == x.rip) ≡ false
    → read_gpr x (s.globals.xedd.index_reg i) s.globals ≡ 0
    → to_u64 (s.globals.xedd.memory_displacement i) ≡ 0
    → read_address x e op i s
      ≡ sub64 (read_gpr x (s.globals.xedd.base_reg i) s.globals) (s.globals.operand_width / 8)
unfolding adjust
read_memory_operand-below_stack x e op i s default width below not_pc index disp =
    adjusted_address x e op i (sub64 0 (s.globals.operand_width / 8)) s default (rw width address64)
      (rw (below, disp) refl)
    ∙ rw (not_pc, index, width) (omega arith)
