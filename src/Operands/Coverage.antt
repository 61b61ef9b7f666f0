-- ===== src/Operands/Coverage.antt =====
-- Which register operands `ReadRegisters` reads and marks.
use microx.Base.{
  ℕ, ◌≡◌, refl, Bool, true, false, not, ◌&&◌, ◌||◌, ◌==◌, differs, if◌then◌else◌, List, [], ◌∷◌,
  arith, &&-intro, &&-left, &&-right,
}
use microx.Xed.{Xed, Inst, Operand}
use microx.State.{
  Globals, Executor, State, Act, done, ◌>>◌, reading, RegRequestHint, general, write_back,
}
use microx.Registers.Tracking.{Progress, target, is_requested, is_write_back, read_register_records}
use microx.Operands.{
  is_register, read_operand, read_operands, read_registers, read_address_registers,
}
use microx.Operands.Progress.{
  Progresses->>, read_address_registers-Progresses, read_operands-Progresses,
}

imply : (a b : Bool) → (a ≡ true → b ≡ true) → (not a || b) ≡ true
imply true b h = h refl
imply false b h = refl

implied : (a b : Bool) → (not a || b) ≡ true → a ≡ true → b ≡ true
implied true b h e = h
implied false b h e = cc

module _ {W : Type 0} (x : Xed) (e : Executor W) where
  -- Whether an operand names a register that the client is asked for.
  abbrev pub is_register_operand : Inst → Operand → Bool
  is_register_operand inst op =
      is_register op.name
      && not (inst.get_reg op.name == 0)
      && is_requested x (inst.get_reg op.name)

  -- The register is used, and modified if the operand is written.
  abbrev pub is_recorded : Inst → Globals → Operand → Bool
  is_recorded inst g op =
      let reg = target x e (inst.get_reg op.name) in
      g.used_regs reg && (not op.written || g.modified_regs reg)

  -- Nothing is asked of an operand of the other kind, or that names no such register.
  unfoldable pub is_covered : Bool → Inst → Operand → Globals → Bool
  is_covered written inst op g =
      differs written op.written || not (is_register_operand inst op) || is_recorded inst g op

  abbrev pub all_covered : Bool → Inst → List Operand → Globals → Bool
  all_covered written inst [] g = true
  all_covered written inst (op ∷ ops) g =
      is_covered written inst op g && all_covered written inst ops g

  is_covered-Progress :
      (written : Bool) (inst : Inst) (op : Operand) {g g' : Globals}
      → Progress g g'
      → is_covered written inst op g ≡ true
      → is_covered written inst op g' ≡ true
  unfolding is_covered
  is_covered-Progress written inst op p h =
      let reg = target x e (inst.get_reg op.name) in
      ground (arith, p.used_grows reg, p.modified_grows reg)

  all_covered-Progress :
      (written : Bool) (inst : Inst) (ops : List Operand) {g g' : Globals}
      → Progress g g'
      → all_covered written inst ops g ≡ true
      → all_covered written inst ops g' ≡ true
  all_covered-Progress written inst [] p h = refl
  all_covered-Progress written inst (op ∷ ops) p h =
      &&-intro _ _ (is_covered-Progress written inst op p (&&-left _ _ h))
        (all_covered-Progress written inst ops p (&&-right _ _ h))

  read_operand_covered :
      (written : Bool) (hint : RegRequestHint) (inst : Inst) (op : Operand) (s : State W)
      → is_write_back hint ≡ written
      → is_covered written inst op
          ((if differs written op.written then done else read_operand x e inst op.name hint)
            s).1.globals
        ≡ true
  unfolding read_operand is_covered
  read_operand_covered written hint inst op s h =
      ground (arith, read_register_records x e (inst.get_reg op.name) hint s)

  read_operands_covered :
      (written : Bool) (hint : RegRequestHint) (inst : Inst) (ops : List Operand) (s : State W)
      → is_write_back hint ≡ written
      → (read_operands x e written hint inst ops s).0 ≡ true
      → all_covered written inst ops (read_operands x e written hint inst ops s).1.globals ≡ true
  unfolding read_operands ◌>>◌
  read_operands_covered written hint inst [] s w h = refl
  read_operands_covered written hint inst (op ∷ ops) s w h = ground (
    arith,
    read_operand_covered written hint inst op s w,
    read_operands_covered written hint inst ops (first op s).1 w,
    is_covered-Progress written inst op
        ((read_operands-Progresses x e written hint inst ops).progress (first op s).1),
  )
    where
      first : Operand → Act W
      first op = if differs written op.written then done else read_operand x e inst op.name hint

  -- The three passes of `ReadRegisters`, from one state.
  passes_covered :
      (inst : Inst) (ops : List Operand) (s : State W)
      → let m =
          read_address_registers x e inst ops 0
          >> read_operands x e false general inst ops
          >> read_operands x e true write_back inst ops in
        (m s).0 ≡ true
        → (all_covered false inst ops (m s).1.globals ≡ true)
          × (all_covered true inst ops (m s).1.globals ≡ true)
  unfolding ◌>>◌
  passes_covered inst ops s h =
      let s1 = (read_address_registers x e inst ops 0 s).1 in
      let s2 = (read_operands x e false general inst ops s1).1 in
      ground (
        arith,
        read_operands_covered false general inst ops s1 refl,
        read_operands_covered true write_back inst ops s2 refl,
        all_covered-Progress false inst ops
            ((read_operands-Progresses x e true write_back inst ops).progress s2),
      )

  -- When `ReadRegisters` succeeds, every register operand of the instruction that is not kept on
  -- the x87 stack has been read under its widest register, and every one that the instruction
  -- writes is also marked as modified.
  pub read_registers_cover :
      (s : State W)
      → (read_registers x e s).0 ≡ true
      → let inst = s.globals.xedd in
        let g = (read_registers x e s).1.globals in
        (all_covered false inst inst.operands g ≡ true)
        × (all_covered true inst inst.operands g ≡ true)
  unfolding read_registers reading
  read_registers_cover s h = passes_covered s.globals.xedd s.globals.xedd.operands s h

  -- The registers that are marked for the write-back are among those that were read.
  abbrev pub IsTracked : Globals → Type 0
  IsTracked g = (q : ℕ) → (not (g.modified_regs q) || g.used_regs q) ≡ true

  -- Reading an instruction's registers, successful or not, keeps the invariant that only
  -- registers that were read are marked for the write-back, and does not change the instruction.
  pub read_registers-IsTracked :
      (s : State W)
      → IsTracked s.globals
      → IsTracked (read_registers x e s).1.globals
        × ((read_registers x e s).1.globals.xedd ≡ s.globals.xedd)
  unfolding read_registers reading
  read_registers-IsTracked s h =
      let inst = s.globals.xedd in
      let p =
        (Progresses->>
            (Progresses->> (read_address_registers-Progresses x e inst inst.operands 0)
              (read_operands-Progresses x e false general inst inst.operands))
            (read_operands-Progresses x e true write_back inst inst.operands)).progress
          s in
      (λ q. imply _ _ (p.tracked (λ r m. implied _ _ (h r) m) q), p.same_inst)
