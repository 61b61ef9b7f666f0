-- ===== src/Encode/Relocation.antt =====
-- The second pass of `EncodeInstruction`: the memory operand is made to point to its data.
use microx.Base.{
  ℕ, zero, suc, ◌+◌, ◌%◌, ◌^◌, ◌≡◌, ◌≢◌, refl, ap, ◌∙◌, true, if◌then◌else◌, add64, sub64, List, [],
  ◌∷◌, Option, none, some, length, arith,
}
use microx.Xed.{Xed, EncoderOperand, enc_mem}
use microx.Host.{Host}
use microx.State.{Globals}
use microx.Encode.{set_displacement, relocate, store_code, encode_again}

-- The operand at a place.
unfoldable pub operand_at : List EncoderOperand → ℕ → Option EncoderOperand
operand_at [] i = none
operand_at (op ∷ ops) zero = some op
operand_at (op ∷ ops) (suc i) = operand_at ops i

-- A memory operand at a place.
pub data HasMemory (base width : ℕ) : List EncoderOperand → ℕ → Type 0 where
  here :
      {old : ℕ} {ops : List EncoderOperand}
      → HasMemory base width (enc_mem base old width ∷ ops) zero
  there :
      {op : EncoderOperand} {ops : List EncoderOperand} {i : ℕ}
      → HasMemory base width ops i
      → HasMemory base width (op ∷ ops) (suc i)

-- The displacement at `i` is `disp`, and everything else is as before.
pub record Displaced (base width i disp : ℕ) (ops ops' : List EncoderOperand) : Type 0 where
  pub displaced : operand_at ops' i ≡ some (enc_mem base disp width)
  pub others : (j : ℕ) → j ≢ i → operand_at ops' j ≡ operand_at ops j

elsewhere :
    {base width i disp : ℕ} (op : EncoderOperand) (ops ops' : List EncoderOperand)
    → Displaced base width i disp ops ops'
    → (j : ℕ) → j ≢ suc i
    → operand_at (op ∷ ops') j ≡ operand_at (op ∷ ops) j
unfolding operand_at
elsewhere op ops ops' d zero ne = refl
elsewhere op ops ops' d (suc j) ne = d.others j (λ e. ne (ap suc e))

changed_head :
    (op op' : EncoderOperand) (ops : List EncoderOperand) (j : ℕ)
    → j ≢ zero
    → operand_at (op' ∷ ops) j ≡ operand_at (op ∷ ops) j
unfolding operand_at
changed_head op op' ops zero ne = elim (ne refl) [ ]
changed_head op op' ops (suc j) ne = refl

set_displacement-Displaced :
    {base width i : ℕ} {ops : List EncoderOperand} (disp : ℕ)
    → HasMemory base width ops i
    → (ops' : List EncoderOperand) × (set_displacement ops i disp ≡ some ops')
      × Displaced base width i disp ops ops'
unfolding operand_at set_displacement
set_displacement-Displaced {base} {width} disp (here {old} {ops}) = (
  enc_mem base disp width ∷ ops,
  refl,
  record {
    displaced = refl;
    others = changed_head (enc_mem base old width) (enc_mem base disp width) ops;
  },
)
set_displacement-Displaced disp (there {op} {ops} m) =
    let (ops', s, d) = set_displacement-Displaced disp m in
    (op ∷ ops', rw s refl, record { displaced = d.displaced; others = elsewhere op ops ops' d })

relocate-some :
    (x : Xed) (h : Host) (i disp : ℕ) (ops ops' : List EncoderOperand)
    → set_displacement ops i disp ≡ some ops'
    → relocate x h (some i) disp ops ≡ ops'
unfolding relocate
relocate-some x h i disp ops ops' s = rw (s, relocate) refl

-- The second pass, when the first one gave `code` and the encoder's operand `i` is a memory operand
-- with base `base`: what is encoded and stored are the same operands but for this one's
-- displacement, and the displacement leads from the end of the first pass's code in `gExecArea` to
-- the operand's data, modulo 2^64.
pub encode_again-relocated :
    (x : Xed) (h : Host) (code : List ℕ) (ops : List EncoderOperand) (g : Globals)
    (base width i : ℕ)
    → g.memory0.present ≡ true
    → g.memory0.mem_op ≡ some i
    → HasMemory base width ops i
    → (ops' : List EncoderOperand) × (disp : ℕ) × (encode_again x h code ops g
        ≡ store_code x h (x.encode g.xedd g.operand_width ops') g)
      × Displaced base width i disp ops ops'
      × (add64 (h.exec_area_address + length code) disp ≡ h.memory_data_address % 2 ^ 64)
unfolding encode_again relocate
encode_again-relocated x h code ops g base width i present op m =
    let rip = h.exec_area_address + length code in
    let disp = sub64 h.memory_data_address rip in
    let (ops', s, d) = set_displacement-Displaced disp m in
    let encoded =
      λ (o : List EncoderOperand). store_code x h (x.encode g.xedd g.operand_width o) g in
    (
      ops',
      disp,
      ap (λ b. if b then encoded (relocate x h g.memory0.mem_op disp ops) else (true, g)) present
          ∙ ap (λ place. encoded (relocate x h place disp ops)) op
          ∙ ap encoded (relocate-some x h i disp ops ops' s),
      d,
      omega arith,
    )
