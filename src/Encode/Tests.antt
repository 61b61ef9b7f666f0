-- ===== src/Encode/Tests.antt =====
-- The theorems on re-encoding at concrete inputs.
use microx.Base.{ℕ, ◌+◌, ◌%◌, ◌^◌, ◌≡◌, ◌≢◌, refl, true, false, add64, List, [], ◌∷◌, some, length}
use microx.Xed.{EncoderOperand, enc_mem, enc_reg}
use microx.State.{Globals}
use microx.Registers.{read_gpr}
use microx.Encode.{choose_alias, encode_again, store_code}
use microx.Encode.Alias.{IsFourRegisters, choose_alias-holds}
use microx.Encode.Relocation.{Displaced, here, there, encode_again-relocated}
use microx.Fixture.{xed, host, globals, xed-HighBytes}

four : IsFourRegisters xed
four = record {
  rax_width = refl;
  rcx_width = refl;
  rdx_width = refl;
  rbx_width = refl;
  invalid_width = refl;
}

-- RAX is used, so RCX is the alias.
choose_alias-holds_example :
    (alias : ℕ) × (g' : Globals) × (choose_alias xed globals ≡ g')
    × (g'.stack_ptr_alias ≡ alias)
    × (globals.store_regs alias ≡ false)
    × (read_gpr xed alias g' ≡ read_gpr xed 14 globals)
    × ((r : ℕ) → xed.enclosing r ≢ xed.enclosing alias → read_gpr xed r g' ≡ read_gpr xed r globals)
    × (choose_alias xed g' ≡ g')
choose_alias-holds_example = choose_alias-holds xed four globals xed-HighBytes refl refl

-- `add rbx, [rip + …]`, of seven bytes.
abbrev operands : List EncoderOperand
operands = enc_reg 13 64 ∷ enc_mem 90 0xffff_ffff 64 ∷ []

abbrev code : List ℕ
code = 0x48 ∷ 0x03 ∷ 0x1d ∷ 0 ∷ 0 ∷ 0 ∷ 0 ∷ []

abbrev with_memory : Globals
with_memory = record globals {
  memory0 = record (globals.memory0) { present = true; mem_op = some 1 };
}

encode_again-relocated_example :
    (ops' : List EncoderOperand) × (disp : ℕ) × (encode_again xed host code operands with_memory
      ≡ store_code xed host
          (xed.encode with_memory.xedd with_memory.operand_width ops')
          with_memory)
    × Displaced 90 64 1 disp operands ops'
    × (add64 (host.exec_area_address + length code) disp ≡ host.memory_data_address % 2 ^ 64)
encode_again-relocated_example =
    encode_again-relocated xed host code operands with_memory 90 64 1 refl refl (there here)
