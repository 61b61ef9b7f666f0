-- ===== src/Native/Tests.antt =====
-- Native execution of a small piece of code.
use microx.Base.{◌≡◌, refl, low_bits, arith}
use microx.Host.{no_signal}
use microx.Native.{enter, execute_native}
use microx.Native.Exchange.{IsDistinct, called, execute_native-registers}
use microx.Fixture.{xed, globals}
use microx.Fixture.Processor.{machine, numbers, cpu}

numbers-IsDistinct : IsDistinct xed numbers
numbers-IsDistinct = record { once = refl; no_flags = refl; no_vector = λ i below. ground arith }

-- RBX is 0x1234 before, and one more after.
execute_native-registers_example :
    let left = (called xed machine numbers globals cpu).2 in
    let (result, g', c') = execute_native xed machine numbers globals cpu in
    (result ≡ no_signal)
    × ((enter xed machine numbers globals cpu).1.gpr 13 ≡ low_bits 64 (globals.regs 13))
    × (low_bits 64 (g'.regs 13) ≡ low_bits 64 (left.gpr 13))
    × (c'.gpr 13 ≡ low_bits 64 (cpu.gpr 13))
execute_native-registers_example =
    execute_native-registers xed machine numbers 13 globals cpu numbers-IsDistinct refl refl refl
