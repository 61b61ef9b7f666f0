-- ===== src/Fixture/Processor.antt =====
-- A processor whose code is a single step, for the examples.
use microx.Base.{◌+◌}
use microx.Host.{no_signal}
use microx.Native.{Cpu, Machine, Numbers}

-- The code adds one to each register.
abbrev pub machine : Machine
machine = record {
  call = λ code contents c. (no_signal, contents, record c { gpr = λ r. c.gpr r + 1 });
  fwait = λ c. no_signal;
  fnclex = λ fpu. fpu;
  popfq = λ before flags. flags;
  pushfq = λ flags. flags;
  fxsave = λ wide c. c.fpu;
  fxrstor = λ wide fpu c. record c { fpu = fpu };
}

abbrev pub numbers : Numbers
numbers = record {
  rax = 10;
  rbx = 13;
  rcx = 11;
  rdx = 12;
  rbp = 15;
  rsi = 16;
  rdi = 17;
  r8 = 18;
  r9 = 19;
  r10 = 20;
  r11 = 21;
  r12 = 22;
  r13 = 23;
  r14 = 24;
  r15 = 25;
}

abbrev pub cpu : Cpu
cpu = record { gpr = λ r. 7000 + r; xmm = λ i. 0; rflags = 2; fpu = 0 }
