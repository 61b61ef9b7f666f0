-- ===== src/Lib.antt =====
-- microx executes single x86 instructions against a client that holds the machine's state.
-- `Executor::Execute` (microx/Executor.cpp) asks the client for the program counter, the bytes of the
-- instruction, and the flags, registers and memory that it reads; it emulates the instruction or runs
-- a re-encoded copy of it natively; then it writes memory, flags and registers back to the client.
--
-- The files, and what they model of microx/Executor.cpp unless another file is named:
--   Base        wrap-around arithmetic, bits, Boolean tests, the integers of XED
--   Xed         what the code uses of Intel XED (microx/XED.h), a parameter of the definitions
--   Host        what the code takes from the machine, a parameter: out-of-range shifts, addresses,
--               native execution
--   State       the client (class Executor and the enumerations of microx/include/microx/Executor.h),
--               struct Memory, the globals, and actions that stop at the first failure
--   Registers   WidestRegister, ReadRegister, ReadValue, ReadGPR, WriteValue, WriteGPR, WriteRegisters
--   Flags       union Flags, ParityFlag, UpdateFlagsSub, ReadFlags, WriteFlags
--   Operands    ReadRegistersMemOp, ReadRegisters, ReadPC
--   MemoryOps   GetBitOpByteOffset, ReadMemory, WriteMemory, Executor::ComputeAddress
--   Encode      GetStackPointerAlias, DecodeMem0, DecodeRegN, DecodeImm0, DecodeImm1,
--               CreateEncodableInstruction, EncodeInstruction
--   Emulate     BranchTarget, GetPC, GetNextPC, GetSignedImmediate, the string macros, Emulate
--   Execute     UsesUnsupportedAttributes, UsesUnsupportedFeatures, CopyMMXStateToFPU,
--               CopyMMXStateFromFPU, SetNextPC, Executor::Execute
--   Fpu         the layouts of the FPU state (microx/include/microx/Executor.h)
--   Init        Executor::Init
--   Native      LoadFPU, ExecuteNative, StoreFPU: the inline assembly on the registers of a processor,
--               which can serve as the host of Execute; RecoverFromError, and the signal handler's
--               installation around them
--   Python      the bindings, microx/Python.cpp: PythonExecutor is a client of the executor that calls
--               methods of a Python object; the interpreter, Python's C API, is a parameter
--   Fixture     a small machine, client and interpreter for the examples in the modules named Tests
--
-- The globals are one record that is passed from step to step, beside the client's own state of any
-- type; a function that returns `bool` is a function to a Boolean and the new state. A `Data` of 64
-- bytes is the number that its bytes spell, lowest byte first, and a cast of its address reads or
-- writes its low bits. `uintptr_t` is a number below 2^64, with the remainder written out. A bitset
-- over registers is a function to Boolean values. The loops over operands and registers are recursion
-- on the list or on the number of registers that are left, and the loop of `Execute` is recursion on
-- the number of instructions, with the local `idata` as an argument that each instruction hands on to
-- the next, so no definition of the code runs on fuel; only the repetition of a
-- string instruction, which the code leaves to its caller, has a bound: one more than the count.
--
-- A Python object is a value of any type, asked through the interpreter's functions; the error that
-- `PythonExecutor` keeps beside the interpreter's own is an option, with its message as data.
--
-- Execute takes the report of a signal as an outcome of native execution; Native.Signals has the
-- handler that makes it, over a kernel that is a parameter (a signal that `LoadFPU` raises, before the
-- `sigsetjmp`, does not come back), and Native.Exceptions the handler of 64-bit
-- Windows.
--
-- Not modelled: the lock, what the code in `gExecArea` does to the processor (a parameter of Native),
-- the other variants for Windows; of the bindings, the reference counts and the printed form of the
-- messages; and the Python code.
pub mod Base
pub mod Xed
pub mod State
pub mod Host
pub mod Registers
pub mod Flags
pub mod Operands
pub mod MemoryOps
pub mod Encode
pub mod Emulate
pub mod Execute
pub mod Fpu
pub mod Init
pub mod Native
pub mod Python
mod Fixture
