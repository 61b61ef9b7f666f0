-- ===== src/Native/Exceptions.antt =====
-- Native execution on 64-bit Windows (`VectoredHandler` and `Executor::Execute` of
-- `microx/Executor.cpp`): an exception in `gExecArea` returns from the call of it.
use microx.Base.{
  ℕ, ◌+◌, ◌^◌, ◌<◌, ◌≡◌, refl, true, ◌&&◌, ◌==◌, ==-refl, ltb, leb, if◌then◌else◌, add64, sub64,
  arith,
}
use microx.State.{error_fault, error_floating_point_exception, error_execute}
use microx.Execute.{Run}
use microx.Init.{page_size}

-- The codes that `Execute` tells apart; 0 is none.
pub data ExceptionCode : Type 0 where
  no_exception access_violation illegal_instruction : ExceptionCode
  flt_denormal_operand flt_divide_by_zero flt_inexact_result : ExceptionCode
  flt_invalid_operation flt_overflow flt_stack_check flt_underflow : ExceptionCode
  other_exception : ℕ → ExceptionCode

-- The processor at an exception, as far as the handler reads and writes it.
pub record Context : Type 0 where
  pub ip : ℕ
  pub sp : ℕ

pub data Verdict : Type 0 where
  continue_execution continue_search : Verdict

-- `VectoredHandler`, over the words of memory: the answer, the context, and `gExceptionCode`.
unfoldable pub vectored_handler :
    ℕ → (ℕ → ℕ) → ExceptionCode → Context → ExceptionCode → Verdict × Context × ExceptionCode
vectored_handler exec_area word_at raised c code =
    if leb exec_area c.ip && ltb c.ip (add64 exec_area page_size)
    then (continue_execution, record { ip = word_at c.sp; sp = add64 c.sp 8 }, raised)
    else (continue_search, c, code)

-- `switch (gExceptionCode)`.
unfoldable pub check_exception : {W : Type 0} → ExceptionCode → Run W → Run W
check_exception no_exception k s = k s
check_exception access_violation k s = (error_fault, s)
check_exception flt_denormal_operand k s = (error_floating_point_exception, s)
check_exception flt_divide_by_zero k s = (error_floating_point_exception, s)
check_exception flt_inexact_result k s = (error_floating_point_exception, s)
check_exception flt_invalid_operation k s = (error_floating_point_exception, s)
check_exception flt_overflow k s = (error_floating_point_exception, s)
check_exception flt_stack_check k s = (error_floating_point_exception, s)
check_exception flt_underflow k s = (error_floating_point_exception, s)
check_exception illegal_instruction k s = (error_execute, s)
check_exception (other_exception n) k s = (error_execute, s)

-- The processor's `call`, which pushes the address of the next instruction.
abbrev call : ℕ → ℕ → Context → (ℕ → ℕ) → Context × (ℕ → ℕ)
call target next c word_at =
    let top = sub64 c.sp 8 in
    (record { ip = target; sp = top }, λ a. if a == top then next else word_at a)

-- An exception anywhere in the page of `gExecArea`, with the stack pointer that the call of it left:
-- the program goes on behind the call, with the stack pointer from before the call, and the code is
-- kept. The page lies below the end of the address space.
vectored_handler-call :
    (exec_area next offset : ℕ) (word_at : ℕ → ℕ) (raised code : ExceptionCode) (c : Context)
    → c.sp < 2 ^ 64
    → offset < page_size
    → exec_area + page_size < 2 ^ 64
    → let (called, words) = call exec_area next c word_at in
      vectored_handler exec_area words raised (record called { ip = exec_area + offset }) code
      ≡ (continue_execution, record { ip = next; sp = c.sp }, raised)
unfolding vectored_handler
vectored_handler-call exec_area next offset word_at raised code c fits inside low =
    let inside' : (leb exec_area (exec_area + offset)
          && ltb (exec_area + offset) (add64 exec_area page_size))
        ≡ true =
      ground arith in
    let back : add64 (sub64 c.sp 8) 8 ≡ c.sp = omega arith in
    rw (inside', ==-refl (sub64 c.sp 8), back) refl
