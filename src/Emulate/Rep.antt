-- ===== src/Emulate/Rep.antt =====
-- The repeated string instructions: one round for each time that the instruction is executed,
-- until the program counter moves on.
use Prim.Native.Nat.mul
use microx.Base.{
  ℕ, zero, suc, ◌+◌, ◌-◌, ◌*◌, ◌%◌, ◌^◌, ◌<◌, ◌≡◌, ◌≢◌, refl, sym, ap, ◌∙◌, true, false, not, ◌&&◌,
  ◌==◌, if◌then◌else◌, add64, Option, none, some, inl, arith,
}
use microx.Xed.{Xed}
use microx.State.{Globals}
use microx.Registers.{read_gpr, write_gpr}
use microx.Registers.Gpr.{
  HighBytes, read_gpr-write_gpr, read_gpr-write_gpr_ne, read_gpr-regs, read_gpr-fits,
}
use microx.Emulate.Machine.{Emulated, handled, rejected, native, Locals, set_mem0, add_gpr}
use microx.Emulate.Strings.{rep, rep_if, stos}

module _ (x : Xed) where
  -- One execution of REP STOS; `Emulate` reads the count anew each time.
  unfoldable pub round : Locals → Globals → Emulated
  round l g = rep x (stos x) (record l { count = read_gpr x l.count_reg g }) g

  -- What follows an execution: another one if the program counter is still the instruction's own.
  unfoldable pub resume :
      Locals → (Globals → Option (Globals × ℕ)) → Emulated → Option (Globals × ℕ)
  resume l again (handled g pc) = if pc == l.curr_pc then again g else some (g, pc)
  resume l again (rejected status) = none
  resume l again (native pc) = none

  -- Executions until the program counter is not the instruction's own, at most `fuel`.
  unfoldable pub run_rep : ℕ → Locals → Globals → Option (Globals × ℕ)
  run_rep zero l g = none
  run_rep (suc fuel) l g = resume l (run_rep fuel l) (round l g)

  -- The registers of a 64-bit REP STOS: the count and the pointer are whole 64-bit registers in
  -- different places of the register file.
  pub record IsRepStos (l : Locals) : Type 0 where
    pub high_bytes : HighBytes x
    pub count_width : x.width_bits64 l.count_reg ≡ 64
    pub dest_width : x.width_bits64 l.dest_reg ≡ 64
    pub apart : x.enclosing l.count_reg ≢ x.enclosing l.dest_reg
    pub moves_on : l.next_pc ≢ l.curr_pc

  module _ (l : Locals) (i : IsRepStos l) where
    -- One round's effect on the two registers.
    after_round : ℕ → Globals → Globals
    after_round n g = write_gpr x l.count_reg n (stos x l g)

    -- Before the pointer moves, the data is stored.
    abbrev filled : Globals → Globals
    filled g = set_mem0 (read_gpr x l.r0 g) g

    stos_count : (g : Globals) → read_gpr x l.count_reg (stos x l g) ≡ read_gpr x l.count_reg g
    unfolding stos
    stos_count g =
        read_gpr-regs x l.count_reg (add_gpr x l.dest_reg l.stringop_inc (filled g)) _ refl
        ∙ read_gpr-write_gpr_ne x l.dest_reg l.count_reg _ (filled g) i.apart
        ∙ read_gpr-regs x l.count_reg g (filled g) refl

    stos_dest :
        (g : Globals)
        → read_gpr x l.dest_reg (stos x l g) ≡ add64 (read_gpr x l.dest_reg g) l.stringop_inc
    unfolding stos
    stos_dest g =
        read_gpr-regs x l.dest_reg (add_gpr x l.dest_reg l.stringop_inc (filled g)) _ refl
        ∙ written
        ∙ ap (λ v. add64 v l.stringop_inc) (read_gpr-regs x l.dest_reg g (filled g) refl)
      where
        written :
            read_gpr x l.dest_reg (add_gpr x l.dest_reg l.stringop_inc (filled g))
            ≡ add64 (read_gpr x l.dest_reg (filled g)) l.stringop_inc
        written =
            read_gpr-write_gpr x l.dest_reg _ (filled g) i.high_bytes (inl i.dest_width)
            ∙ rw i.dest_width (omega arith)

    after_round_count :
        (n : ℕ) (g : Globals) → n < 2 ^ 64 → read_gpr x l.count_reg (after_round n g) ≡ n
    unfolding after_round
    after_round_count n g fits =
        read_gpr-write_gpr x l.count_reg n (stos x l g) i.high_bytes (inl i.count_width)
        ∙ rw i.count_width (omega arith)

    after_round_dest :
        (n : ℕ) (g : Globals)
        → read_gpr x l.dest_reg (after_round n g) ≡ add64 (read_gpr x l.dest_reg g) l.stringop_inc
    unfolding after_round
    after_round_dest n g =
        read_gpr-write_gpr_ne x l.count_reg l.dest_reg n (stos x l g) (λ e. i.apart (sym e))
        ∙ stos_dest g

    round_last : (g : Globals) → read_gpr x l.count_reg g ≡ 0 → round l g ≡ handled g l.next_pc
    unfolding round rep_if
    round_last g e = rw e

    round_more :
        (n : ℕ) (g : Globals)
        → read_gpr x l.count_reg g ≡ suc n
        → round l g
          ≡ handled (after_round n g) (if not (n == 0) && true then l.curr_pc else l.next_pc)
    unfolding round rep_if after_round stos
    round_more n g e =
        let k : suc n - 1 ≡ n = omega arith in
        let more : (suc n == 0) ≡ false = ground arith in rw (e, more, k) refl

    stays : (pc : ℕ) → (pc == pc) ≡ true
    stays pc = ground arith

    moves : (l.next_pc == l.curr_pc) ≡ false
    moves = let ne = i.moves_on in ground arith

    abbrev Completes : ℕ → Globals → Option (Globals × ℕ) → Type 0
    Completes n g result =
        (g' : Globals) × (result ≡ some (g', l.next_pc))
        × (read_gpr x l.count_reg g' ≡ 0)
        × (read_gpr x l.dest_reg g' ≡ (read_gpr x l.dest_reg g + n * l.stringop_inc) % 2 ^ 64)

    round_on :
        (n : ℕ) (g : Globals)
        → read_gpr x l.count_reg g ≡ suc (suc n)
        → round l g ≡ handled (after_round (suc n) g) l.curr_pc
    round_on n g e =
        let more : (suc n == 0) ≡ false = ground arith in round_more (suc n) g e ∙ rw more refl

    one_more : (n inc : ℕ) → suc (suc n) * inc ≡ inc + suc n * inc
    one_more n inc = mul.suc (suc n) inc

    add64-wraps : (a b c : ℕ) → (add64 a b + c) % 2 ^ 64 ≡ (a + (b + c)) % 2 ^ 64
    add64-wraps a b c = omega arith

    stepped :
        (fuel n : ℕ) (g g' : Globals)
        → round l g ≡ handled g' n
        → run_rep (suc fuel) l g ≡ (if n == l.curr_pc then run_rep fuel l g' else some (g', n))
    unfolding run_rep resume
    stepped fuel n g g' e = ap (resume l (run_rep fuel l)) e

    run_rep-Completes :
        (n fuel : ℕ) (g : Globals)
        → n < fuel
        → n < 2 ^ 64
        → read_gpr x l.count_reg g ≡ n
        → Completes n g (run_rep fuel l g)
    run_rep-Completes zero zero g h fits e = elim h [ ]
    run_rep-Completes (suc zero) zero g h fits e = elim h [ ]
    run_rep-Completes (suc (suc n)) zero g h fits e = elim h [ ]
    run_rep-Completes zero (suc fuel) g h fits e = (
      g,
      stepped fuel l.next_pc g g (round_last g e) ∙ rw moves refl,
      e,
      (let b = read_gpr-fits x l.dest_reg g in omega arith),
    )
    run_rep-Completes (suc zero) (suc fuel) g h fits e = (
      after_round 0 g,
      stepped fuel l.next_pc g (after_round 0 g) (round_more 0 g e) ∙ rw moves refl,
      after_round_count 0 g (omega arith),
      after_round_dest 0 g ∙ omega arith,
    )
    run_rep-Completes (suc (suc n)) (suc fuel) g h fits e =
        let (g', r, c, d) =
          run_rep-Completes (suc n) fuel (after_round (suc n) g) (omega arith) (omega arith)
            (after_round_count (suc n) g (omega arith)) in
        (
          g',
          stepped fuel l.curr_pc g (after_round (suc n) g) (round_on n g e)
              ∙ rw (stays l.curr_pc) r,
          c,
          d
              ∙ rw (after_round_dest (suc n) g, one_more n l.stringop_inc)
                  (add64-wraps (read_gpr x l.dest_reg g) l.stringop_inc (suc n * l.stringop_inc)),
        )

-- A 64-bit REP STOS with a count below 2^64, executed again until the program counter has moved on,
-- ends if it may be executed once more than the count says: then the program counter is that of the
-- next instruction, the count is 0, and the pointer has moved by the count times the increment,
-- modulo 2^64. For a count register and a pointer register that are different and of 64 bits, high
-- byte registers of 8 bits, and a next instruction at another program counter.
pub rep_stos_completes :
    (x : Xed) (l : Locals) (i : IsRepStos x l) (fuel : ℕ) (g : Globals)
    → read_gpr x l.count_reg g < fuel
    → read_gpr x l.count_reg g < 2 ^ 64
    → (g' : Globals) × (run_rep x fuel l g ≡ some (g', l.next_pc))
      × (read_gpr x l.count_reg g' ≡ 0)
      × (read_gpr x l.dest_reg g'
          ≡ (read_gpr x l.dest_reg g + read_gpr x l.count_reg g * l.stringop_inc) % 2 ^ 64)
rep_stos_completes x l i fuel g enough fits =
    run_rep-Completes x l i (read_gpr x l.count_reg g) fuel g enough fits refl
