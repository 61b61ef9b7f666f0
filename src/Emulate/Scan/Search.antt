-- ===== src/Emulate/Scan/Search.antt =====
-- The search by REPNE SCAS and REPE SCAS (`microx/Executor.cpp`), against a search in memory.
use microx.Base.{
  ℕ, zero, suc, ◌^◌, ◌<◌, ◌≡◌, ◌⊎◌, refl, sym, ap, ◌∙◌, Bool, true, false, not, differs, ◌==◌,
  ==-refl, inl, inr, if◌then◌else◌, some, arith,
}
use microx.Xed.{Xed}
use microx.Host.{Host}
use microx.State.{Globals}
use microx.Registers.{read_gpr}
use microx.Registers.Gpr.{read_gpr-regs, read_gpr-fits}
use microx.Flags.{zf_bit}
use microx.Emulate.Machine.{handled, Locals, flag}
use microx.Emulate.Rep.{resume}
use microx.Emulate.Scan.{
  search, search_hit, search_miss, IsScan, load, scan_round, run_scan, after_scan, after_scan-value,
  after_scan-count, after_scan-dest, after_scan-zero, scan_none, scan_some,
}

-- The two outcomes of a comparison.
wanted_cases : (wanted b : Bool) → (b ≡ wanted) ⊎ (b ≡ not wanted)
wanted_cases true true = inl refl
wanted_cases true false = inr refl
wanted_cases false true = inr refl
wanted_cases false false = inl refl

differs_self : (b : Bool) → differs b b ≡ false
differs_self true = refl
differs_self false = refl

differs-not : (b : Bool) → differs b (not b) ≡ true
differs-not true = refl
differs-not false = refl

module _ (x : Xed) (h : Host) (wanted : Bool) (element : ℕ → ℕ) where
  module _ (l : Locals) (i : IsScan x l) (fits : (p : ℕ) → element p < 2 ^ 64) where
    moves : (l.next_pc == l.curr_pc) ≡ false
    moves = let ne = i.moves_on in ground arith

    -- An execution after which the program counter moves on, or does not.
    ends :
        (fuel : ℕ) (g g' : Globals)
        → scan_round x h wanted element l g ≡ handled g' l.next_pc
        → run_scan x h wanted element (suc fuel) l g ≡ some (g', l.next_pc)
    unfolding run_scan resume
    ends fuel g g' e = ap (resume x l (run_scan x h wanted element fuel l)) e ∙ rw moves refl

    goes_on :
        (fuel : ℕ) (g g' : Globals)
        → scan_round x h wanted element l g ≡ handled g' l.curr_pc
        → run_scan x h wanted element (suc fuel) l g ≡ run_scan x h wanted element fuel l g'
    unfolding run_scan resume
    goes_on fuel g g' e =
        ap (resume x l (run_scan x h wanted element fuel l)) e ∙ rw (==-refl l.curr_pc) refl

    -- The registers and the zero flag after a search from a state.
    abbrev Finds : Globals → Globals → ℕ × ℕ × Bool → Type 0
    Finds g g' result =
        (read_gpr x l.count_reg g' ≡ result.0)
        × (read_gpr x l.dest_reg g' ≡ result.1)
        × (flag x zf_bit g' ≡ (if read_gpr x l.count_reg g == 0 then flag x zf_bit g else result.2))

    abbrev EndsBy : ℕ → Globals → ℕ × ℕ × Bool → Type 0
    EndsBy fuel g result =
        (g' : Globals) × (run_scan x h wanted element fuel l g ≡ some (g', l.next_pc))
        × Finds g g' result

    search_from : ℕ → Globals → ℕ × ℕ × Bool
    search_from n g =
        search wanted element (read_gpr x l.r0 g) l.stringop_inc n (read_gpr x l.dest_reg g)

    -- A nonzero count and the outcome of the comparison.
    scan_hit :
        (n fuel : ℕ) (g : Globals)
        → n < 2 ^ 64
        → read_gpr x l.count_reg g ≡ suc n
        → (read_gpr x l.r0 g == element (read_gpr x l.dest_reg g)) ≡ wanted
        → EndsBy (suc fuel) g (search_from (suc n) g)
    unfolding search_from
    scan_hit n fuel g small e hit =
        let next = after_scan x h wanted element l i fits n g in
        let round : scan_round x h wanted element l g ≡ handled next l.next_pc =
          scan_some x h wanted element l i fits n g e
          ∙ rw (hit, differs_self wanted) (ground arith) in
        let some_left : (suc n == 0) ≡ false = ground arith in
        let searched = sym (
          search_hit wanted element (read_gpr x l.r0 g) l.stringop_inc n (read_gpr x l.dest_reg g)
            hit) in
        (
          next,
          ends fuel g next round,
          (
            after_scan-count x h wanted element l i fits n g small ∙ ap (λ t. t.0) searched,
            after_scan-dest x h wanted element l i fits n g ∙ ap (λ t. t.1) searched,
            after_scan-zero x h wanted element l i fits n g
                ∙ hit
                ∙ rw (e, some_left) (ap (λ t. t.2) searched),
          ),
        )

    scan_miss_last :
        (fuel : ℕ) (g : Globals)
        → read_gpr x l.count_reg g ≡ 1
        → (read_gpr x l.r0 g == element (read_gpr x l.dest_reg g)) ≡ not wanted
        → EndsBy (suc fuel) g (search_from 1 g)
    unfolding search_from search
    scan_miss_last fuel g e miss =
        let next = after_scan x h wanted element l i fits 0 g in
        let searched = sym (
          search_miss wanted element (read_gpr x l.r0 g) l.stringop_inc 0 (read_gpr x l.dest_reg g)
            miss) in
        (
          next,
          ends fuel g next (scan_some x h wanted element l i fits 0 g e),
          (
            after_scan-count x h wanted element l i fits 0 g (omega arith) ∙ ap (λ t. t.0) searched,
            after_scan-dest x h wanted element l i fits 0 g ∙ ap (λ t. t.1) searched,
            after_scan-zero x h wanted element l i fits 0 g ∙ miss ∙ rw e (ap (λ t. t.2) searched),
          ),
        )

    scan_miss :
        (n fuel : ℕ) (g : Globals)
        → suc n < 2 ^ 64
        → read_gpr x l.count_reg g ≡ suc (suc n)
        → (read_gpr x l.r0 g == element (read_gpr x l.dest_reg g)) ≡ not wanted
        → EndsBy fuel
            (after_scan x h wanted element l i fits (suc n) g)
            (search_from (suc n) (after_scan x h wanted element l i fits (suc n) g))
        → EndsBy (suc fuel) g (search_from (suc (suc n)) g)
    unfolding search_from
    scan_miss n fuel g small e miss (g', r, (count, dest, zero_flag)) =
        let next = after_scan x h wanted element l i fits (suc n) g in
        let more : (suc n == 0) ≡ false = ground arith in
        let more' : (suc (suc n) == 0) ≡ false = ground arith in
        let searched : search_from (suc n) next ≡ search_from (suc (suc n)) g =
          ap (λ v. search wanted element v l.stringop_inc (suc n) (read_gpr x l.dest_reg next))
            (after_scan-value x h wanted element l i fits (suc n) g)
          ∙ ap (λ p. search wanted element (read_gpr x l.r0 g) l.stringop_inc (suc n) p)
              (after_scan-dest x h wanted element l i fits (suc n) g)
          ∙ sym (
              search_miss wanted element (read_gpr x l.r0 g) l.stringop_inc (suc n)
                (read_gpr x l.dest_reg g) miss) in
        let round : scan_round x h wanted element l g ≡ handled next l.curr_pc =
          scan_some x h wanted element l i fits (suc n) g e
          ∙ rw (miss, more, differs-not wanted) refl in
        (
          g',
          goes_on fuel g next round ∙ r,
          (
            count ∙ ap (λ t. t.0) searched,
            dest ∙ ap (λ t. t.1) searched,
            zero_flag
                ∙ rw (after_scan-count x h wanted element l i fits (suc n) g small, e, more, more')
                    (ap (λ t. t.2) searched),
          ),
        )

    run_scan-EndsBy :
        (n fuel : ℕ) (g : Globals)
        → n < fuel
        → n < 2 ^ 64
        → read_gpr x l.count_reg g ≡ n
        → EndsBy fuel g (search_from n g)
    unfolding search_from search
    run_scan-EndsBy zero zero g enough small e = elim enough [ ]
    run_scan-EndsBy (suc zero) zero g enough small e = elim enough [ ]
    run_scan-EndsBy (suc (suc n)) zero g enough small e = elim enough [ ]
    run_scan-EndsBy zero (suc fuel) g enough small e = (
      load x h wanted element l g,
      ends fuel g (load x h wanted element l g) (scan_none x h wanted element l i fits g e),
      (
        read_gpr-regs x l.count_reg g (load x h wanted element l g) refl ∙ e,
        read_gpr-regs x l.dest_reg g (load x h wanted element l g) refl,
        rw e refl,
      ),
    )
    run_scan-EndsBy (suc zero) (suc fuel) g enough small e =
        elim (wanted_cases wanted (read_gpr x l.r0 g == element (read_gpr x l.dest_reg g))) [
          | inl hit ↦ scan_hit 0 fuel g (omega arith) e hit
          | inr miss ↦ scan_miss_last fuel g e miss
        ]
    run_scan-EndsBy (suc (suc n)) (suc fuel) g enough small e =
        let next = after_scan x h wanted element l i fits (suc n) g in
        let rest =
          run_scan-EndsBy (suc n) fuel next (omega arith) (omega arith)
            (after_scan-count x h wanted element l i fits (suc n) g (omega arith)) in
        elim (wanted_cases wanted (read_gpr x l.r0 g == element (read_gpr x l.dest_reg g))) [
          | inl hit ↦ scan_hit (suc n) fuel g (omega arith) e hit
          | inr miss ↦ scan_miss n fuel g (omega arith) e miss rest
        ]

-- A 64-bit REPNE SCAS, or REPE SCAS, over memory that is a function of the pointer, of words below
-- 2^64, executed again until the program counter has moved on, ends if it may be executed once more
-- than the count says: then the program counter is that of the next instruction, the count and the
-- pointer are those of a search, through as many elements, for one that is equal to the value, or one
-- that is not, and the zero flag tells whether the last one that was compared is equal, or stays if
-- the count was 0. For a count and a pointer of 64 bits which, like the value, are in places of their
-- own, apart from the flags, high byte registers of 8 bits, and a next instruction at another program
-- counter.
pub run_scan-search :
    (x : Xed) (h : Host) (wanted : Bool) (element : ℕ → ℕ) (l : Locals) (i : IsScan x l) (fuel : ℕ)
    (g : Globals)
    → ((p : ℕ) → element p < 2 ^ 64)
    → read_gpr x l.count_reg g < fuel
    → let n = read_gpr x l.count_reg g in
      let (left, pointer, equal) =
        search wanted element (read_gpr x l.r0 g) l.stringop_inc n (read_gpr x l.dest_reg g) in
      (g' : Globals) × (run_scan x h wanted element fuel l g ≡ some (g', l.next_pc))
      × (read_gpr x l.count_reg g' ≡ left)
      × (read_gpr x l.dest_reg g' ≡ pointer)
      × (flag x zf_bit g' ≡ (if n == 0 then flag x zf_bit g else equal))
unfolding search_from
run_scan-search x h wanted element l i fuel g fits enough =
    let (g', r, (count, dest, zero_flag)) =
      run_scan-EndsBy x h wanted element l i fits (read_gpr x l.count_reg g) fuel g enough
        (read_gpr-fits x l.count_reg g) refl in
    (g', r, count, dest, zero_flag)
