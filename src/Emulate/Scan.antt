-- ===== src/Emulate/Scan.antt =====
-- REPNE SCAS and REPE SCAS of `Emulate` (`microx/Executor.cpp`), executed again until the program
-- counter moves on: the search in memory.
pub mod Search
use microx.Base.{
  ℕ, zero, suc, ◌+◌, ◌-◌, ◌^◌, ◌<◌, ◌≡◌, ◌≢◌, refl, sym, ap, ◌∙◌, Bool, true, false, not, differs,
  ◌&&◌, ◌==◌, ==-refl, bit, Bool-cases, inl, inr, if◌then◌else◌, add64, low_bits, Option, none,
  some, arith,
}
use microx.Xed.{Xed}
use microx.Host.{Host}
use microx.State.{Globals}
use microx.Registers.{read_gpr, write_gpr}
use microx.Registers.Gpr.{
  HighBytes, read_gpr-write_gpr, read_gpr-write_gpr_ne, read_gpr-regs, regs-write_gpr_ne,
  read_gpr-fits,
}
use microx.Flags.{zf_bit}
use microx.Flags.Sub.{update_flags_sub-unsigned}
use microx.Emulate.Machine.{Emulated, handled, Locals, mem0, flag, add_gpr}
use microx.Emulate.Strings.{repne, repe, rep_if, scas, compare_flags}
use microx.Emulate.Rep.{resume}

-- The search, over memory as a function of the pointer, for an element that is equal to a value, or
-- for one that is not: through so many elements from the pointer on, the count that is left, the
-- pointer behind the last element that was compared, and whether that element is equal.
unfoldable pub search : Bool → (ℕ → ℕ) → ℕ → ℕ → ℕ → ℕ → ℕ × ℕ × Bool
search wanted element v inc zero p = (0, p, not wanted)
search wanted element v inc (suc n) p =
    let rest = search wanted element v inc n (add64 p inc) in
    if differs wanted (v == element p) then rest else (n, add64 p inc, wanted)

pub search_hit :
    (wanted : Bool) (element : ℕ → ℕ) (v inc n p : ℕ)
    → (v == element p) ≡ wanted
    → search wanted element v inc (suc n) p ≡ (n, add64 p inc, wanted)
unfolding search
search_hit true element v inc n p hit = rw hit refl
search_hit false element v inc n p hit = rw hit refl

pub search_miss :
    (wanted : Bool) (element : ℕ → ℕ) (v inc n p : ℕ)
    → (v == element p) ≡ not wanted
    → search wanted element v inc (suc n) p ≡ search wanted element v inc n (add64 p inc)
unfolding search
search_miss true element v inc n p miss = rw miss refl
search_miss false element v inc n p miss = rw miss refl

-- REPNE, which goes on until an element is equal, and REPE, until one is not.
abbrev repeat : Xed → Bool → (Locals → Globals → Globals) → Locals → Globals → Emulated
repeat x true = repne x
repeat x false = repe x

repeat-rep_if :
    (x : Xed) (wanted : Bool) (body : Locals → Globals → Globals) (l : Locals) (g : Globals)
    → repeat x wanted body l g ≡ rep_if x (λ g'. differs wanted (flag x zf_bit g')) body l g
repeat-rep_if x true body l g = refl
repeat-rep_if x false body l g = refl

-- A 64-bit REPNE SCAS or REPE SCAS: the count and the pointer are whole registers, and they, the flags and the
-- register that holds the value are in different places of the register file.
pub record IsScan (x : Xed) (l : Locals) : Type 0 where
  pub high_bytes : HighBytes x
  pub count_width : x.width_bits64 l.count_reg ≡ 64
  pub dest_width : x.width_bits64 l.dest_reg ≡ 64
  pub apart : x.enclosing l.count_reg ≢ x.enclosing l.dest_reg
  pub count_no_flags : x.enclosing l.count_reg ≢ x.rflags
  pub dest_no_flags : x.enclosing l.dest_reg ≢ x.rflags
  pub value_no_flags : x.enclosing l.r0 ≢ x.rflags
  pub value_no_count : x.enclosing l.r0 ≢ x.enclosing l.count_reg
  pub value_no_dest : x.enclosing l.r0 ≢ x.enclosing l.dest_reg
  pub moves_on : l.next_pc ≢ l.curr_pc

module _ (x : Xed) (h : Host) (wanted : Bool) (element : ℕ → ℕ) where
  -- What `ReadMemory` leaves for `Emulate`: the element at the pointer.
  abbrev pub load : Locals → Globals → Globals
  load l g = record g {
    memory0 = record (g.memory0) { contents = element (read_gpr x l.dest_reg g) };
  }

  -- One execution, which reads the count and the memory anew.
  unfoldable pub scan_round : Locals → Globals → Emulated
  scan_round l g =
      repeat x wanted (scas x h) (record l { count = read_gpr x l.count_reg g }) (load l g)

  -- Executions until the program counter is not the instruction's own, at most `fuel`.
  unfoldable pub run_scan : ℕ → Locals → Globals → Option (Globals × ℕ)
  unfolding resume
  run_scan zero l g = none
  run_scan (suc fuel) l g = resume x l (run_scan fuel l) (scan_round l g)

  module _ (l : Locals) (i : IsScan x l) (fits : (p : ℕ) → element p < 2 ^ 64) where
    compared : Globals → Globals
    compared g = compare_flags x h (read_gpr x l.r0 (load l g)) (mem0 (load l g)) (load l g)

    compared_keeps :
        (reg : ℕ) (g : Globals)
        → x.enclosing reg ≢ x.rflags
        → read_gpr x reg (compared g) ≡ read_gpr x reg g
    unfolding compared compare_flags read_gpr
    compared_keeps reg g apart = ground arith

    -- What one more comparison leaves, with the count.
    pub after_scan : ℕ → Globals → Globals
    after_scan n g = write_gpr x l.count_reg n (scas x h l (load l g))

    pub after_scan-value :
        (n : ℕ) (g : Globals) → read_gpr x l.r0 (after_scan n g) ≡ read_gpr x l.r0 g
    unfolding after_scan scas compared
    after_scan-value n g =
        read_gpr-write_gpr_ne x l.count_reg l.r0 n (scas x h l (load l g)) i.value_no_count
        ∙ read_gpr-regs x l.r0 (add_gpr x l.dest_reg l.stringop_inc (compared g)) _ refl
        ∙ read_gpr-write_gpr_ne x l.dest_reg l.r0 _ (compared g) i.value_no_dest
        ∙ compared_keeps l.r0 g i.value_no_flags

    pub after_scan-count :
        (n : ℕ) (g : Globals) → n < 2 ^ 64 → read_gpr x l.count_reg (after_scan n g) ≡ n
    unfolding after_scan
    after_scan-count n g small =
        read_gpr-write_gpr x l.count_reg n (scas x h l (load l g)) i.high_bytes (inl i.count_width)
        ∙ rw i.count_width (omega arith)

    pub after_scan-dest :
        (n : ℕ) (g : Globals)
        → read_gpr x l.dest_reg (after_scan n g) ≡ add64 (read_gpr x l.dest_reg g) l.stringop_inc
    unfolding after_scan scas compared
    after_scan-dest n g =
        read_gpr-write_gpr_ne x l.count_reg l.dest_reg n (scas x h l (load l g))
          (λ e. i.apart (sym e))
        ∙ read_gpr-regs x l.dest_reg (add_gpr x l.dest_reg l.stringop_inc (compared g)) _ refl
        ∙ read_gpr-write_gpr x l.dest_reg _ (compared g) i.high_bytes (inl i.dest_width)
        ∙ rw (i.dest_width, compared_keeps l.dest_reg g i.dest_no_flags) (omega arith)

    -- The zero flag is that of the comparison.
    compared-zero :
        (g : Globals)
        → flag x zf_bit (compared g) ≡ (read_gpr x l.r0 g == element (read_gpr x l.dest_reg g))
    unfolding compared compare_flags
    compared-zero g =
        let small = fits (read_gpr x l.dest_reg g) in
        let whole : mem0 (load l g) ≡ element (read_gpr x l.dest_reg g) = omega arith in
        let equal =
          (update_flags_sub-unsigned h (read_gpr x l.r0 (load l g)) (mem0 (load l g))
            g.operand_width (g.regs x.rflags) (read_gpr-fits x l.r0 (load l g)) (omega arith)).1 in
        rw (==-refl x.rflags) (
          equal
          ∙ ap (λ m. read_gpr x l.r0 (load l g) == m) whole
          ∙ ap (λ v. v == element (read_gpr x l.dest_reg g))
              (read_gpr-regs x l.r0 g (load l g) refl))

    pub after_scan-zero :
        (n : ℕ) (g : Globals)
        → flag x zf_bit (after_scan n g) ≡ (read_gpr x l.r0 g == element (read_gpr x l.dest_reg g))
    unfolding after_scan scas compared
    after_scan-zero n g =
        ap (bit zf_bit) (
          regs-write_gpr_ne x l.count_reg x.rflags n (scas x h l (load l g))
            (λ e. i.count_no_flags (sym e))
          ∙ regs-write_gpr_ne x l.dest_reg x.rflags _ (compared g) (λ e. i.dest_no_flags (sym e)))
        ∙ compared-zero g

    pub scan_none :
        (g : Globals) → read_gpr x l.count_reg g ≡ 0 → scan_round l g ≡ handled (load l g) l.next_pc
    unfolding scan_round rep_if
    scan_none g e =
        repeat-rep_if x wanted (scas x h) (record l { count = read_gpr x l.count_reg g }) (load l g)
        ∙ rw e refl

    pub scan_some :
        (n : ℕ) (g : Globals)
        → read_gpr x l.count_reg g ≡ suc n
        → scan_round l g
          ≡ handled (after_scan n g) (
              if not (n == 0)
                && differs wanted (read_gpr x l.r0 g == element (read_gpr x l.dest_reg g))
              then l.curr_pc
              else l.next_pc)
    unfolding scan_round rep_if after_scan scas
    scan_some n g e =
        let k : suc n - 1 ≡ n = omega arith in
        let more : (suc n == 0) ≡ false = ground arith in
        repeat-rep_if x wanted (scas x h) (record l { count = read_gpr x l.count_reg g }) (load l g)
        ∙ rw (e, more, k, sym (after_scan-zero n g)) refl
