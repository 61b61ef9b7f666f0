-- ===== src/Execute/Fetch.antt =====
-- How many bytes of an instruction are fetched.
use native.Mathlib.Decide.{dec_lt}
use microx.Base.{
  if◌then◌else◌, ℕ, zero, suc, ◌*◌, ◌≤◌, ◌<◌, ◌≡◌, ◌≢◌, refl, ap, Bool, true, false, Bool-cases,
  inl, inr, arith,
}
use microx.Xed.{Xed}
use microx.Host.{Host}
use microx.State.{Executor, read_executable}
use microx.Execute.{fetch}

-- The most bytes that can be read, up to `n`: none if it is 0.
pub record IsLongest (readable : ℕ → Bool) (n len : ℕ) : Type 0 where
  pub bounded : len ≤ n
  pub is_readable : len ≢ 0 → readable (len * 8) ≡ true
  pub longer_fail : (k : ℕ) → len < k → k ≤ n → readable (k * 8) ≡ false

found-IsLongest :
    (readable : ℕ → Bool) (n : ℕ) → readable (suc n * 8) ≡ true → IsLongest readable (suc n) (suc n)
found-IsLongest readable n y = record {
  bounded = omega arith;
  is_readable = λ ne. y;
  longer_fail = λ k l m. absurd (omega arith);
}

below-IsLongest :
    (readable : ℕ → Bool) (n len : ℕ)
    → readable (suc n * 8) ≡ false
    → IsLongest readable n len
    → IsLongest readable (suc n) len
below-IsLongest readable n len failed i = record {
  bounded = (let b = i.bounded in omega arith);
  is_readable = i.is_readable;
  longer_fail = λ k l m. elim (dec_lt k (suc n)) [
    | yes q ↦ i.longer_fail k l (omega arith)
    | no q ↦ (let e : k ≡ suc n = omega arith in rw e failed)
  ];
}

-- A client in a state `I` answers reads of at most `most` bytes of code by their size alone, and is
-- in such a state again when the error of a failing read is forgotten.
pub record ReadsBySize {W : Type 0} (I : W → Type 0) (e : Executor W) (clear : W → W) (pc most : ℕ)
    (readable : ℕ → Bool) : Type 0 where
  pub answers :
      (k val : ℕ) (w : W)
      → I w
      → k ≤ most
      → (e.read_mem pc (k * 8) read_executable val w).0 ≡ readable (k * 8)
  pub recovers :
      (k val : ℕ) (w : W)
      → I w
      → k ≤ most
      → readable (k * 8) ≡ false
      → I (clear (e.read_mem pc (k * 8) read_executable val w).2)

module _ {W : Type 0} (x : Xed) (h : Host) (e : Executor W) (clear : W → W) where
  -- After a read that fails, one byte less is read.
  pub fetch_failed :
      (n pc idata val : ℕ) (w w' : W)
      → e.read_mem pc (suc n * 8) read_executable idata w ≡ (false, val, w')
      → fetch x h e clear (suc n) pc idata w ≡ fetch x h e clear n pc val (clear w')
  unfolding fetch
  fetch_failed n pc idata val w w' failed =
      ap
        (λ (r : Bool × ℕ × W).
          if r.0 then (suc n, r.1, r.2) else fetch x h e clear n pc r.1 (clear r.2))
        failed

  pub fetch_by_size-IsLongest :
      (I : W → Type 0) (readable : ℕ → Bool) (pc most : ℕ)
      → ReadsBySize I e clear pc most readable
      → (n idata : ℕ) (w : W) → n ≤ most
      → I w
      → IsLongest readable n (fetch x h e clear n pc idata w).0
  unfolding fetch
  fetch_by_size-IsLongest I readable pc most r zero idata w inside i = record {
    bounded = omega arith;
    is_readable = λ ne. absurd (ne refl);
    longer_fail = λ k l m. absurd (omega arith);
  }
  fetch_by_size-IsLongest I readable pc most r (suc n) idata w inside i =
      let (passed, val, w') = e.read_mem pc (suc n * 8) read_executable idata w in
      let same = r.answers (suc n) idata w i inside in
      elim (Bool-cases (readable (suc n * 8))) [
        | inl y ↦ rw (same, y) (found-IsLongest readable n y)
        | inr failed ↦
            rw (same, failed)
              (below-IsLongest readable n _ failed (
                fetch_by_size-IsLongest I readable pc most r n val (clear w') (omega arith)
                  (r.recovers (suc n) idata w i inside failed)))
      ]

  -- For a client whose code at an address can be read or not by the size of the read alone: the
  -- fetch of at most `n` bytes finds the greatest number of bytes that can be read, and 0 if even
  -- one byte cannot be.
  pub fetch-IsLongest :
      (readable : ℕ → Bool) (pc : ℕ)
      → ((size val : ℕ) (w : W) → (e.read_mem pc size read_executable val w).0 ≡ readable size)
      → (n idata : ℕ) (w : W) → IsLongest readable n (fetch x h e clear n pc idata w).0
  fetch-IsLongest readable pc client n idata w =
      fetch_by_size-IsLongest (λ w. w ≡ w) readable pc n
        (record {
          answers = λ k val w i inside. client (k * 8) val w;
          recovers = λ k val w i inside failed. refl;
        })
        n idata w (omega arith) refl
