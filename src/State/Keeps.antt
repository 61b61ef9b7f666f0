-- ===== src/State/Keeps.antt =====
-- Predicates on the client's state that an action keeps, and the rules for sequences.
use microx.Base.{arith, ℕ, Bool, true, false, if◌then◌else◌, String}
use microx.State.{
  Globals, Executor, State, Act, done, ◌>>◌, modify, reading, MemRequestHint, RegRequestHint,
}

-- The methods of the client that only read, and `clear`, keep a predicate.
pub record ReadsKeep {W : Type 0} (I : W → Type 0) (e : Executor W) (clear : W → W) : Type 0 where
  pub compute_address_keeps :
      (seg : String) (b i sc d sz : ℕ) (h : MemRequestHint) (w : W)
      → I w
      → I (e.compute_address seg b i sc d sz h w).1
  pub read_reg_keeps :
      (name : String) (size : ℕ) (h : RegRequestHint) (val : ℕ) (w : W)
      → I w
      → I (e.read_reg name size h val w).2
  pub read_mem_keeps :
      (a size : ℕ) (h : MemRequestHint) (val : ℕ) (w : W) → I w → I (e.read_mem a size h val w).2
  pub read_fpu_keeps : (val : ℕ) (w : W) → I w → I (e.read_fpu val w).2
  pub clear_keeps : (w : W) → I w → I (clear w)

module _ {W : Type 0} (I : W → Type 0) where
  pub record Keeps (m : Act W) : Type 0 where
    pub keeps : (s : State W) → I s.env → I (m s).1.env

module _ {W : Type 0} {I : W → Type 0} where
  pub Keeps-if : (b : Bool) {m k : Act W} → Keeps I m → Keeps I k → Keeps I (if b then m else k)
  Keeps-if true p q = p
  Keeps-if false p q = q

  pub Keeps-done : Keeps I done
  unfolding done
  Keeps-done = record { keeps = λ s i. i }

  pub Keeps-modify : (f : Globals → Globals) → Keeps I (modify f)
  unfolding modify
  Keeps-modify f = record { keeps = λ s i. i }

  pub Keeps-reading : {f : Globals → Act W} → ((g : Globals) → Keeps I (f g)) → Keeps I (reading f)
  unfolding reading
  Keeps-reading p = record { keeps = λ s i. (p s.globals).keeps s i }

  pub Keeps->> : {m k : Act W} → Keeps I m → Keeps I k → Keeps I (m >> k)
  unfolding ◌>>◌
  Keeps->> {m} {k} p q = record { keeps = λ s i. ground (arith, p.keeps s i, q.keeps (m s).1) }

pub ruleset keep_rules = (Keeps-if, Keeps-done, Keeps-modify, Keeps-reading, Keeps->>)
