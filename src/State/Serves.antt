-- ===== src/State/Serves.antt =====
-- Clients whose methods succeed as long as a predicate on their state holds, and the actions that
-- succeed with them.
use microx.Base.{ℕ, ◌≡◌, refl, Bool, true, false, if◌then◌else◌, String}
use microx.State.{
  Globals, Executor, State, Act, done, ◌>>◌, modify, reading, MemRequestHint, RegRequestHint,
}

module _ {W : Type 0} (I : W → Type 0) where
  -- A call that succeeds and keeps the predicate.
  abbrev pub Served : Bool × W → Type 0
  Served r = (r.0 ≡ true) × I r.1

  pub record ServesCalls (e : Executor W) (clear : W → W) : Type 0 where
    pub serves_address :
        (seg : String) (b i sc d sz : ℕ) (h : MemRequestHint) (w : W)
        → I w
        → I (e.compute_address seg b i sc d sz h w).1
    pub serves_read_reg :
        (name : String) (size : ℕ) (h : RegRequestHint) (val : ℕ) (w : W)
        → I w
        → let (passed, val', w') = e.read_reg name size h val w in Served (passed, w')
    pub serves_write_reg :
        (name : String) (size val : ℕ) (w : W) → I w → Served (e.write_reg name size val w)
    pub serves_read_mem :
        (a size : ℕ) (h : MemRequestHint) (val : ℕ) (w : W)
        → I w
        → let (passed, val', w') = e.read_mem a size h val w in Served (passed, w')
    pub serves_write_mem : (a size val : ℕ) (w : W) → I w → Served (e.write_mem a size val w)
    pub serves_read_fpu :
        (val : ℕ) (w : W) → I w → let (passed, val', w') = e.read_fpu val w in Served (passed, w')
    pub serves_write_fpu : (val : ℕ) (w : W) → I w → Served (e.write_fpu val w)
    pub serves_clear : (w : W) → I w → I (clear w)

  -- An action that succeeds and keeps the predicate.
  pub record Serves (m : Act W) : Type 0 where
    pub serves : (s : State W) → I s.env → let (passed, s') = m s in Served (passed, s'.env)

module _ {W : Type 0} {I : W → Type 0} where
  pub Serves-if : (b : Bool) {m k : Act W} → Serves I m → Serves I k → Serves I (if b then m else k)
  Serves-if true p q = p
  Serves-if false p q = q

  pub Serves-done : Serves I done
  unfolding done
  Serves-done = record { serves = λ s i. (refl, i) }

  pub Serves-modify : (f : Globals → Globals) → Serves I (modify f)
  unfolding modify
  Serves-modify f = record { serves = λ s i. (refl, i) }

  pub Serves-reading :
      {f : Globals → Act W} → ((g : Globals) → Serves I (f g)) → Serves I (reading f)
  unfolding reading
  Serves-reading p = record { serves = λ s i. (p s.globals).serves s i }

  pub Serves->> : {m k : Act W} → Serves I m → Serves I k → Serves I (m >> k)
  unfolding ◌>>◌
  Serves->> {m} {k} p q = record {
    serves = λ s i. let (passed, kept) = p.serves s i in rw passed (q.serves (m s).1 kept);
  }

pub ruleset serve_rules = (Serves-if, Serves-done, Serves-modify, Serves-reading, Serves->>)
