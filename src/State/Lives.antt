-- ===== src/State/Lives.antt =====
-- States between the read of the program counter and the write of the registers: the executor is
-- initialized, and a register is in use; and the actions that stay among them.
use microx.Base.{ℕ, ◌≡◌, Bool, true, false, Bool-cases, inl, inr, if◌then◌else◌}
use microx.State.{Globals, State, Act, done, ◌>>◌, modify, reading}

pub record IsLive (pc : ℕ) (g : Globals) : Type 0 where
  pub initialized : g.is_initialized ≡ true
  pub in_use : g.used_regs pc ≡ true

pub IsLive-if :
    {pc : ℕ} (b : Bool) {g g' : Globals}
    → IsLive pc g
    → IsLive pc g'
    → IsLive pc (if b then g else g')
IsLive-if true p q = p
IsLive-if false p q = q

-- The same of the globals in one of two results.
pub IsLive-second :
    {A : Type 0} {pc : ℕ} (b : Bool) (p q : A × Globals)
    → IsLive pc p.1
    → IsLive pc q.1
    → IsLive pc (if b then p else q).1
IsLive-second true p q i k = i
IsLive-second false p q i k = k

module _ {W : Type 0} (pc : ℕ) where
  -- An action that leaves such a state in such a state, whether it succeeds or not.
  pub record Lives (m : Act W) : Type 0 where
    pub lives : (s : State W) → IsLive pc s.globals → IsLive pc (m s).1.globals

module _ {W : Type 0} {pc : ℕ} where
  pub Lives-if : (b : Bool) {m k : Act W} → Lives pc m → Lives pc k → Lives pc (if b then m else k)
  Lives-if true p q = p
  Lives-if false p q = q

  pub Lives-done : Lives {W = W} pc done
  unfolding done
  Lives-done = record { lives = λ s i. i }

  pub Lives-modify :
      (f : Globals → Globals)
      → ((g : Globals) → IsLive pc g → IsLive pc (f g))
      → Lives {W = W} pc (modify f)
  unfolding modify
  Lives-modify f p = record { lives = λ s i. p s.globals i }

  pub Lives-reading :
      {f : Globals → Act W} → ((g : Globals) → Lives pc (f g)) → Lives pc (reading f)
  unfolding reading
  Lives-reading p = record { lives = λ s i. (p s.globals).lives s i }

  pub Lives->> : {m k : Act W} → Lives pc m → Lives pc k → Lives pc (m >> k)
  unfolding ◌>>◌
  Lives->> {m} p q = record {
    lives = λ s i. elim (Bool-cases (m s).0) [
      | inl y ↦ rw y (q.lives (m s).1 (p.lives s i))
      | inr n ↦ rw n (p.lives s i)
    ];
  }

pub ruleset live_rules = (Lives-if, Lives-done, Lives-reading, Lives->>)
