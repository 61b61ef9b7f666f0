-- ===== src/Registers/Request.antt =====
-- `ReadRegister`: what it asks of the client, and what it records.
use microx.Base.{ℕ}
use microx.Xed.{Xed, RegClass, x87, pseudox87, mmx, other_class}
use microx.State.{Executor, RegRequestHint}
use microx.State.Keeps.{ReadsKeep, Keeps, Keeps-modify, Keeps->>, keep_rules}
use microx.Registers.{read_register, read_gpr_register, request_register, read_class}

module _ {W : Type 0} (I : W → Type 0) (x : Xed) (e : Executor W) {clear : W → W}
    (r : ReadsKeep I e clear) where
  request_register-Keeps :
      (reg widest : ℕ) (hint : RegRequestHint) → Keeps I (request_register x e reg widest hint)
  unfolding request_register
  request_register-Keeps reg widest hint = record { keeps = λ s i. r.read_reg_keeps _ _ _ _ _ i }

  read_gpr_register-Keeps :
      (reg : ℕ) (hint : RegRequestHint) → Keeps I (read_gpr_register x e reg hint)
  unfolding read_gpr_register
  read_gpr_register-Keeps reg hint = search (keep_rules, request_register-Keeps)

  read_class-Keeps :
      (c : RegClass) (reg : ℕ) (hint : RegRequestHint) → Keeps I (read_class x e c reg hint)
  read_class-Keeps x87 reg hint = Keeps-modify _
  read_class-Keeps pseudox87 reg hint = Keeps-modify _
  read_class-Keeps mmx reg hint = Keeps->> (Keeps-modify _) (read_gpr_register-Keeps reg hint)
  read_class-Keeps other_class reg hint = read_gpr_register-Keeps reg hint

  pub read_register-Keeps : (reg : ℕ) (hint : RegRequestHint) → Keeps I (read_register x e reg hint)
  unfolding read_register
  read_register-Keeps reg hint = search (keep_rules, read_class-Keeps)
