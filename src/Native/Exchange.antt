-- ===== src/Native/Exchange.antt =====
-- The registers of the processor around native execution (`ExecuteNative` of `microx/Executor.cpp`).
use native.Mathlib.Nat.{mul-add-mod_self_right, mod-mod}
use microx.Base.{
  ℕ, zero, suc, ◌/◌, ◌%◌, ◌^◌, ◌<◌, ◌≡◌, refl, sym, ap, ◌∙◌, Bool, true, false, not, ◌&&◌, ◌||◌,
  ◌==◌, ==→eq, ==-refl, &&-left, &&-right, Bool-cases, inl, inr, low_bits, store_bits, List, [],
  ◌∷◌, arith,
}
use microx.Xed.{Xed}
use microx.Host.{Signal, no_signal}
use microx.State.{Globals, update}
use microx.Native.{
  Cpu, Machine, Numbers, exchanged, xchg_all, xmm_place, store_xmm, enter, leave, call_code,
  wait_fpu, execute_native,
}

abbrev pub elem : ℕ → List ℕ → Bool
elem r [] = false
elem r (q ∷ qs) = (r == q) || elem r qs

abbrev pub unique : List ℕ → Bool
unique [] = true
unique (q ∷ qs) = not (elem q qs) && unique qs

negated : (b : Bool) → not b ≡ true → b ≡ false
negated true h = sym h
negated false h = refl

second_holds : (a b : Bool) → (a || b) ≡ true → a ≡ false → b ≡ true
second_holds true b h e = cc
second_holds false b h e = h

update_other : (f : ℕ → ℕ) (k v r : ℕ) → (r == k) ≡ false → update f k v r ≡ f r
update_other f k v r other = rw other refl

update_own : (f : ℕ → ℕ) (k v : ℕ) → update f k v k ≡ v
update_own f k v = rw (==-refl k) refl

xchg_all-other :
    (rs : List ℕ) (r : ℕ) (regs gpr : ℕ → ℕ)
    → elem r rs ≡ false
    → let (regs', gpr') = xchg_all rs (regs, gpr) in (regs' r ≡ regs r) × (gpr' r ≡ gpr r)
unfolding xchg_all
xchg_all-other [] r regs gpr out = (refl, refl)
xchg_all-other (q ∷ qs) r regs gpr out =
    let here : (r == q) ≡ false = ground arith in
    let there : elem r qs ≡ false = ground arith in
    let (a, b) = xchg_all-other qs r _ _ there in
    (a ∙ update_other regs q _ r here, b ∙ update_other gpr q _ r here)

xchg_all-own :
    (rs : List ℕ) (r : ℕ) (regs gpr : ℕ → ℕ)
    → unique rs ≡ true
    → elem r rs ≡ true
    → let (regs', gpr') = xchg_all rs (regs, gpr) in
      (regs' r ≡ store_bits 64 (gpr r) (regs r)) × (gpr' r ≡ low_bits 64 (regs r))
unfolding xchg_all
xchg_all-own [] r regs gpr once listed = cc
xchg_all-own (q ∷ qs) r regs gpr once listed =
    let regs1 = update regs q (store_bits 64 (gpr q) (regs q)) in
    let gpr1 = update gpr q (low_bits 64 (regs q)) in
    elim (Bool-cases (r == q)) [
      | inl e ↦
          let same : r ≡ q = ==→eq r q e in
          let last : elem r qs ≡ false = rw same (negated _ (&&-left _ _ once)) in
          let (a, b) = xchg_all-other qs r regs1 gpr1 last in
          (
            a ∙ rw e (ap (λ k. store_bits 64 (gpr k) (regs k)) (sym same)),
            b ∙ rw e (ap (λ k. low_bits 64 (regs k)) (sym same)),
          )
      | inr other ↦
          let there : elem r qs ≡ true = second_holds _ _ listed other in
          let (a, b) = xchg_all-own qs r regs1 gpr1 (&&-right _ _ once) there in
          (a ∙ rw other refl, b ∙ rw other refl)
    ]

store_xmm-other :
    (x : Xed) (n r : ℕ) (xmm regs : ℕ → ℕ)
    → ((i : ℕ) → i < n → (r == xmm_place x i) ≡ false)
    → store_xmm x n xmm regs r ≡ regs r
unfolding store_xmm
store_xmm-other x zero r xmm regs out = refl
store_xmm-other x (suc n) r xmm regs out =
    rw (out n (omega arith)) (store_xmm-other x n r xmm regs (λ i below. out i (omega arith)))

-- A register of the list is none that is not in it.
listed_apart : (rs : List ℕ) (r q : ℕ) → elem r rs ≡ true → elem q rs ≡ false → (r == q) ≡ false
listed_apart rs r q here away = elim (Bool-cases (r == q)) [
  | inl e ↦ let no : true ≡ false = sym here ∙ ap (λ k. elem k rs) (==→eq r q e) ∙ away in cc
  | inr other ↦ other
]

-- What is stored and loaded by `xchg` is the value that was there.
exchanged_back : (w v d : ℕ) → low_bits w (store_bits w v d) ≡ low_bits w v
exchanged_back w v d = mul-add-mod_self_right (d / 2 ^ w) (2 ^ w) (v % 2 ^ w) ∙ mod-mod v (2 ^ w)

-- The numbers of the registers that are exchanged, of the flags and of the vector registers differ.
pub record IsDistinct (x : Xed) (n : Numbers) : Type 0 where
  pub once : unique (exchanged n) ≡ true
  pub no_flags : elem x.rflags (exchanged n) ≡ false
  pub no_vector : (i : ℕ) → i < 8 → elem (xmm_place x i) (exchanged n) ≡ false

module _ (x : Xed) (m : Machine) (n : Numbers) (d : IsDistinct x n) (r : ℕ)
    (listed : elem r (exchanged n) ≡ true) where
  enter-register :
      (g : Globals) (c : Cpu)
      → let (g', c') = enter x m n g c in
        (g'.regs r ≡ store_bits 64 (c.gpr r) (g.regs r)) × (c'.gpr r ≡ low_bits 64 (g.regs r))
  unfolding enter
  enter-register g c = xchg_all-own (exchanged n) r g.regs c.gpr d.once listed

  leave-register :
      (g : Globals) (c : Cpu)
      → let (g', c') = leave x m n g c in
        (g'.regs r ≡ store_bits 64 (c.gpr r) (g.regs r)) × (c'.gpr r ≡ low_bits 64 (g.regs r))
  unfolding leave
  leave-register g c =
      let flags = store_bits 64 (m.pushfq c.rflags) (g.regs x.rflags) in
      let flagged = update g.regs x.rflags flags in
      let kept : flagged r ≡ g.regs r =
        update_other g.regs x.rflags flags r
          (listed_apart (exchanged n) r x.rflags listed d.no_flags) in
      let (stored, loaded) = xchg_all-own (exchanged n) r flagged c.gpr d.once listed in
      (
        store_xmm-other x 8 r c.xmm (xchg_all (exchanged n) (flagged, c.gpr)).0
              (λ i below. listed_apart (exchanged n) r (xmm_place x i) listed (d.no_vector i below))
            ∙ stored
            ∙ ap (store_bits 64 (c.gpr r)) kept,
        loaded ∙ ap (low_bits 64) kept,
      )

-- The call of the code, as `ExecuteNative` does it.
abbrev pub called : Xed → Machine → Numbers → Globals → Cpu → Signal × ℕ × Cpu
called x m n g c =
    let (entered, at_call) = enter x m n g c in
    m.call entered.exec_area entered.memory0.contents at_call

-- What the code in `gExecArea` makes of an instruction's registers: for numbers that differ, and code
-- that raises no signal in the call and in the `fwait` behind it. In each of the 15 registers that are
-- exchanged, the code finds the low 64 bits of the register file, the register file then holds what
-- the code left in the register, and the processor has its own value back.
pub execute_native-registers :
    (x : Xed) (m : Machine) (n : Numbers) (r : ℕ) (g : Globals) (c : Cpu)
    → IsDistinct x n
    → elem r (exchanged n) ≡ true
    → (called x m n g c).0 ≡ no_signal
    → m.fwait (called x m n g c).2 ≡ no_signal
    → let left = (called x m n g c).2 in
      let (result, g', c') = execute_native x m n g c in
      (result ≡ no_signal)
      × ((enter x m n g c).1.gpr r ≡ low_bits 64 (g.regs r))
      × (low_bits 64 (g'.regs r) ≡ low_bits 64 (left.gpr r))
      × (c'.gpr r ≡ low_bits 64 (c.gpr r))
unfolding execute_native call_code wait_fpu
execute_native-registers x m n r g c d listed returned waited =
    let (entered, at_call) = enter x m n g c in
    let (signal, contents, left) = m.call entered.exec_area entered.memory0.contents at_call in
    let before = record entered { memory0 = record (entered.memory0) { contents = contents } } in
    let (saved, found) = enter-register x m n d r listed g c in
    let (written, restored) = leave-register x m n d r listed before left in
    rw (returned, waited)
      (
        refl,
        found,
        ap (low_bits 64) written ∙ exchanged_back 64 (left.gpr r) (entered.regs r),
        restored ∙ ap (low_bits 64) saved ∙ exchanged_back 64 (c.gpr r) (g.regs r),
      )
