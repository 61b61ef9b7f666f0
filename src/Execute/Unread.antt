-- ===== src/Execute/Unread.antt =====
-- The bytes of `idata` that `Execute` (`microx/Executor.cpp`) keeps from one instruction to the next.
use mathlib.Core.Path.{fun_ext, subst}
use microx.Base.{
  ℕ, zero, suc, ◌*◌, ◌≡◌, refl, ap, ◌∙◌, Bool, true, false, ◌==◌, if◌then◌else◌, low_bits, arith,
}
use microx.Xed.{Xed}
use microx.Host.{Host}
use microx.State.{
  Executor, ExecutorStatus, State, read_executable, error_read_inst_mem, error_read_reg,
}
use microx.Emulate.Machine.{get_pc}
use microx.Operands.{read_pc}
use microx.Execute.{
  Run, or_return, on_globals, reset, fetch, with_inst, fetch_and_decode, execute_decoded,
  execute_one, execute_loop,
}

-- The client answers a read of code whatever is in the buffer, and a successful read fills the bytes
-- that were asked for; the decoder looks at the bytes of the instruction only.
pub record IgnoresOldBytes {W : Type 0} (x : Xed) (e : Executor W) : Type 0 where
  pub same_outcome :
      (addr n old old' : ℕ) (w : W)
      → (e.read_mem addr (n * 8) read_executable old w).0
        ≡ (e.read_mem addr (n * 8) read_executable old' w).0
  pub same_client :
      (addr n old old' : ℕ) (w : W)
      → (e.read_mem addr (n * 8) read_executable old w).2
        ≡ (e.read_mem addr (n * 8) read_executable old' w).2
  pub same_bytes :
      (addr n old old' : ℕ) (w : W)
      → (e.read_mem addr (n * 8) read_executable old w).0 ≡ true
      → low_bits (n * 8) (e.read_mem addr (n * 8) read_executable old w).1
        ≡ low_bits (n * 8) (e.read_mem addr (n * 8) read_executable old' w).1
  pub decodes :
      (mode : Bool) (bytes bytes' n : ℕ)
      → low_bits (n * 8) bytes ≡ low_bits (n * 8) bytes'
      → x.decode mode bytes n ≡ x.decode mode bytes' n

module _ {W : Type 0} (x : Xed) (h : Host) (e : Executor W) (clear : W → W)
    (i : IgnoresOldBytes x e) where
  -- Two fetches that agree in all that is used.
  record Agree (r r' : ℕ × ℕ × W) : Type 0 where
    len : r.0 ≡ r'.0
    client : r.2 ≡ r'.2
    bytes : low_bits (r.0 * 8) r.1 ≡ low_bits (r.0 * 8) r'.1

  choice-Agree :
      (b b' : Bool) (p p' q q' : ℕ × ℕ × W)
      → b ≡ b'
      → (b ≡ true → Agree p p')
      → Agree q q'
      → Agree (if b then p else q) (if b' then p' else q')
  choice-Agree true true p p' q q' same hit miss = hit refl
  choice-Agree true false p p' q q' same hit miss = cc
  choice-Agree false true p p' q q' same hit miss = cc
  choice-Agree false false p p' q q' same hit miss = miss

  fetch-Agree :
      (n pc old old' : ℕ) (w : W)
      → Agree (fetch x h e clear n pc old w) (fetch x h e clear n pc old' w)
  unfolding fetch
  fetch-Agree zero pc old old' w = record { len = refl; client = refl; bytes = omega arith }
  fetch-Agree (suc n) pc old old' w =
      let (passed, val, w1) = e.read_mem pc (suc n * 8) read_executable old w in
      let (passed', val', w1') = e.read_mem pc (suc n * 8) read_executable old' w in
      let client = i.same_client pc (suc n) old old' w in
      choice-Agree passed passed' (suc n, val, w1) (suc n, val', w1')
        (fetch x h e clear n pc val (clear w1)) (fetch x h e clear n pc val' (clear w1'))
        (i.same_outcome pc (suc n) old old' w)
        (λ y. record { len = refl; client = client; bytes = i.same_bytes pc (suc n) old old' w y })
        (subst
          (λ c.
            Agree (fetch x h e clear n pc val (clear w1)) (fetch x h e clear n pc val' (clear c)))
          client (fetch-Agree n pc val val' (clear w1)))

  -- What follows the fetch.
  abbrev decoding : (ℕ → Run W) → State W → ℕ × ℕ × W → ExecutorStatus × State W
  decoding k s (len, idata, w) =
      if len == 0
      then (error_read_inst_mem, record s { env = w })
      else with_inst x h e clear (x.decode (e.addr_size == 32) idata len) (k idata)
          (record s { env = w })

  decoding_same :
      (k : ℕ → Run W)
      → ((idata idata' : ℕ) → k idata ≡ k idata')
      → (s : State W) (r r' : ℕ × ℕ × W) → Agree r r'
      → decoding k s r ≡ decoding k s r'
  decoding_same k same s (len, idata, w) (len', idata', w') a =
      let mode = e.addr_size == 32 in
      let found = i.decodes mode idata idata' len a.bytes in
      ap
        (λ o.
          if len == 0
          then (error_read_inst_mem, record s { env = w })
          else with_inst x h e clear o (k idata) (record s { env = w }))
        found
      ∙ ap
          (λ c.
            if len == 0
            then (error_read_inst_mem, record s { env = w })
            else with_inst x h e clear (x.decode mode idata' len) c (record s { env = w }))
          (same idata idata')
      ∙ ap (λ n. decoding k s (n, idata', w)) a.len
      ∙ ap (λ c. decoding k s (len', idata', c)) a.client

  execute_one_same :
      (k : ℕ → Run W)
      → ((idata idata' : ℕ) → k idata ≡ k idata')
      → (old old' : ℕ) (s : State W)
      → execute_one x h e clear old k s ≡ execute_one x h e clear old' k s
  unfolding execute_one on_globals or_return fetch_and_decode
  execute_one_same k same old old' s =
      let (passed, s') = read_pc x e (record s { globals = reset x s.globals }) in
      let (pc, w) = e.compute_address "CS" (get_pc x e s'.globals) 0 0 0 8 read_executable s'.env in
      ap (λ r. if passed then r else (error_read_reg, s'))
        (decoding_same (λ idata. execute_decoded x h e clear (k idata))
          (λ idata idata'. ap (execute_decoded x h e clear) (same idata idata')) s'
          (fetch x h e clear 15 pc old w) (fetch x h e clear 15 pc old' w)
          (fetch-Agree 15 pc old old' w))

  -- The loop does not depend on what is in the buffer when it starts.
  pub execute_loop_same :
      (n idata idata' : ℕ) → execute_loop x h e clear n idata ≡ execute_loop x h e clear n idata'
  unfolding execute_loop
  execute_loop_same zero idata idata' = refl
  execute_loop_same (suc n) idata idata' =
      fun_ext (execute_one_same (execute_loop x h e clear n) (execute_loop_same n) idata idata')
