-- ===== src/MemoryOps/Keeps.antt =====
-- `ReadMemory`, and predicates on the client's state.
use microx.Base.{ℕ, List, [], ◌∷◌, Bool-cases, inl, inr}
use microx.Xed.{Xed, Operand, OperandName, agen, mem0, mem1}
use microx.State.{Executor}
use microx.State.Keeps.{ReadsKeep, Keeps, Keeps-done, keep_rules}
use microx.MemoryOps.{
  is_agen, fetch_memory, read_memory_operand, read_memory_named, read_memory_operands, read_memory,
}

module _ {W : Type 0} (I : W → Type 0) (x : Xed) (e : Executor W) {clear : W → W}
    (r : ReadsKeep I e clear) where
  fetch_memory-Keeps : (op : Operand) (i : ℕ) → Keeps I (fetch_memory x e op i)
  unfolding fetch_memory
  fetch_memory-Keeps op i = record {
    keeps = λ s k. elim (Bool-cases (is_agen op.name)) [
      | inl y ↦ rw y (r.compute_address_keeps _ _ _ _ _ _ _ _ k)
      | inr n ↦ rw n (r.read_mem_keeps _ _ _ _ _ (r.compute_address_keeps _ _ _ _ _ _ _ _ k))
    ];
  }

  read_memory_operand-Keeps : (op : Operand) (i : ℕ) → Keeps I (read_memory_operand x e op i)
  unfolding read_memory_operand
  read_memory_operand-Keeps op i = search (keep_rules, fetch_memory-Keeps)

  read_memory_named-Keeps :
      (name : OperandName) (op : Operand) → Keeps I (read_memory_named x e name op)
  read_memory_named-Keeps agen op = read_memory_operand-Keeps op 0
  read_memory_named-Keeps mem0 op = read_memory_operand-Keeps op 0
  read_memory_named-Keeps mem1 op = read_memory_operand-Keeps op 1
  read_memory_named-Keeps _ op = Keeps-done

  read_memory_operands-Keeps : (ops : List Operand) → Keeps I (read_memory_operands x e ops)
  unfolding read_memory_operands
  read_memory_operands-Keeps [] = Keeps-done
  read_memory_operands-Keeps (op ∷ ops) =
      search (keep_rules, read_memory_named-Keeps op.name op, read_memory_operands-Keeps ops)

  pub read_memory-Keeps : Keeps I (read_memory x e)
  unfolding read_memory
  read_memory-Keeps = search (keep_rules, read_memory_operands-Keeps)
