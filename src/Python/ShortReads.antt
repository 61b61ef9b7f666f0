-- ===== src/Python/ShortReads.antt =====
-- The fetch of instruction bytes from a Python object that answers with too few bytes (`Execute` of
-- `microx/Executor.cpp`, `ReadMem` of `microx/Python.cpp`).
use mathlib.Core.Path.{subst}
use microx.Base.{
  ℕ, zero, suc, ◌*◌, ◌≤◌, ◌<◌, ◌≡◌, ◌≢◌, refl, sym, ap, ◌∙◌, true, false, ◌==◌, Option, some, arith,
}
use microx.Xed.{Xed}
use microx.Host.{Host}
use microx.State.{read_executable}
use microx.Execute.{fetch}
use microx.Execute.Fetch.{fetch_failed}
use microx.Python.Api.{Api, Message, read_memory_usage, Exception, value_error, incorrect_bytes}
use microx.Python.Values.{Client, read_value, read_bytes_value}
use microx.Python.Client.{python_executor, converted, read_mem}
use microx.Python.Module.{clear_errors}
use microx.Python.Fetching.{
  code_arguments, IsOpen, clear_errors-has_error, code_read, value_size_of_bytes,
}

module _ {O W : Type 0} (api : Api O W) where
  clear_errors-error : (c : Client W) → (clear_errors api c).error ≡ c.error
  unfolding clear_errors
  clear_errors-error c = ground arith

  module _ (x : Xed) (h : Host) (addr_size : ℕ) where
    abbrev fetched : ℕ → ℕ → ℕ → Client W → ℕ × ℕ × Client W
    fetched n pc idata c =
        fetch x h (python_executor api addr_size h.uninitialized_data) (clear_errors api) n pc idata
          c

    -- What is fetched, when no more is read.
    abbrev Stopped : Option (Exception × Message) → ℕ × ℕ × Client W → Type 0
    Stopped error r = (r.0 ≡ 0) × (r.2.error ≡ error)

    stopped :
        (n pc idata : ℕ) (c : Client W)
        → c.has_error ≡ true
        → Stopped c.error (fetched n pc idata c)
    unfolding fetch read_mem
    stopped zero pc idata c error = (refl, refl)
    stopped (suc n) pc idata c error =
        subst (Stopped c.error)
          (sym (
            fetch_failed x h (python_executor api addr_size h.uninitialized_data) (clear_errors api)
              n pc idata idata c c (rw error refl)))
          (let (none_read, kept) =
              stopped n pc idata (clear_errors api c) (clear_errors-has_error api c ∙ error) in
            (none_read, kept ∙ clear_errors-error c))

    wrong_size :
        (n pc val : ℕ) (c : Client W) (o : O)
        → n ≤ 15
        → IsOpen api c
        → (api.call_method "read_memory" (code_arguments api pc n) c.python).0 ≡ some o
        → api.bytes_check o ≡ true
        → api.bytes_size o ≢ n
        → read_mem api pc (n * 8) read_executable val c ≡ (
          false,
          val,
          record c {
            has_error = true;
            error = some (
              value_error,
              incorrect_bytes (read_memory_usage pc n read_executable) n (api.bytes_size o),
            );
            python = (api.call_method "read_memory" (code_arguments api pc n) c.python).1;
          },
        )
    unfolding converted read_value read_bytes_value
    wrong_size n pc val c o small no_error call is_bytes other =
        let differ : (n == api.bytes_size o) ≡ false = ground arith in
        code_read api pc n val c small no_error
        ∙ rw (call, no_error, is_bytes, value_size_of_bytes api n small, differ) refl

    -- For a Python object that answers the first read of code, of `n` bytes, with a bytes object of
    -- another size, and before an error was kept: nothing is fetched, however many bytes could have
    -- been read, and the error that the executor keeps is a ValueError.
    pub fetch_short-stopped :
        (n pc idata : ℕ) (c : Client W) (o : O)
        → 0 < n
        → n ≤ 15
        → IsOpen api c
        → (api.call_method "read_memory" (code_arguments api pc n) c.python).0 ≡ some o
        → api.bytes_check o ≡ true
        → api.bytes_size o ≢ n
        → let (len, val, c') =
            fetch x h
              (python_executor api addr_size h.uninitialized_data)
              (clear_errors api)
              n
              pc
              idata
              c in
          (len ≡ 0)
          × (c'.error
              ≡ some (
                value_error,
                incorrect_bytes (read_memory_usage pc n read_executable) n (api.bytes_size o),
              ))
    fetch_short-stopped zero pc idata c o some_bytes small no_error call is_bytes other =
        absurd (omega arith)
    fetch_short-stopped (suc n) pc idata c o some_bytes small no_error call is_bytes other =
        let e =
          fetch_failed x h (python_executor api addr_size h.uninitialized_data) (clear_errors api) n
            pc idata _ c _ (wrong_size (suc n) pc idata c o small no_error call is_bytes other) in
        let (none_read, kept) =
          stopped n pc idata (clear_errors api _) (clear_errors-has_error api _ ∙ refl) in
        (
          ap (λ (r : ℕ × ℕ × Client W). r.0) e ∙ none_read,
          ap (λ (r : ℕ × ℕ × Client W). r.2.error) e ∙ kept ∙ clear_errors-error _,
        )
