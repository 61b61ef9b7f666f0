-- ===== src/Init.antt =====
-- `Executor::Init` (`microx/Executor.cpp`): the page for native code, and the first values of the
-- globals. The initialization of XED's tables has no part in the state that is modelled, and the
-- signal handler that it sets up stands in Native.Signals.
pub mod Page
mod Tests
use microx.Base.{
  ℕ, ◌+◌, ◌-◌, ◌%◌, ◌^◌, Bool, true, false, ◌||◌, ◌==◌, not, if◌then◌else◌, u64, add64, sub64,
  bit_and, store_bits, Option, none, some,
}
use microx.State.{Globals}

abbrev pub page_size : ℕ
page_size = 4096

-- What `Init` takes from the machine: where the array `gExecArea_` of two pages stands, and the
-- address that `mmap` returns for a fixed one.
pub record Area : Type 0 where
  pub storage : ℕ
  pub mmap : ℕ → ℕ

-- `MAP_FAILED`.
abbrev pub map_failed : ℕ
map_failed = 2 ^ 64 - 1

-- `gExecArea`, the first multiple of the page size from an address on.
unfoldable pub page_from : ℕ → ℕ
page_from ea_addr =
    let rounded = bit_and (u64 (ea_addr + page_size - 1)) 0xffff_ffff_ffff_f000 in
    add64 ea_addr (sub64 rounded ea_addr)

unfoldable pub clear_globals : Globals → Globals
clear_globals g = record g { is_initialized = true; write_back_flags = 0; regs = λ r. 0 }

-- The result, the globals and `gExecArea`.
unfoldable pub init : Area → Globals → Option ℕ → Bool × Globals × Option ℕ
unfolding page_from clear_globals
init area g exec_area =
    let page = page_from area.storage in
    let ret = area.mmap page in
    if g.is_initialized
    then (true, g, exec_area)
    else if page == map_failed || not (page == ret)
    then (false, g, none)
    else (true, clear_globals g, some page)
