-- ===== src/Init/Page.antt =====
-- Where the page for native code lies.
use microx.Base.{
  ℕ, ◌+◌, ◌-◌, ◌*◌, ◌/◌, ◌%◌, ◌^◌, ◌≤◌, ◌<◌, ◌≡◌, ◌≢◌, ==-refl, refl, true, false, ◌==◌, not,
  Bool-cases, inl, inr, u64, bit_and, Option, none, some, arith,
}
use microx.Base.Bits.{bit_and_split, bit_and-zero, bit_and_mask}
use microx.State.{Globals}
use microx.Init.{page_size, Area, page_from, map_failed, clear_globals, init}

-- The mask drops the offset within a page.
drop_offset : (n : ℕ) → n < 2 ^ 64 → bit_and n 0xffff_ffff_ffff_f000 ≡ n / 2 ^ 12 * 2 ^ 12
drop_offset n fits = ground (
  arith,
  bit_and_split 12 (n / 2 ^ 12) (2 ^ 52 - 1) (n % 2 ^ 12) 0,
  bit_and_mask 52 (n / 2 ^ 12),
  bit_and-zero 12 (n % 2 ^ 12),
)

-- A page of an array of two pages from an address on.
pub record IsPageOf (storage page : ℕ) : Type 0 where
  pub aligned : page % page_size ≡ 0
  pub starts_inside : storage ≤ page
  pub ends_inside : page + page_size ≤ storage + 2 * page_size

page_from_lem :
    (storage : ℕ)
    → storage + 2 * page_size ≤ 2 ^ 64
    → page_from storage ≡ (storage + 4095) / 2 ^ 12 * 2 ^ 12
unfolding page_from
page_from_lem storage fits =
    rw (drop_offset (u64 (storage + page_size - 1)) (omega arith)) (omega arith)

page_from-IsPageOf :
    (storage : ℕ) → storage + 2 * page_size ≤ 2 ^ 64 → IsPageOf storage (page_from storage)
page_from-IsPageOf storage fits =
    let e = page_from_lem storage fits in
    record { aligned = omega arith; starts_inside = omega arith; ends_inside = omega arith }

-- The state that a successful initialization leaves.
pub record IsInitialized (area : Area) (g : Globals) (exec_area : Option ℕ) : Type 0 where
  pub initialized : g.is_initialized ≡ true
  pub cleared : (r : ℕ) → g.regs r ≡ 0
  pub place : (page : ℕ) × (exec_area ≡ some page) × IsPageOf area.storage page

fits-valid :
    (storage page : ℕ)
    → storage + 2 * page_size ≤ 2 ^ 64
    → IsPageOf storage page
    → (page == map_failed) ≡ false
fits-valid storage page fits inside = let b = inside.ends_inside in ground arith

-- The first call of `Init`, for an array of two pages in the address space and a page that `mmap`
-- maps where it is asked to: it succeeds, all registers are 0, and `gExecArea` is a whole page of the
-- array at a multiple of the page size; a further call succeeds and changes nothing.
pub init_once :
    (area : Area) (g : Globals) (exec_area : Option ℕ)
    → area.storage + 2 * page_size ≤ 2 ^ 64
    → g.is_initialized ≡ false
    → area.mmap (page_from area.storage) ≡ page_from area.storage
    → let result = init area g exec_area in
      (result.0 ≡ true)
      × IsInitialized area result.1 result.2
      × (init area result.1 result.2 ≡ (true, result.1, result.2))
unfolding init clear_globals
init_once area g exec_area fits new mapped =
    let page = page_from area.storage in
    let inside = page_from-IsPageOf area.storage fits in
    let same : not (page == area.mmap page) ≡ false = rw (mapped, ==-refl page) refl in
    rw (new, fits-valid area.storage page fits inside, same)
      (refl, record { initialized = refl; cleared = λ r. refl; place = (page, refl, inside) }, refl)

-- If `mmap` does not map the page where it is asked to, `Init` of globals that are not initialized
-- fails with the globals as they were and no `gExecArea`; a later call, whatever `mmap` then does, has
-- the outcome that it would have had as the first.
pub init-retry :
    (area later : Area) (g : Globals) (exec_area : Option ℕ)
    → g.is_initialized ≡ false
    → area.mmap (page_from area.storage) ≢ page_from area.storage
    → let result = init area g exec_area in
      (result ≡ (false, g, none)) × (init later result.1 result.2 ≡ init later g exec_area)
unfolding init
init-retry area later g exec_area new moved =
    let page = page_from area.storage in
    let other : not (page == area.mmap page) ≡ true = ground arith in
    elim (Bool-cases (page == map_failed)) [
      | inl y ↦ rw (new, y) (refl, refl)
      | inr n ↦ rw (new, n, other) (refl, refl)
    ]
