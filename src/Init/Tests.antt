-- ===== src/Init/Tests.antt =====
-- The initialization at a concrete address.
use microx.Base.{◌≡◌, refl, ◌∙◌, true, false, none, arith}
use microx.State.{Globals}
use microx.Init.{Area, page_from, map_failed, init}
use microx.Init.Page.{IsInitialized, init_once, init-retry}
use microx.Fixture.{state}

-- An array that does not start at a page.
abbrev area : Area
area = record { storage = 0x5555_0000_1234; mmap = λ page. page }

abbrev new_globals : Globals
new_globals = record (state.globals) { is_initialized = false }

first_page : page_from area.storage ≡ 0x5555_0000_2000
unfolding page_from
first_page = refl

init_once_example :
    let result = init area new_globals none in
    (result.0 ≡ true)
    × IsInitialized area result.1 result.2
    × (init area result.1 result.2 ≡ (true, result.1, result.2))
init_once_example = init_once area new_globals none (omega arith) refl refl

-- `mmap` fails at first.
abbrev full : Area
full = record { storage = 0x5555_0000_1234; mmap = λ page. map_failed }

init-retry_example :
    let result = init full new_globals none in
    (result ≡ (false, new_globals, none))
    × (init area result.1 result.2 ≡ init area new_globals none)
init-retry_example =
    init-retry full area new_globals none refl (λ same.
      let place : map_failed ≡ 0x5555_0000_2000 = same ∙ first_page in absurd (omega arith))
