-- ===== src/Flags/Fields.antt =====
-- The positions of the arithmetic flags in `union Flags` (`microx/Executor.cpp`).
use microx.Base.{ℕ}

abbrev pub cf_bit : ℕ
cf_bit = 0

abbrev pub pf_bit : ℕ
pf_bit = 2

abbrev pub af_bit : ℕ
af_bit = 4

abbrev pub zf_bit : ℕ
zf_bit = 6

abbrev pub sf_bit : ℕ
sf_bit = 7

abbrev pub df_bit : ℕ
df_bit = 10

abbrev pub of_bit : ℕ
of_bit = 11
