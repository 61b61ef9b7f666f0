-- ===== src/Registers/Widest.antt =====
-- The vector registers under their widest names.
use microx.Base.{ℕ, ◌+◌, ◌≤◌, ◌<◌, ◌≡◌, Bool, true, false, ◌&&◌, if◌then◌else◌, arith}
use microx.Xed.{Xed}
use microx.State.{Executor}
use microx.Registers.{widest_register}

-- What the code relies on in XED's numbers: ranges of equal length, one after the other, and none of
-- them contains the invalid register.
pub record IsVectorRanges (x : Xed) : Type 0 where
  pub ymm_length : x.ymm_last + x.zmm_first ≡ x.zmm_last + x.ymm_first
  pub ymm_below_zmm : x.ymm_last < x.zmm_first
  pub invalid_below : x.invalid < x.ymm_first

-- The register of lane `i` under the widest name that the client has.
abbrev pub vector_register : Xed → Bool → Bool → ℕ → ℕ
vector_register x has_avx has_avx512 i =
    if has_avx512 then x.zmm_first + i else if has_avx then x.ymm_first + i else x.xmm_first + i

-- For a 64-bit client and a part of the `i`-th vector register, for which XED answers with the `i`-th
-- ZMM register or, as it does for the XMM and YMM registers, with the `i`-th YMM register: the widest
-- register is the `i`-th ZMM register if that was the answer and the client has AVX512, else the
-- `i`-th YMM register with AVX, else the `i`-th XMM register.
pub widest_register-vector :
    {W : Type 0} (x : Xed) (e : Executor W) (reg i : ℕ) (is_zmm : Bool)
    → IsVectorRanges x
    → e.addr_size ≡ 64
    → x.zmm_first + i ≤ x.zmm_last
    → x.enclosing reg ≡ (if is_zmm then x.zmm_first + i else x.ymm_first + i)
    → widest_register x e reg ≡ vector_register x e.has_avx (e.has_avx512 && is_zmm) i
unfolding widest_register
widest_register-vector x e reg i true v wide inside whole =
    let p = v.ymm_length in let q = v.ymm_below_zmm in let r = v.invalid_below in ground arith
widest_register-vector x e reg i false v wide inside whole =
    let p = v.ymm_length in let q = v.ymm_below_zmm in let r = v.invalid_below in ground arith
