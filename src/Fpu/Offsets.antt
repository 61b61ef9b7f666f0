-- ===== src/Fpu/Offsets.antt =====
-- Sizes and offsets in the FPU state, against those that the code states and uses.
use microx.Base.{ℕ, ◌+◌, ◌*◌, ◌≤◌, ◌<◌, ◌≡◌, refl, some, arith}
use microx.Execute.Mmx.{st_offset}
use microx.Fpu.{size_of, offset_of, mmx_register, stack_elem_size, fxsave32, fxsave64}

-- In both FXSAVE layouts the element `st[i]` of an MMX register starts at the bit that
-- `CopyMMXStateToFPU` and `CopyMMXStateFromFPU` use, with its `infinity` right behind the 64 bits of
-- `mmx`, and ends inside the 512 bytes of the FPU state, and the two fields fit into an element.
pub st_offset-layout :
    (i : ℕ)
    → i < 8
    → (base : ℕ) × (offset_of "st" fxsave32 ≡ some base)
      × (offset_of "st" fxsave64 ≡ some base)
      × (st_offset i ≡ 8 * (base + i * stack_elem_size))
      × (offset_of "mmx" mmx_register ≡ some 0)
      × (offset_of "infinity" mmx_register ≡ some 8)
      × (size_of mmx_register ≤ stack_elem_size)
      × (st_offset i + 8 * size_of mmx_register ≤ 8 * size_of fxsave32)
      × (size_of fxsave32 ≡ 512)
      × (size_of fxsave64 ≡ 512)
st_offset-layout i small =
    (32, refl, refl, omega arith, refl, refl, omega arith, omega arith, refl, refl)
