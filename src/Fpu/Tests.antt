-- ===== src/Fpu/Tests.antt =====
-- The layouts at concrete fields.
use microx.Base.{ℕ, ◌+◌, ◌*◌, ◌≤◌, ◌≡◌, refl, some, arith}
use microx.Execute.Mmx.{st_offset}
use microx.Fpu.{
  size_of, offset_of, fpu_status_word, fpu_control_word, fpu_control_status, fpu_tag_word,
  fpu_abridged_tag_word, segment_selector, mmx_register, fpu_stack_elem, stack_elem_size, fsave,
  fxsave32, fxsave64,
}
use microx.Fpu.Offsets.{st_offset-layout}

-- The static assertions on sizes and on the fields of an element.
static_assertions :
    (size_of fpu_status_word ≡ 8 * 2)
    × (size_of fpu_control_word ≡ 8 * 2)
    × (size_of fpu_control_status ≡ 8 * 4)
    × (size_of fpu_tag_word ≡ 8 * 2)
    × (size_of fpu_abridged_tag_word ≡ 8 * 1)
    × (size_of segment_selector ≡ 8 * 2)
    × (size_of fpu_stack_elem ≡ 16)
    × (offset_of "st" fpu_stack_elem ≡ some 0)
    × (offset_of "_rsvd" fpu_stack_elem ≡ some 10)
    × (size_of fsave ≡ 512)
static_assertions = (refl, refl, refl, refl, refl, refl, refl, refl, refl, refl)

-- The last element.
st_offset-layout_example :
    (base : ℕ) × (offset_of "st" fxsave32 ≡ some base)
    × (offset_of "st" fxsave64 ≡ some base)
    × (st_offset 7 ≡ 8 * (base + 7 * stack_elem_size))
    × (offset_of "mmx" mmx_register ≡ some 0)
    × (offset_of "infinity" mmx_register ≡ some 8)
    × (size_of mmx_register ≤ stack_elem_size)
    × (st_offset 7 + 8 * size_of mmx_register ≤ 8 * size_of fxsave32)
    × (size_of fxsave32 ≡ 512)
    × (size_of fxsave64 ≡ 512)
st_offset-layout_example = st_offset-layout 7 (omega arith)
