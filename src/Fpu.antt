-- ===== src/Fpu.antt =====
-- The layouts of the FPU state (`microx/include/microx/Executor.h`): packed structures as lists of
-- fields with their sizes in bytes, and packed bit fields with their widths in bits.
pub mod Offsets
mod Tests
use microx.Base.{
  ℕ, zero, suc, ◌+◌, ◌-◌, ◌*◌, if◌then◌else◌, List, [], ◌∷◌, ◌++◌, Option, none, some, String,
}
use text.Mathlib.Text.{◌==◌ as ◌is◌}

abbrev pub Layout : Type 0
Layout = List (String × ℕ)

-- `sizeof` of a packed structure, and `offsetof`.
abbrev pub size_of : Layout → ℕ
size_of [] = 0
size_of ((name, size) ∷ fields) = size + size_of fields

abbrev pub offset_of : String → Layout → Option ℕ
offset_of wanted [] = none
offset_of wanted ((name, size) ∷ fields) =
    if name is wanted
    then some 0
    else elim (offset_of wanted fields) [ none ↦ none | some offset ↦ some (size + offset) ]

-- `union FPUStatusWord`, in bits.
abbrev pub fpu_status_word : Layout
fpu_status_word =
    ("ie", 1)
    ∷ ("de", 1)
    ∷ ("ze", 1)
    ∷ ("oe", 1)
    ∷ ("ue", 1)
    ∷ ("pe", 1)
    ∷ ("sf", 1)
    ∷ ("es", 1)
    ∷ ("c0", 1)
    ∷ ("c1", 1)
    ∷ ("c2", 1)
    ∷ ("top", 3)
    ∷ ("c3", 1)
    ∷ ("b", 1)
    ∷ []

-- `union FPUControlWord`, in bits.
abbrev pub fpu_control_word : Layout
fpu_control_word =
    ("im", 1)
    ∷ ("dm", 1)
    ∷ ("zm", 1)
    ∷ ("om", 1)
    ∷ ("um", 1)
    ∷ ("pm", 1)
    ∷ ("_rsvd0", 2)
    ∷ ("pc", 2)
    ∷ ("rc", 2)
    ∷ ("x", 1)
    ∷ ("_rsvd1", 3)
    ∷ []

-- `union FPUControlStatus`, in bits.
abbrev pub fpu_control_status : Layout
fpu_control_status =
    ("ie", 1)
    ∷ ("de", 1)
    ∷ ("ze", 1)
    ∷ ("oe", 1)
    ∷ ("ue", 1)
    ∷ ("pe", 1)
    ∷ ("daz", 1)
    ∷ ("im", 1)
    ∷ ("dm", 1)
    ∷ ("zm", 1)
    ∷ ("om", 1)
    ∷ ("um", 1)
    ∷ ("pm", 1)
    ∷ ("rn", 1)
    ∷ ("rp", 1)
    ∷ ("fz", 1)
    ∷ ("_rsvd", 16)
    ∷ []

-- `union FPUTagWord`, `union FPUAbridgedTagWord` and `union SegmentSelector`, in bits.
abbrev pub fpu_tag_word : Layout
fpu_tag_word =
    ("tag0", 2)
    ∷ ("tag1", 2)
    ∷ ("tag2", 2)
    ∷ ("tag3", 2)
    ∷ ("tag4", 2)
    ∷ ("tag5", 2)
    ∷ ("tag6", 2)
    ∷ ("tag7", 2)
    ∷ []

abbrev pub fpu_abridged_tag_word : Layout
fpu_abridged_tag_word =
    ("r0", 1)
    ∷ ("r1", 1)
    ∷ ("r2", 1)
    ∷ ("r3", 1)
    ∷ ("r4", 1)
    ∷ ("r5", 1)
    ∷ ("r6", 1)
    ∷ ("r7", 1)
    ∷ []

abbrev pub segment_selector : Layout
segment_selector = ("rpi", 2) ∷ ("ti", 1) ∷ ("index", 13) ∷ []

-- `struct FPUStackElem`, whose first 10 bytes are a union: `st` of 10 bytes, or the two fields of an
-- MMX register.
abbrev pub mmx_register : Layout
mmx_register = ("mmx", 8) ∷ ("infinity", 2) ∷ []

abbrev pub fpu_stack_elem : Layout
fpu_stack_elem = ("st", 10) ∷ ("_rsvd", 6) ∷ []

abbrev pub stack_elem_size : ℕ
stack_elem_size = size_of fpu_stack_elem

-- `struct FpuFSAVE`.
abbrev pub fpu_fsave : Layout
fpu_fsave =
    ("cwd", 2)
    ∷ ("_rsvd0", 2)
    ∷ ("swd", 2)
    ∷ ("_rsvd1", 2)
    ∷ ("ftw", 2)
    ∷ ("fop", 2)
    ∷ ("ip", 4)
    ∷ ("cs", 2)
    ∷ ("_rsvd2", 2)
    ∷ ("dp", 4)
    ∷ ("ds", 2)
    ∷ ("_rsvd3", 2)
    ∷ ("st", 8 * stack_elem_size)
    ∷ []

-- `struct FpuFXSAVE`.
abbrev pub fpu_fxsave : Layout
fpu_fxsave =
    ("cwd", 2)
    ∷ ("swd", 2)
    ∷ ("ftw", 1)
    ∷ ("_rsvd0", 1)
    ∷ ("fop", 2)
    ∷ ("ip", 4)
    ∷ ("cs", 2)
    ∷ ("_rsvd1", 2)
    ∷ ("dp", 4)
    ∷ ("ds", 2)
    ∷ ("_rsvd2", 2)
    ∷ ("mxcsr", 4)
    ∷ ("mxcsr_mask", 4)
    ∷ ("st", 8 * stack_elem_size)
    ∷ ("xmm", 16 * 16)
    ∷ []

-- `struct FpuFXSAVE64`.
abbrev pub fpu_fxsave64 : Layout
fpu_fxsave64 =
    ("cwd", 2)
    ∷ ("swd", 2)
    ∷ ("ftw", 1)
    ∷ ("_rsvd0", 1)
    ∷ ("fop", 2)
    ∷ ("ip", 8)
    ∷ ("dp", 8)
    ∷ ("mxcsr", 4)
    ∷ ("mxcsr_mask", 4)
    ∷ ("st", 8 * stack_elem_size)
    ∷ ("xmm", 16 * 16)
    ∷ []

-- A variant of `union FPU`: a structure and the padding behind it.
abbrev pub padded : Layout → Layout
padded fields = fields ++ ("_padding0", 512 - size_of fields) ∷ []

abbrev pub fsave : Layout
fsave = padded fpu_fsave

abbrev pub fxsave32 : Layout
fxsave32 = padded fpu_fxsave

abbrev pub fxsave64 : Layout
fxsave64 = padded fpu_fxsave64
