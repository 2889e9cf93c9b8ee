-- ===== src/Memory/Tests.antt =====
-- Runs of the frame allocator at small bitmaps, and the instances of its theorems.
use mikan_os.Prelude.{◌+◌, ◌≤◌, ◌≡◌, refl, ◌⊎◌, true, [], ◌∷◌, some, if◌then◌else◌, arith}
use mikan_os.Memory.{
  BitmapMemoryManager, get_bit, set_bit, set_bits, mark_allocated, free, scan, allocate_from,
  allocate,
}
use mikan_os.Memory.Bitmap.{IsValid, in_run}
use mikan_os.Memory.FirstFit.{FirstFit, allocate-FirstFit}
use mikan_os.Memory.Alloc.{
  granted, granted-IsValid, get_bit-granted, free-allocate, allocate_disjoint,
}

-- Two lines; frames 0 and 2 are in use.
abbrev small : BitmapMemoryManager
small = record { alloc_map = 5 ∷ 0 ∷ []; range_begin = 1; range_end = 128 }

small-IsValid : IsValid small
small-IsValid = omega arith

-- After two frames were taken, at frames 3 and 4.
abbrev smaller : BitmapMemoryManager
smaller = record small { alloc_map = 29 ∷ 0 ∷ [] }

allocate_two : allocate small 2 ≡ some (granted 3, smaller)
unfolding allocate allocate_from scan get_bit mark_allocated set_bits set_bit
allocate_two = refl

allocate_one : allocate smaller 1 ≡ some (granted 1, record smaller { alloc_map = 31 ∷ 0 ∷ [] })
unfolding allocate allocate_from scan get_bit mark_allocated set_bits set_bit
allocate_one = refl

allocate-FirstFit_example : FirstFit small 2 1 (allocate small 2)
allocate-FirstFit_example = allocate-FirstFit small 2 small-IsValid

granted-IsValid_example : IsValid smaller
granted-IsValid_example = granted-IsValid 2 3 small-IsValid allocate_two

get_bit-granted_example : get_bit smaller 4 ≡ (if in_run 3 2 4 then true else get_bit small 4)
get_bit-granted_example = get_bit-granted 2 3 small-IsValid allocate_two 4

free-allocate_example : get_bit (free smaller 3 2).1 4 ≡ get_bit small 4
free-allocate_example = free-allocate 2 3 small-IsValid allocate_two 4

allocate_disjoint_example : (3 + 2 ≤ 1) ⊎ (1 + 1 ≤ 3)
allocate_disjoint_example =
    allocate_disjoint 2 3 small-IsValid allocate_two 1 1 allocate_one (omega arith) (omega arith)
