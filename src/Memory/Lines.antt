-- ===== src/Memory/Lines.antt =====
-- One frame's bit in the bitmap: `GetBit` reads the bit that `SetBit` wrote, and no other changes.
use mikan_os.Prelude.{
  ℕ, ◌-◌, ◌*◌, ◌/◌, ◌%◌, ◌^◌, ◌<◌, bit_and, bit_or, ◌≡◌, refl, ◌≢◌, Bool, true, false, ◌==◌,
  if◌then◌else◌, get_or, length, length-set, get_or-set_self, get_or-set_ne, arith,
}
use mikan_os.Prelude.Bits.{
  digit, digit-lt, digit-bit_and, digit-bit_or, digit-bit_xor, digit-two_pow_self, digit-two_pow_ne,
  digit-ones, bit_and-two_pow_iff,
}
use mikan_os.Memory.{BitmapMemoryManager, complement, bit_mask, get_bit, set_bit}
use native.Mathlib.Decide.{ℕ_discrete}

-- The binary digit that stands for a frame.
unfoldable pub frame_digit : BitmapMemoryManager → ℕ → ℕ
frame_digit m frame = digit (get_or m.alloc_map (frame / 64) 0) (frame % 64)

pub frame_digit-lt : (m : BitmapMemoryManager) (frame : ℕ) → frame_digit m frame < 2
unfolding frame_digit
frame_digit-lt m frame = digit-lt _ (frame % 64)

pub get_bit-eq-frame_digit :
    (m : BitmapMemoryManager) (frame : ℕ) → get_bit m frame ≡ (frame_digit m frame == 1)
unfolding get_bit frame_digit
get_bit-eq-frame_digit m frame = ground (
  arith,
  bit_and-two_pow_iff (frame % 64) (get_or m.alloc_map (frame / 64) 0),
  digit-lt (get_or m.alloc_map (frame / 64) 0) (frame % 64),
)

digit-mask_or_self : (line k : ℕ) → digit (bit_or line (bit_mask k)) k ≡ 1
digit-mask_or_self line k =
    omega (arith, digit-bit_or k line (2 ^ k), digit-two_pow_self k, digit-lt line k)

digit-mask_or_ne : (line k j : ℕ) → k ≢ j → digit (bit_or line (bit_mask k)) j ≡ digit line j
digit-mask_or_ne line k j h = omega (arith, digit-bit_or j line (2 ^ k), digit-two_pow_ne k j h)

digit-mask_and_self : (line k : ℕ) → k < 64 → digit (bit_and line (complement (bit_mask k))) k ≡ 0
digit-mask_and_self line k h = omega (
  arith,
  digit-bit_and k line (complement (2 ^ k)),
  digit-bit_xor k (2 ^ k) (2 ^ 64 - 1),
  digit-two_pow_self k,
  digit-ones 64 k h,
)

digit-mask_and_ne :
    (line k j : ℕ)
    → j < 64
    → k ≢ j
    → digit (bit_and line (complement (bit_mask k))) j ≡ digit line j
digit-mask_and_ne line k j hj h = omega (
  arith,
  digit-bit_and j line (complement (2 ^ k)),
  digit-bit_xor j (2 ^ k) (2 ^ 64 - 1),
  digit-two_pow_ne k j h,
  digit-ones 64 j hj,
  digit-lt line j,
)

digit_value : Bool → ℕ
digit_value b = if b then 1 else 0

frame_digit-set_bit_self :
    (m : BitmapMemoryManager) (frame : ℕ) (b : Bool)
    → frame < 64 * length m.alloc_map
    → frame_digit (set_bit m frame b) frame ≡ digit_value b
unfolding frame_digit set_bit digit_value
frame_digit-set_bit_self m frame true h =
    rw (get_or-set_self m.alloc_map (frame / 64) _ 0 (omega arith))
      (digit-mask_or_self _ (frame % 64))
frame_digit-set_bit_self m frame false h =
    rw (get_or-set_self m.alloc_map (frame / 64) _ 0 (omega arith))
      (digit-mask_and_self _ (frame % 64) (omega arith))

-- Another frame of the same line.
frame_digit-set_bit_line :
    (m : BitmapMemoryManager) (frame other : ℕ) (b : Bool)
    → frame < 64 * length m.alloc_map
    → frame / 64 ≡ other / 64
    → frame ≢ other
    → frame_digit (set_bit m frame b) other ≡ frame_digit m other
unfolding frame_digit set_bit
frame_digit-set_bit_line m frame other true h e ne =
    rw (← e, get_or-set_self m.alloc_map (frame / 64) _ 0 (omega arith))
      (digit-mask_or_ne _ (frame % 64) (other % 64) (λ q. ne (omega arith)))
frame_digit-set_bit_line m frame other false h e ne =
    rw (← e, get_or-set_self m.alloc_map (frame / 64) _ 0 (omega arith))
      (digit-mask_and_ne _ (frame % 64) (other % 64) (omega arith) (λ q. ne (omega arith)))

-- A frame of another line.
frame_digit-set_bit_far :
    (m : BitmapMemoryManager) (frame other : ℕ) (b : Bool)
    → frame / 64 ≢ other / 64
    → frame_digit (set_bit m frame b) other ≡ frame_digit m other
unfolding frame_digit set_bit
frame_digit-set_bit_far m frame other true ne = rw (get_or-set_ne m.alloc_map _ _ _ 0 ne)
frame_digit-set_bit_far m frame other false ne = rw (get_or-set_ne m.alloc_map _ _ _ 0 ne)

frame_digit-set_bit_ne :
    (m : BitmapMemoryManager) (frame other : ℕ) (b : Bool)
    → frame < 64 * length m.alloc_map
    → frame ≢ other
    → frame_digit (set_bit m frame b) other ≡ frame_digit m other
frame_digit-set_bit_ne m frame other b h ne = elim (ℕ_discrete (frame / 64) (other / 64)) [
  | yes e ↦ frame_digit-set_bit_line m frame other b h e ne
  | no far ↦ frame_digit-set_bit_far m frame other b far
]

-- For a frame within the array, `SetBit` decides what `GetBit` says of that frame, and leaves what it
-- says of every other frame.
pub get_bit-set_bit :
    (m : BitmapMemoryManager) (frame other : ℕ) (b : Bool)
    → frame < 64 * length m.alloc_map
    → get_bit (set_bit m frame b) other ≡ (if frame == other then b else get_bit m other)
unfolding digit_value
get_bit-set_bit m frame other b h = ground (
  arith,
  get_bit-eq-frame_digit (set_bit m frame b) other,
  get_bit-eq-frame_digit (set_bit m frame b) frame,
  get_bit-eq-frame_digit m other,
  frame_digit-set_bit_self m frame b h,
  frame_digit-set_bit_ne m frame other b h,
)

pub range_begin-set_bit :
    (m : BitmapMemoryManager) (frame : ℕ) (b : Bool)
    → (set_bit m frame b).range_begin ≡ m.range_begin
unfolding set_bit
range_begin-set_bit m frame true = refl
range_begin-set_bit m frame false = refl

pub range_end-set_bit :
    (m : BitmapMemoryManager) (frame : ℕ) (b : Bool) → (set_bit m frame b).range_end ≡ m.range_end
unfolding set_bit
range_end-set_bit m frame true = refl
range_end-set_bit m frame false = refl

pub length-set_bit :
    (m : BitmapMemoryManager) (frame : ℕ) (b : Bool)
    → length (set_bit m frame b).alloc_map ≡ length m.alloc_map
unfolding set_bit
length-set_bit m frame true = length-set m.alloc_map _ _
length-set_bit m frame false = length-set m.alloc_map _ _
