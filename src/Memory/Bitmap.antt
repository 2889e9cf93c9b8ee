-- ===== src/Memory/Bitmap.antt =====
-- Runs of frames: what `MarkAllocated` and `Free` do to every frame, and the invariant of the bitmap.
use mikan_os.Prelude.{
  ℕ, zero, suc, ◌+◌, ◌*◌, ◌≤◌, ◌≡◌, refl, ◌∙◌, Bool, true, false, ◌&&◌, ltb, leb, if◌then◌else◌,
  length, arith,
}
use mikan_os.Error.{Code}
use mikan_os.Memory.{
  BitmapMemoryManager, add_size, frame_count, get_bit, set_bit, set_bits, free, mark_allocated,
}
use mikan_os.Memory.Lines.{get_bit-set_bit, range_begin-set_bit, range_end-set_bit, length-set_bit}

-- The range lies in the array, and the array has no more frames than the class provides for.
pub record IsValid (m : BitmapMemoryManager) : Type 0 where
  pub ordered : m.range_begin ≤ m.range_end
  pub covered : m.range_end ≤ 64 * length m.alloc_map
  pub small : 64 * length m.alloc_map ≤ frame_count

-- Whether `frame` is one of the `n` frames from `start` on.
abbrev pub in_run : ℕ → ℕ → ℕ → Bool
in_run start n frame = leb start frame && ltb frame (start + n)

pub length-set_bits :
    (m : BitmapMemoryManager) (s i n : ℕ) (b : Bool)
    → length (set_bits m s i n b).alloc_map ≡ length m.alloc_map
unfolding set_bits
length-set_bits m s i zero b = refl
length-set_bits m s i (suc n) b =
    length-set_bits (set_bit m (add_size s i) b) s (add_size i 1) n b ∙ length-set_bit m _ b

pub range_begin-set_bits :
    (m : BitmapMemoryManager) (s i n : ℕ) (b : Bool)
    → (set_bits m s i n b).range_begin ≡ m.range_begin
unfolding set_bits
range_begin-set_bits m s i zero b = refl
range_begin-set_bits m s i (suc n) b =
    range_begin-set_bits (set_bit m (add_size s i) b) s (add_size i 1) n b
    ∙ range_begin-set_bit m _ b

pub range_end-set_bits :
    (m : BitmapMemoryManager) (s i n : ℕ) (b : Bool) → (set_bits m s i n b).range_end ≡ m.range_end
unfolding set_bits
range_end-set_bits m s i zero b = refl
range_end-set_bits m s i (suc n) b =
    range_end-set_bits (set_bit m (add_size s i) b) s (add_size i 1) n b ∙ range_end-set_bit m _ b

pub get_bit-set_bits :
    (m : BitmapMemoryManager) (s i n : ℕ) (b : Bool) (frame : ℕ)
    → s + i + n ≤ 64 * length m.alloc_map
    → 64 * length m.alloc_map ≤ frame_count
    → get_bit (set_bits m s i n b) frame ≡ (if in_run (s + i) n frame then b else get_bit m frame)
unfolding set_bits
get_bit-set_bits m s i zero b frame h k = ground arith
get_bit-set_bits m s i (suc n) b frame h k =
    let e : add_size s i ≡ s + i = omega arith in
    let e' : add_size i 1 ≡ i + 1 = omega arith in
    rw (e, e')
      (ground (
        arith,
        get_bit-set_bits (set_bit m (s + i) b) s (i + 1) n b frame
            (omega (arith, length-set_bit m (s + i) b)) (omega (arith, length-set_bit m (s + i) b)),
        get_bit-set_bit m (s + i) frame b (omega arith),
      ))

module _ (m : BitmapMemoryManager) (start n : ℕ) (fits : start + n ≤ 64 * length m.alloc_map)
    (small : 64 * length m.alloc_map ≤ frame_count) where
  -- If the run lies within the array, `MarkAllocated` sets exactly the frames of the run.
  pub get_bit-mark_allocated :
      (frame : ℕ)
      → get_bit (mark_allocated m start n) frame
        ≡ (if in_run start n frame then true else get_bit m frame)
  unfolding mark_allocated
  get_bit-mark_allocated frame =
      ground (arith, get_bit-set_bits m start 0 n true frame (omega arith) small)

  -- If the run lies within the array, `Free` succeeds and clears exactly the frames of the run.
  pub get_bit-free :
      (frame : ℕ)
      → ((free m start n).0 ≡ Code.success)
        × (get_bit (free m start n).1 frame
            ≡ (if in_run start n frame then false else get_bit m frame))
  unfolding free
  get_bit-free frame =
      (refl, ground (arith, get_bit-set_bits m start 0 n false frame (omega arith) small))

pub mark_allocated-IsValid :
    (m : BitmapMemoryManager) (start n : ℕ) → IsValid m → IsValid (mark_allocated m start n)
unfolding mark_allocated
mark_allocated-IsValid m start n v = omega (
  arith,
  length-set_bits m start 0 n true,
  range_begin-set_bits m start 0 n true,
  range_end-set_bits m start 0 n true,
)

pub free-IsValid : (m : BitmapMemoryManager) (start n : ℕ) → IsValid m → IsValid (free m start n).1
unfolding free
free-IsValid m start n v = omega (
  arith,
  length-set_bits m start 0 n false,
  range_begin-set_bits m start 0 n false,
  range_end-set_bits m start 0 n false,
)
