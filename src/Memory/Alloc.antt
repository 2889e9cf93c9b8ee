-- ===== src/Memory/Alloc.antt =====
-- What `Allocate` and `Free` promise each other: ownership of frames across calls.
use mikan_os.Prelude.{
  ℕ, ◌+◌, ◌-◌, ◌*◌, ◌≤◌, ◌<◌, ◌≡◌, subst, inl, inr, ◌⊎◌, true, false, max, if◌then◌else◌, some,
  Option, length, arith,
}
use native.Mathlib.Decide.{dec_le}
use mikan_os.Error.{Code, WithError}
use mikan_os.Memory.{BitmapMemoryManager, get_bit, mark_allocated, free, allocate}
use mikan_os.Memory.Bitmap.{
  IsValid, in_run, get_bit-mark_allocated, get_bit-free, mark_allocated-IsValid, length-set_bits,
}
use mikan_os.Memory.Scan.{FreeRun}
use mikan_os.Memory.FirstFit.{FirstFit, allocate-FirstFit}

abbrev pub granted : ℕ → WithError ℕ
granted frame = record { value = frame; error = Code.success }

FirstFit-granted :
    (m : BitmapMemoryManager) (n s frame : ℕ) (m' : BitmapMemoryManager)
    (r : Option (WithError ℕ × BitmapMemoryManager))
    → FirstFit m n s r
    → r ≡ some (granted frame, m')
    → (s ≤ frame) × FreeRun m frame n × (m' ≡ mark_allocated m frame n)
FirstFit-granted m n s frame m' r (inl (f, from, run, first, e)) h =
    let q : f ≡ frame = ground arith in
    (omega arith, subst (λ x. FreeRun m x n) q run, ground arith)
FirstFit-granted m n s frame m' r (inr (never, e)) h = absurd (ground arith)

module _ {m : BitmapMemoryManager} (n frame : ℕ) {m' : BitmapMemoryManager} (v : IsValid m)
    (taken : allocate m n ≡ some (granted frame, m')) where
  pub granted_run : (m.range_begin ≤ frame) × FreeRun m frame n × (m' ≡ mark_allocated m frame n)
  granted_run = FirstFit-granted m n m.range_begin frame m' _ (allocate-FirstFit m n v) taken

  -- What a successful `Allocate` leaves is valid again.
  pub granted-IsValid : IsValid m'
  granted-IsValid = rw granted_run.2 (mark_allocated-IsValid m frame n v)

  granted_fits : frame + n ≤ 64 * length m.alloc_map
  granted_fits = omega (arith, granted_run.1.inside, v.covered)

  pub granted_length : length m'.alloc_map ≡ length m.alloc_map
  unfolding mark_allocated
  granted_length = rw granted_run.2 (length-set_bits m frame 0 n true)

  -- After a successful `Allocate` exactly the frames of the run are in use besides those that were.
  pub get_bit-granted : (g : ℕ) → get_bit m' g ≡ (if in_run frame n g then true else get_bit m g)
  get_bit-granted g = rw granted_run.2 (get_bit-mark_allocated m frame n granted_fits v.small g)

  pub granted_unused : (g : ℕ) → in_run frame n g ≡ true → get_bit m g ≡ false
  granted_unused g h =
      let le : frame ≤ g = ground arith in
      let lt : g < frame + n = ground arith in
      let e : frame + (g - frame) ≡ g = omega arith in
      rw e at (granted_run.1.unused (g - frame) (omega arith))

  -- `Free` of the run that `Allocate` returned gives every frame back the bit that it had before.
  pub free-allocate : (g : ℕ) → get_bit (free m' frame n).1 g ≡ get_bit m g
  free-allocate g = ground (
    arith,
    get_bit-free m' frame n (rw granted_length granted_fits) (rw granted_length v.small) g,
    get_bit-granted g,
    granted_unused g,
  )

  granted_used : (g : ℕ) → frame ≤ g → g < frame + n → get_bit m' g ≡ true
  granted_used g a b = ground (arith, get_bit-granted g)

  -- Two successful calls of Allocate in a row, of at least one frame each, return runs that do not
  -- overlap.
  pub allocate_disjoint :
      (k other : ℕ) {m'' : BitmapMemoryManager}
      → allocate m' k ≡ some (granted other, m'')
      → 0 < n
      → 0 < k
      → (frame + n ≤ other) ⊎ (other + k ≤ frame)
  allocate_disjoint k other {m''} again hn hk = elim (dec_le (frame + n) other) [
    | yes p ↦ inl p
    | no p ↦ elim (dec_le (other + k) frame) [
      | yes q ↦ inr q
      | no q ↦ absurd (overlap (omega arith) (omega arith))
    ]
  ]
    where
      second : FreeRun m' other k
      second =
          (FirstFit-granted m' k m'.range_begin other m'' _ (allocate-FirstFit m' k granted-IsValid)
            again).1

      overlap : other < frame + n → frame < other + k → ⊥
      overlap a b =
          let g = max frame other in
          let e : other + (g - other) ≡ g = omega arith in
          let u : get_bit m' g ≡ false = rw e at (second.unused (g - other) (omega arith)) in
          let t : get_bit m' g ≡ true = granted_used g (omega arith) (omega arith) in cc
