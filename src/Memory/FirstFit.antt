-- ===== src/Memory/FirstFit.antt =====
-- `Allocate` finds the first run of free frames, and fails only where there is none.
use mikan_os.Prelude.{
  ℕ, zero, suc, ◌+◌, ◌-◌, ◌≤◌, ◌<◌, ◌≡◌, refl, inl, inr, ◌⊎◌, true, false, some, Option, arith,
}
use native.Mathlib.Decide.{dec_lt}
use mikan_os.Error.{Code, WithError}
use mikan_os.Memory.{
  BitmapMemoryManager, ScanEnd, add_size, null_frame, get_bit, scan, mark_allocated, allocate_from,
  allocate,
}
use mikan_os.Memory.Bitmap.{IsValid}
use mikan_os.Memory.Scan.{FreeRun, ScanSpec, scan-ScanSpec}

-- No run of `n` free frames starts at a frame from `s` on and before `e`.
abbrev pub NoRun : BitmapMemoryManager → ℕ → ℕ → ℕ → Type 0
NoRun m n s e = (t : ℕ) → s ≤ t → t < e → ¬ FreeRun m t n

-- The first free run from `s` on is taken; or there is none, and the error says so.
abbrev pub FirstFit :
    BitmapMemoryManager → ℕ → ℕ → Option (WithError ℕ × BitmapMemoryManager) → Type 0
FirstFit m n s r =
    ((frame : ℕ) × (s ≤ frame)
      × FreeRun m frame n
      × NoRun m n s frame
      × (r ≡ some (record { value = frame; error = Code.success }, mark_allocated m frame n)))
    ⊎ (((t : ℕ) → s ≤ t → ¬ FreeRun m t n)
        × (r ≡ some (record { value = null_frame; error = Code.no_enough_memory }, m)))

-- A frame in use rules out every run that holds it.
NoRun-used :
    (m : BitmapMemoryManager) (n s k : ℕ)
    → k < n
    → get_bit m (s + k) ≡ true
    → NoRun m n s (s + (k + 1))
NoRun-used m n s k h taken t le lt run =
    let e : t + (s + k - t) ≡ s + k = omega arith in
    let u : get_bit m (s + k) ≡ false = rw e at (run.unused (s + k - t) (omega arith)) in cc

FirstFit-later :
    (m : BitmapMemoryManager) (n s s' : ℕ) (r : Option (WithError ℕ × BitmapMemoryManager))
    → s ≤ s'
    → NoRun m n s s'
    → FirstFit m n s' r
    → FirstFit m n s r
FirstFit-later m n s s' r le none_before (inl (frame, from, run, first, e)) =
    inl (frame, omega arith, run, earliest, e)
  where
    earliest : NoRun m n s frame
    earliest t a b = elim (dec_lt t s') [
      | yes p ↦ none_before t a p
      | no p ↦ first t (omega arith) b
    ]
FirstFit-later m n s s' r le none_before (inr (never, e)) = inr (not_any, e)
  where
    not_any : (t : ℕ) → s ≤ t → ¬ FreeRun m t n
    not_any t a = elim (dec_lt t s') [ yes p ↦ none_before t a p | no p ↦ never t (omega arith) ]

-- One round of the outer loop, by the way in which the inner loop ended.
round : ℕ → BitmapMemoryManager → ℕ → ℕ → ScanEnd → Option (WithError ℕ × BitmapMemoryManager)
round fuel m s n r = elim r [
  | ScanEnd.past_end ↦ some (record { value = null_frame; error = Code.no_enough_memory }, m)
  | ScanEnd.found ↦ some (record { value = s; error = Code.success }, mark_allocated m s n)
  | ScanEnd.used i ↦ allocate_from fuel m (add_size s (add_size i 1)) n
]

round-FirstFit :
    (fuel : ℕ) (m : BitmapMemoryManager) (s n : ℕ) (r : ScanEnd)
    → IsValid m
    → ((s' : ℕ) → s < s' → s' ≤ m.range_end → FirstFit m n s' (allocate_from fuel m s' n))
    → ScanSpec m s n 0 r
    → FirstFit m n s (round fuel m s n r)
unfolding round
round-FirstFit fuel m s n ScanEnd.found v later (inside, unused) =
    inl (s, omega arith, run, λ t a b. absurd (omega arith), refl)
  where
    run : FreeRun m s n
    run = record { inside = omega arith; unused = λ j h. unused j (omega arith) (omega arith) }
round-FirstFit fuel m s n (ScanEnd.used k) v later spec =
    let e : add_size s (add_size k 1) ≡ s + (k + 1) = omega arith in
    rw e (
      FirstFit-later m n s (s + (k + 1)) _ (omega arith) (NoRun-used m n s k (omega arith) spec.3)
        (later (s + (k + 1)) (omega arith) (omega arith)))
round-FirstFit fuel m s n ScanEnd.past_end v later past =
    inr (λ t a run. absurd (omega (arith, run.inside)), refl)

allocate_from-FirstFit :
    (fuel : ℕ) (m : BitmapMemoryManager) (s n : ℕ)
    → IsValid m
    → s ≤ m.range_end
    → m.range_end - s < fuel
    → FirstFit m n s (allocate_from fuel m s n)
unfolding allocate_from round
allocate_from-FirstFit zero m s n v h f = elim f [ ]
allocate_from-FirstFit (suc fuel) m s n v h f =
    round-FirstFit fuel m s n (scan m s n 0) v
      (λ s' lt le. allocate_from-FirstFit fuel m s' n v le (omega arith))
      (scan-ScanSpec m s n 0 v (omega arith))

-- On a valid bitmap `Allocate` always returns. It takes the first run of `n` free frames of the range
-- and marks it, or, when the range has no such run, it reports the error and changes nothing.
pub allocate-FirstFit :
    (m : BitmapMemoryManager) (n : ℕ) → IsValid m → FirstFit m n m.range_begin (allocate m n)
unfolding allocate
allocate-FirstFit m n v = allocate_from-FirstFit _ m m.range_begin n v v.ordered (omega arith)
