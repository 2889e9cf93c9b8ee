-- ===== src/Memory/Scan.antt =====
-- The inner loop of `Allocate`: what each way of leaving it says about the frames.
use mikan_os.Prelude.{
  ℕ, zero, suc, ◌+◌, ◌≤◌, ◌<◌, ◌≡◌, inl, inr, true, false, leb, arith, Bool-cases, leb→le,
}
use native.Mathlib.Decide.{ℕ_discrete}
use mikan_os.Memory.{BitmapMemoryManager, ScanEnd, add_size, get_bit, scan}
use mikan_os.Memory.Bitmap.{IsValid}

-- The `n` frames from `start` on lie within the range and are free.
pub record FreeRun (m : BitmapMemoryManager) (start n : ℕ) : Type 0 where
  pub inside : start + n ≤ m.range_end
  pub unused : (j : ℕ) → j < n → get_bit m (start + j) ≡ false

-- What the loop has found when it stops, with `n` rounds to go at index `i`.
abbrev pub ScanSpec : BitmapMemoryManager → ℕ → ℕ → ℕ → ScanEnd → Type 0
ScanSpec m s n i ScanEnd.found =
    (s + (i + n) ≤ m.range_end) × ((j : ℕ) → i ≤ j → j < i + n → get_bit m (s + j) ≡ false)
ScanSpec m s n i (ScanEnd.used k) =
    (i ≤ k) × (k < i + n) × (s + k < m.range_end) × (get_bit m (s + k) ≡ true)
ScanSpec m s n i ScanEnd.past_end = m.range_end < s + (i + n)

ScanSpec-step :
    (m : BitmapMemoryManager) (s n i : ℕ) (r : ScanEnd)
    → s + i < m.range_end
    → get_bit m (s + i) ≡ false
    → ScanSpec m s n (i + 1) r
    → ScanSpec m s (suc n) i r
ScanSpec-step m s n i ScanEnd.found h u (p, q) = (omega arith, λ j hi hj. split j hi hj)
  where
    split : (j : ℕ) → i ≤ j → j < i + suc n → get_bit m (s + j) ≡ false
    split j hi hj = elim (ℕ_discrete i j) [
      | yes e ↦ ground arith
      | no ne ↦ q j (omega arith) (omega arith)
    ]
ScanSpec-step m s n i (ScanEnd.used k) h u p = (omega arith, omega arith, p.2, p.3)
ScanSpec-step m s n i ScanEnd.past_end h u p = omega arith

pub scan-ScanSpec :
    (m : BitmapMemoryManager) (s n i : ℕ)
    → IsValid m
    → s + i ≤ m.range_end
    → ScanSpec m s n i (scan m s n i)
unfolding scan
scan-ScanSpec m s zero i v h = (omega arith, λ j a b. absurd (omega arith))
scan-ScanSpec m s (suc n) i v h =
    let e : add_size s i ≡ s + i = omega arith in
    let e' : add_size i 1 ≡ i + 1 = omega arith in
    rw (e, e')
      (elim (Bool-cases (leb m.range_end (s + i))) [
        | inl past ↦ rw past (omega (arith, leb→le m.range_end (s + i) past))
        | inr inside ↦ rw inside (elim (Bool-cases (get_bit m (s + i))) [
          | inl taken ↦ rw taken (omega arith, omega arith, ground arith, taken)
          | inr unused ↦ rw unused (
              ScanSpec-step m s n i _ (ground arith) unused
                (scan-ScanSpec m s n (i + 1) v (ground arith)))
        ])
      ])
