-- ===== src/Pool/Ceil.antt =====
-- Ceil rounds up to a multiple.
use mikan_os.Prelude.{
  ℕ, zero, suc, ◌+◌, ◌-◌, ◌*◌, ◌/◌, ◌%◌, ◌^◌, ◌<◌, ◌≤◌, ◌≡◌, refl, ◌∙◌, ap, bit_and, arith,
}
use mikan_os.Prelude.Bits.{bit_and_low, pow-pos}
use mikan_os.Pool.{ceil}
use native.Mathlib.Nat.{pow-suc}

-- The part of x that is a multiple of 2 ^ k.
Part : ℕ → ℕ → ℕ → Type 0
Part k x y = (q : ℕ) × (y ≡ q * 2 ^ k) × (y ≤ x) × (x < y + 2 ^ k)

ones : (w x : ℕ) → x < 2 ^ w → bit_and x (2 ^ w - 1) ≡ x
ones zero x h = let e : x ≡ 0 = omega arith in rw e refl
ones (suc w) x h =
    let half : (2 ^ suc w - 1) / 2 ≡ 2 ^ w - 1 = omega (arith, pow-suc 2 w, pow-pos w) in
    let odd : (2 ^ suc w - 1) % 2 ≡ 1 = omega (arith, pow-suc 2 w, pow-pos w) in
    bit_and_low x (2 ^ suc w - 1)
    ∙ rw (half, odd, ones w (x / 2) (omega (arith, pow-suc 2 w))) (omega arith)

double : (q s r : ℕ) → r ≡ s * 2 → q * s * 2 ≡ q * r
double q s r e = rw e (grind arith)

high_ones : (k w x : ℕ) → x < 2 ^ (w + k) → Part k x (bit_and x (2 ^ (w + k) - 2 ^ k))
unfolding Part
high_ones zero w x h =
    let e : bit_and x (2 ^ (w + 0) - 1) ≡ x = ones (w + 0) x h in
    (x, e ∙ omega arith, omega (arith, e), omega (arith, e))
high_ones (suc k) w x h =
    let wide : 2 ^ (w + suc k) ≡ 2 ^ (w + k) * 2 =
      ap (λ (n : ℕ). 2 ^ n) (omega arith) ∙ pow-suc 2 (w + k) ∙ omega arith in
    let step : 2 ^ suc k ≡ 2 ^ k * 2 = pow-suc 2 k ∙ omega arith in
    let m = 2 ^ (w + suc k) - 2 ^ suc k in
    let half : m / 2 ≡ 2 ^ (w + k) - 2 ^ k = omega (arith, wide, step) in
    let even : m % 2 ≡ 0 = omega (arith, wide, step) in
    let (q, e, low, high) = high_ones k w (x / 2) (omega (arith, wide)) in
    let y = bit_and (x / 2) (2 ^ (w + k) - 2 ^ k) in
    let doubled : bit_and x m ≡ y * 2 = bit_and_low x m ∙ rw (half, even) (omega arith) in
    (
      q,
      doubled ∙ ap (λ (n : ℕ). n * 2) e ∙ double q (2 ^ k) (2 ^ suc k) step,
      omega (arith, doubled, low),
      omega (arith, doubled, high, step),
    )

whole : (k : ℕ) → k ≤ 64 → 64 - k + k ≡ 64
whole k l = omega arith

-- For a power of two, and where the sum does not wrap, `Ceil` gives the next multiple.
pub ceil_lem :
    (k value : ℕ)
    → k ≤ 64
    → value + 2 ^ k < 2 ^ 64
    → (q : ℕ) × (ceil value (2 ^ k) ≡ q * 2 ^ k)
      × (value ≤ ceil value (2 ^ k))
      × (ceil value (2 ^ k) < value + 2 ^ k)
unfolding ceil Part
ceil_lem k value l h =
    let size : 2 ^ (64 - k + k) ≡ 2 ^ 64 = ap (λ (n : ℕ). 2 ^ n) (whole k l) in
    let some_size = pow-pos k in
    let x = value + 2 ^ k - 1 in
    let sum : (value + 2 ^ k + 2 ^ 64 - 1) % 2 ^ 64 ≡ x = omega arith in
    let mask : 2 ^ 64 - 1 - (2 ^ k - 1) ≡ 2 ^ (64 - k + k) - 2 ^ k = omega (arith, size) in
    let (q, e, low, high) = high_ones k (64 - k) x (omega (arith, size)) in
    rw (sum, mask) (q, e, omega (arith, high), omega (arith, low))
