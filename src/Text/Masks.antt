-- ===== src/Text/Masks.antt =====
-- What the masks and shifts of UTF-8 do, as quotients and remainders.
use mikan_os.Prelude.{
  ℕ, zero, suc, ◌+◌, ◌*◌, ◌/◌, ◌%◌, ◌^◌, ◌<◌, ◌≤◌, ◌≡◌, refl, bit_and, bit_or, arith, ◌∙◌,
}
use mikan_os.Prelude.Bits.{bit_and_low, bit_or_low, bit_and_nil}
use native.Mathlib.Nat.{pow-suc}

mask_round : (x m : ℕ) → bit_and x (2 * m + 1) ≡ bit_and (x / 2) m * 2 + x % 2
mask_round x m =
    let half : (2 * m + 1) / 2 ≡ m = omega arith in
    let odd : (2 * m + 1) % 2 ≡ 1 = omega arith in
    bit_and_low x (2 * m + 1) ∙ rw (half, odd) (omega arith)

pub mask15 : (x : ℕ) → bit_and x 15 ≡ x % 16
mask15 x = omega (
  arith,
  mask_round x 7,
  mask_round (x / 2) 3,
  mask_round (x / 2 / 2) 1,
  mask_round (x / 2 / 2 / 2) 0,
  bit_and_nil (x / 2 / 2 / 2 / 2),
)

pub mask31 : (x : ℕ) → bit_and x 31 ≡ x % 32
mask31 x = omega (arith, mask_round x 15, mask15 (x / 2))

pub mask63 : (x : ℕ) → bit_and x 63 ≡ x % 64
mask63 x = omega (arith, mask_round x 31, mask31 (x / 2))

bit_or_nil_count : (n a : ℕ) → a ≤ n → bit_or a 0 ≡ a
bit_or_nil_count zero a h = let nothing : a ≡ 0 = omega arith in rw nothing refl
bit_or_nil_count (suc n) zero h = refl
bit_or_nil_count (suc n) (suc a) h =
    omega (arith, bit_or_low (suc a) 0, bit_or_nil_count n (suc a / 2) (omega arith))

bit_or_nil : (a : ℕ) → bit_or a 0 ≡ a
bit_or_nil a = bit_or_nil_count a a (omega arith)

-- Fields that do not overlap add up.
pub bit_or-fields : (k a b : ℕ) → b < 2 ^ k → bit_or (a * 2 ^ k) b ≡ a * 2 ^ k + b
bit_or-fields zero a b h =
    let none_left : b ≡ 0 = omega arith in rw none_left (bit_or_nil (a * 1) ∙ omega arith)
bit_or-fields (suc k) a b h =
    let e : a * 2 ^ suc k ≡ 2 * (a * 2 ^ k) = rw (pow-suc 2 k) (grind arith) in
    let half : 2 * (a * 2 ^ k) / 2 ≡ a * 2 ^ k = omega arith in
    let ih = bit_or-fields k a (b / 2) (omega (arith, pow-suc 2 k)) in
    rw e (bit_or_low (2 * (a * 2 ^ k)) b ∙ rw (half, ih) (omega arith))
