-- ===== src/Prelude/Bits.antt =====
-- The binary digits of `bit_and`, `bit_or` and `bit_xor` at variables: each of the three works digit
-- by digit, so a mask with one bit reads, sets or clears one digit.
use Prim.Native.Nat.{
  ℕ, zero, suc, ◌+◌, ◌-◌, ◌*◌, ◌/◌, ◌%◌, ◌^◌, ◌≤◌, ◌<◌, min, max, bit_and, bit_or, bit_xor, digits,
  bit_and-bitwise, bit_or-bitwise, bit_xor-bitwise, differ,
}
use mathlib.Core.Path.{◌≡◌, refl, ap}
use mathlib.Core.Logic.{◌≢◌, ◌↔◌}
use native.Mathlib.Nat.{pow-suc}
use native.Mathlib.Decide.{dec_lt}
use native.Mathlib.Omega.{arith}

-- The digit of weight 2 ^ k.
pub digit : ℕ → ℕ → ℕ
digit x zero = x % 2
digit x (suc k) = digit (x / 2) k

pub digit-lt : (x k : ℕ) → digit x k < 2
unfolding digit
digit-lt x zero = omega arith
digit-lt x (suc k) = digit-lt (x / 2) k

pub digit_of_zero : (k : ℕ) → digit 0 k ≡ 0
unfolding digit
digit_of_zero zero = refl
digit_of_zero (suc k) = digit_of_zero k

pub pow-pos : (k : ℕ) → 0 < 2 ^ k
pow-pos zero = omega arith
pow-pos (suc k) = omega (arith, pow-suc 2 k, pow-pos k)

-- The count of digits to go does not matter, as long as it covers the first number.
digits_count :
    (z : ℕ → ℕ) (f : ℕ → ℕ → ℕ) (n m a b : ℕ) → a ≤ n → a ≤ m → digits z f n a b ≡ digits z f m a b
digits_count z f zero zero zero b p q = refl
digits_count z f zero zero (suc a) b p q = refl
digits_count z f zero (suc m) zero b p q = refl
digits_count z f zero (suc m) (suc a) b p q = absurd (omega arith)
digits_count z f (suc n) zero zero b p q = refl
digits_count z f (suc n) zero (suc a) b p q = absurd (omega arith)
digits_count z f (suc n) (suc m) zero b p q = refl
digits_count z f (suc n) (suc m) (suc a) b p q =
    rw (digits_count z f n m (suc a / 2) (b / 2) (omega arith) (omega arith))

-- One equation for the lowest digit of each operation.
pub bit_and_low : (a b : ℕ) → bit_and a b ≡ bit_and (a / 2) (b / 2) * 2 + min (a % 2) (b % 2)
bit_and_low zero b = omega (arith, bit_and-bitwise 0 b, bit_and-bitwise 0 (b / 2))
bit_and_low (suc a) b = omega (
  arith,
  bit_and-bitwise (suc a) b,
  bit_and-bitwise (suc a / 2) (b / 2),
  digits_count (λ y. 0) min a (suc a / 2) (suc a / 2) (b / 2) (omega arith) (omega arith),
)

pub bit_or_low : (a b : ℕ) → bit_or a b ≡ bit_or (a / 2) (b / 2) * 2 + max (a % 2) (b % 2)
bit_or_low zero b = omega (arith, bit_or-bitwise 0 b, bit_or-bitwise 0 (b / 2))
bit_or_low (suc a) b = omega (
  arith,
  bit_or-bitwise (suc a) b,
  bit_or-bitwise (suc a / 2) (b / 2),
  digits_count (λ y. y) max a (suc a / 2) (suc a / 2) (b / 2) (omega arith) (omega arith),
)

differ-eq : (x y : ℕ) → x < 2 → y < 2 → differ x y ≡ (x + y) % 2
differ-eq zero zero hx hy = refl
differ-eq zero (suc zero) hx hy = refl
differ-eq (suc zero) zero hx hy = refl
differ-eq (suc zero) (suc zero) hx hy = refl
differ-eq x (suc (suc y)) hx hy = absurd (omega arith)
differ-eq (suc (suc x)) y hx hy = absurd (omega arith)

pub bit_xor_low : (a b : ℕ) → bit_xor a b ≡ bit_xor (a / 2) (b / 2) * 2 + (a % 2 + b % 2) % 2
bit_xor_low zero b = omega (arith, bit_xor-bitwise 0 b, bit_xor-bitwise 0 (b / 2))
bit_xor_low (suc a) b = omega (
  arith,
  bit_xor-bitwise (suc a) b,
  bit_xor-bitwise (suc a / 2) (b / 2),
  differ-eq (suc a % 2) (b % 2) (omega arith) (omega arith),
  digits_count (λ y. y) differ a (suc a / 2) (suc a / 2) (b / 2) (omega arith) (omega arith),
)

pub digit-bit_and : (k a b : ℕ) → digit (bit_and a b) k ≡ min (digit a k) (digit b k)
unfolding digit
digit-bit_and zero a b = omega (arith, bit_and_low a b)
digit-bit_and (suc k) a b =
    let h : bit_and a b / 2 ≡ bit_and (a / 2) (b / 2) = omega (arith, bit_and_low a b) in
    rw h (digit-bit_and k (a / 2) (b / 2))

pub digit-bit_or : (k a b : ℕ) → digit (bit_or a b) k ≡ max (digit a k) (digit b k)
unfolding digit
digit-bit_or zero a b = omega (arith, bit_or_low a b)
digit-bit_or (suc k) a b =
    let h : bit_or a b / 2 ≡ bit_or (a / 2) (b / 2) = omega (arith, bit_or_low a b) in
    rw h (digit-bit_or k (a / 2) (b / 2))

pub digit-bit_xor : (k a b : ℕ) → digit (bit_xor a b) k ≡ (digit a k + digit b k) % 2
unfolding digit
digit-bit_xor zero a b = omega (arith, bit_xor_low a b)
digit-bit_xor (suc k) a b =
    let h : bit_xor a b / 2 ≡ bit_xor (a / 2) (b / 2) = omega (arith, bit_xor_low a b) in
    rw h (digit-bit_xor k (a / 2) (b / 2))

-- A number with one digit set.
pub digit-two_pow_self : (k : ℕ) → digit (2 ^ k) k ≡ 1
unfolding digit
digit-two_pow_self zero = refl
digit-two_pow_self (suc k) =
    let h : 2 ^ suc k / 2 ≡ 2 ^ k = omega (arith, pow-suc 2 k) in rw h (digit-two_pow_self k)

pub digit-two_pow_ne : (k j : ℕ) → k ≢ j → digit (2 ^ k) j ≡ 0
unfolding digit
digit-two_pow_ne zero zero h = absurd (h refl)
digit-two_pow_ne zero (suc j) h = digit_of_zero j
digit-two_pow_ne (suc k) zero h = omega (arith, pow-suc 2 k)
digit-two_pow_ne (suc k) (suc j) h =
    let e : 2 ^ suc k / 2 ≡ 2 ^ k = omega (arith, pow-suc 2 k) in
    rw e (digit-two_pow_ne k j (omega arith))

-- A mask of w ones.
pub digit-ones : (w j : ℕ) → j < w → digit (2 ^ w - 1) j ≡ 1
unfolding digit
digit-ones zero j h = absurd (omega arith)
digit-ones (suc w) zero h = omega (arith, pow-suc 2 w, pow-pos w)
digit-ones (suc w) (suc j) h =
    let e : (2 ^ suc w - 1) / 2 ≡ 2 ^ w - 1 = omega (arith, pow-suc 2 w, pow-pos w) in
    rw e (digit-ones w j (omega arith))

-- Two numbers with the same digits below w, both below 2 ^ w, are equal.
pub digit_ext :
    (w a b : ℕ) → a < 2 ^ w → b < 2 ^ w → ((j : ℕ) → j < w → digit a j ≡ digit b j) → a ≡ b
unfolding digit
digit_ext zero a b ha hb h = omega arith
digit_ext (suc w) a b ha hb h = omega (
  arith,
  pow-suc 2 w,
  h 0 (omega arith),
  digit_ext w (a / 2) (b / 2) (omega (arith, pow-suc 2 w)) (omega (arith, pow-suc 2 w))
      (λ j hj. h (suc j) (omega arith)),
)

bit_and_nil_count : (n a : ℕ) → a ≤ n → bit_and a 0 ≡ 0
bit_and_nil_count zero a h = omega (arith, ap (λ (t : ℕ). bit_and t 0) (zero_of_le a h))
  where
    zero_of_le : (a : ℕ) → a ≤ 0 → a ≡ 0
    zero_of_le a h = omega arith
bit_and_nil_count (suc n) a h = elim (dec_lt 0 a) [
  | yes p ↦ omega (arith, bit_and_low a 0, bit_and_nil_count n (a / 2) (omega arith))
  | no p ↦ omega (arith, ap (λ (t : ℕ). bit_and t 0) (zero_of a (λ q. p q)))
]
  where
    zero_of : (a : ℕ) → ¬ (0 < a) → a ≡ 0
    zero_of a h = omega arith

pub bit_and_nil : (a : ℕ) → bit_and a 0 ≡ 0
bit_and_nil a = bit_and_nil_count a a (omega arith)

-- A mask with one bit reads that digit.
pub bit_and-two_pow : (k a : ℕ) → bit_and a (2 ^ k) ≡ digit a k * 2 ^ k
unfolding digit
bit_and-two_pow zero a = omega (arith, bit_and_low a 1, bit_and_nil (a / 2))
bit_and-two_pow (suc k) a =
    let e : 2 ^ suc k / 2 ≡ 2 ^ k = omega (arith, pow-suc 2 k) in
    let ih : bit_and (a / 2) (2 ^ suc k / 2) ≡ digit (a / 2) k * 2 ^ k =
      rw e (bit_and-two_pow k (a / 2)) in
    omega (
      arith,
      bit_and_low a (2 ^ suc k),
      ih,
      pow-suc 2 k,
      ap (λ (t : ℕ). digit (a / 2) k * t) (pow-suc 2 k),
    )

pub bit_and-two_pow_iff : (k a : ℕ) → (bit_and a (2 ^ k) ≡ 0) ↔ (digit a k ≡ 0)
bit_and-two_pow_iff k a =
    (λ h. omega (arith, digit-lt a k, none_set h), λ h. rw (bit_and-two_pow k a, h) (omega arith))
  where
    none_set : bit_and a (2 ^ k) ≡ 0 → digit a k ≢ 1
    none_set h e = omega (arith, h, bit_and-two_pow k a, ap (λ (t : ℕ). t * 2 ^ k) e, pow-pos k)

-- The operations stay within w digits.
pub bit_or-lt : (w a b : ℕ) → a < 2 ^ w → b < 2 ^ w → bit_or a b < 2 ^ w
bit_or-lt zero a b ha hb =
    let p : a ≡ 0 = omega arith in let q : b ≡ 0 = omega arith in rw (p, q) (omega arith)
bit_or-lt (suc w) a b ha hb = omega (
  arith,
  pow-suc 2 w,
  bit_or_low a b,
  bit_or-lt w (a / 2) (b / 2) (omega (arith, pow-suc 2 w)) (omega (arith, pow-suc 2 w)),
)

pub bit_and-lt : (w a b : ℕ) → a < 2 ^ w → bit_and a b < 2 ^ w
bit_and-lt zero a b ha = let p : a ≡ 0 = omega arith in rw p (omega (arith, bit_and-bitwise 0 b))
bit_and-lt (suc w) a b ha =
    omega (
      arith,
      pow-suc 2 w,
      bit_and_low a b,
      bit_and-lt w (a / 2) (b / 2) (omega (arith, pow-suc 2 w)),
    )
