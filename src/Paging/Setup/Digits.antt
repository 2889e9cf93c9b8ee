-- ===== src/Paging/Setup/Digits.antt =====
-- A page number as the index of an entry and a page number below it.
use mikan_os.Prelude.{ℕ, zero, suc, ◌+◌, ◌-◌, ◌*◌, ◌/◌, ◌%◌, ◌<◌, ◌≤◌, ◌≡◌, ◌∙◌, ap, arith}
use native.Mathlib.Nat.{
  div-add-mod', mod-lt, mul-le-mul_right, lt_of_mul-lt-mul_right, add-mul, mul-add-div_right,
  mul-div_cancel, div-eq_of_lt,
}
use mikan_os.Paging.Address.{span}

pub span_pos : (level : ℕ) → 0 < span level
span_pos zero = omega arith
span_pos (suc level) = omega (arith, span_pos level)

pub div_below : (q k s : ℕ) → 0 < s → k < s - q % s → (q + k) / s ≡ q / s
div_below q k s pos h =
    let e : q + k ≡ q / s * s + (q % s + k) = omega (arith, div-add-mod' q s) in
    let none_over : (q % s + k) / s ≡ 0 = div-eq_of_lt (omega arith) in
    ap (λ (n : ℕ). n / s) e ∙ (mul-add-div_right pos (q / s) (q % s + k) ∙ omega (arith, none_over))

pub mod_below : (q k s : ℕ) → 0 < s → k < s - q % s → (q + k) % s ≡ q % s + k
mod_below q k s pos h =
    omega (
      arith,
      div-add-mod' q s,
      div-add-mod' (q + k) s,
      ap (λ (n : ℕ). n * s) (div_below q k s pos h),
    )

-- The first page of the next entry, as seen from page `q`, and the table's end.
pub next_page :
    (q s : ℕ)
    → 0 < s
    → q < 512 * s
    → let i = q / s in
      (i < 512)
      × ((i + 1) * s ≡ q + (s - q % s))
      × ((i + 1) * s ≤ 512 * s)
      × ((i + 1) * s / s ≡ i + 1)
next_page q s pos h =
    let i = q / s in
    let e = div-add-mod' q s in
    let small : i < 512 = lt_of_mul-lt-mul_right s (omega (arith, e, h)) in
    (
      small,
      omega (arith, add-mul i 1 s, e, mod-lt q pos),
      mul-le-mul_right s (omega (arith, small)),
      mul-div_cancel (i + 1) pos,
    )
