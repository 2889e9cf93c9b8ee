-- ===== src/Graphics/Buffer/Rows.antt =====
-- The loop of `Copy` in coordinates.
use mikan_os.Prelude.{
  ℕ, zero, suc, ◌+◌, ◌-◌, ◌*◌, ◌≤◌, ◌<◌, ◌≡◌, inl, inr, refl, ap, ◌∙◌, Bool, true, false, ◌&&◌, ltb,
  leb, ◌==◌, if◌then◌else◌, arith, Bool-cases,
}
use mikan_os.Graphics.Buffer.{memcpy, copy_rows}

-- Byte `i` of the pixel at (x, y), where a line has `p` pixels.
abbrev pub byte_at : ℕ → ℕ → ℕ → ℕ → ℕ
byte_at p x y i = 4 * (p * y + x) + i

abbrev pub between : ℕ → ℕ → ℕ → Bool
between start n a = leb start a && ltb a (start + n)

pub line-le : (p a b : ℕ) → a < b → p * a + p ≤ p * b
line-le p a b h = grind arith

-- The bytes of `w` pixels of a line are those of the pixels in that line and those columns.
between-line :
    (p x0 y0 w x y i : ℕ)
    → x0 + w ≤ p
    → x < p
    → i < 4
    → between (byte_at p x0 y0 0) (4 * w) (byte_at p x y i) ≡ ((y == y0) && between x0 w x)
between-line p x0 y0 w x y i fits inside small =
    ground (arith, line-le p y y0, line-le p y0 y, ap (λ (a : ℕ). p * a))

memcpy-line :
    (dst src : ℕ → ℕ) (p q x0 y0 sx sy w x y i : ℕ)
    → x0 + w ≤ p
    → x < p
    → i < 4
    → memcpy dst src (byte_at p x0 y0 0) (byte_at q sx sy 0) (4 * w) (byte_at p x y i) ≡ (
        if (y == y0) && between x0 w x
        then src (byte_at q (sx + (x - x0)) sy i)
        else dst (byte_at p x y i))
memcpy-line dst src p q x0 y0 sx sy w x y i fits inside small =
    elim (Bool-cases ((y == y0) && between x0 w x)) [
      | inl yes' ↦
          let same : byte_at p x y i - byte_at p x0 y0 0 + byte_at q sx sy 0
              ≡ byte_at q (sx + (x - x0)) sy i =
            ground (arith, ap (λ (a : ℕ). p * a)) in
          rw (between-line p x0 y0 w x y i fits inside small, yes', same) refl
      | inr no' ↦ rw (between-line p x0 y0 w x y i fits inside small, no') refl
    ]

next_line : (p x y : ℕ) → byte_at p x y 0 + 4 * p ≡ byte_at p x (suc y) 0
next_line p x y = grind arith

-- The first row and the others.
add_row :
    (value : ℕ → ℕ) (old : ℕ) (column : Bool) (h y0 sy y : ℕ)
    → (if between (suc y0) h y && column
        then value (suc sy + (y - suc y0))
        else if (y == y0) && column
        then value sy
        else old)
      ≡ (if between y0 (suc h) y && column then value (sy + (y - y0)) else old)
add_row value old true h y0 sy y = ground (arith, ap value)
add_row value old false h y0 sy y = ground arith

pub copy_rows-byte :
    (h : ℕ) (dst src : ℕ → ℕ) (p q x0 y0 sx sy w x y i : ℕ)
    → x0 + w ≤ p
    → x < p
    → i < 4
    → copy_rows h dst src
        (byte_at p x0 y0 0)
        (byte_at q sx sy 0)
        (4 * w)
        (4 * p)
        (4 * q)
        (byte_at p x y i)
      ≡ (if between y0 h y && between x0 w x
          then src (byte_at q (sx + (x - x0)) (sy + (y - y0)) i)
          else dst (byte_at p x y i))
unfolding copy_rows
copy_rows-byte zero dst src p q x0 y0 sx sy w x y i fits inside small = ground arith
copy_rows-byte (suc h) dst src p q x0 y0 sx sy w x y i fits inside small =
    rw
      (
        next_line p x0 y0,
        next_line q sx sy,
        copy_rows-byte h (memcpy dst src (byte_at p x0 y0 0) (byte_at q sx sy 0) (4 * w)) src p q x0
            (suc y0) sx (suc sy) w x y i fits inside small,
        memcpy-line dst src p q x0 y0 sx sy w x y i fits inside small,
      )
      (add_row (λ b. src (byte_at q (sx + (x - x0)) b i)) (dst (byte_at p x y i)) (between x0 w x) h
        y0 sy y)

-- Without bytes to copy nothing changes.
pub copy_rows-nothing :
    (h : ℕ) (dst src : ℕ → ℕ) (d s dl sl a : ℕ) → copy_rows h dst src d s 0 dl sl a ≡ dst a
unfolding copy_rows
copy_rows-nothing zero dst src d s dl sl a = refl
copy_rows-nothing (suc h) dst src d s dl sl a =
    copy_rows-nothing h (memcpy dst src d s 0) src (d + dl) (s + sl) dl sl a ∙ ground arith
