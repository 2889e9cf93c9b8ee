-- ===== src/Graphics/Rectangles.antt =====
-- The intersection of rectangles, as sets of points.
use mikan_os.Prelude.{◌≡◌, Bool, true, false, ◌&&◌, arith}
use mikan_os.Prelude.Int.{ℤ, ◌+ℤ◌, ◌-ℤ◌, ltb_ℤ, leb_ℤ, +ℤ_parts, -ℤ_parts, min_ℤ, max_ℤ}
use mikan_os.Graphics.{Vector2D, Rectangle, intersect}

-- A number of an interval that starts at `start` and has `size` numbers.
abbrev pub within : ℤ → ℤ → ℤ → Bool
within start size a = leb_ℤ start a && ltb_ℤ a (start +ℤ size)

-- The point lies in the rectangle.
abbrev pub contains : Rectangle → Vector2D → Bool
contains r p = within r.pos.x r.size.x p.x && within r.pos.y r.size.y p.y

within-both :
    (s1 n1 s2 n2 a : ℤ)
    → within (max_ℤ s1 s2) (min_ℤ (s1 +ℤ n1) (s2 +ℤ n2) -ℤ max_ℤ s1 s2) a
      ≡ (within s1 n1 a && within s2 n2 a)
within-both s1 n1 s2 n2 a = ground (
  arith,
  +ℤ_parts s1 n1,
  +ℤ_parts s2 n2,
  +ℤ_parts (max_ℤ s1 s2) (min_ℤ (s1 +ℤ n1) (s2 +ℤ n2) -ℤ max_ℤ s1 s2),
  -ℤ_parts (min_ℤ (s1 +ℤ n1) (s2 +ℤ n2)) (max_ℤ s1 s2),
)

-- No number lies in two intervals of which one ends before the other starts.
within-apart :
    (s1 n1 s2 n2 a : ℤ) → ltb_ℤ (s1 +ℤ n1) s2 ≡ true → (within s1 n1 a && within s2 n2 a) ≡ false
within-apart s1 n1 s2 n2 a h = ground (arith, +ℤ_parts s1 n1)

within-negative : (s n a : ℤ) → ltb_ℤ (s +ℤ n) s ≡ true → within s n a ≡ false
within-negative s n a h = ground (arith, +ℤ_parts s n)

within-nothing : (a : ℤ) → within (ℤ.pos 0) (ℤ.pos 0) a ≡ false
within-nothing a = ground (arith, +ℤ_parts (ℤ.pos 0) (ℤ.pos 0))

-- The intersection of two rectangles of any sizes has exactly the points that both have.
pub contains-intersect :
    (lhs rhs : Rectangle) (p : Vector2D)
    → contains (intersect lhs rhs) p ≡ (contains lhs p && contains rhs p)
unfolding intersect
contains-intersect lhs rhs p = ground (
  arith,
  within-both lhs.pos.x lhs.size.x rhs.pos.x rhs.size.x p.x,
  within-both lhs.pos.y lhs.size.y rhs.pos.y rhs.size.y p.y,
  within-apart lhs.pos.x lhs.size.x rhs.pos.x rhs.size.x p.x,
  within-apart rhs.pos.x rhs.size.x lhs.pos.x lhs.size.x p.x,
  within-apart rhs.pos.y rhs.size.y lhs.pos.y lhs.size.y p.y,
  within-negative rhs.pos.y rhs.size.y p.y,
  within-nothing p.x,
)
