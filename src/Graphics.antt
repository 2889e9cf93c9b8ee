-- ===== src/Graphics.antt =====
-- kernel/graphics.hpp: points, rectangles and colours. An `int` is an integer: a sum past its range is
-- undefined in C++.
pub mod Rectangles
pub mod Buffer
mod Tests
use mikan_os.Prelude.{ℕ, ◌/◌, ◌%◌, ◌^◌, Bool, ◌&&◌, ◌||◌, ◌==◌, if◌then◌else◌}
use mikan_os.Prelude.Int.{ℤ, ◌+ℤ◌, ◌-ℤ◌, ltb_ℤ, max_ℤ, min_ℤ}

pub record PixelColor : Type 0 where
  pub r : ℕ
  pub g : ℕ
  pub b : ℕ

-- `ToColor`.
pub to_color : ℕ → PixelColor
to_color c = record { r = c / 2 ^ 16 % 256; g = c / 2 ^ 8 % 256; b = c % 256 }

-- `operator==`.
abbrev pub color_eq : PixelColor → PixelColor → Bool
color_eq lhs rhs = lhs.r == rhs.r && lhs.g == rhs.g && lhs.b == rhs.b

pub record Vector2D : Type 0 where
  pub x : ℤ
  pub y : ℤ

infixl 65 ◌+v◌ ◌-v◌
abbrev pub ◌+v◌ : Vector2D → Vector2D → Vector2D
lhs +v rhs = record { x = lhs.x +ℤ rhs.x; y = lhs.y +ℤ rhs.y }

abbrev pub ◌-v◌ : Vector2D → Vector2D → Vector2D
lhs -v rhs = record { x = lhs.x -ℤ rhs.x; y = lhs.y -ℤ rhs.y }

abbrev pub element_max : Vector2D → Vector2D → Vector2D
element_max lhs rhs = record { x = max_ℤ lhs.x rhs.x; y = max_ℤ lhs.y rhs.y }

abbrev pub element_min : Vector2D → Vector2D → Vector2D
element_min lhs rhs = record { x = min_ℤ lhs.x rhs.x; y = min_ℤ lhs.y rhs.y }

pub record Rectangle : Type 0 where
  pub pos : Vector2D
  pub size : Vector2D

abbrev pub origin : Vector2D
origin = record { x = ℤ.pos 0; y = ℤ.pos 0 }

-- `operator&`, with the test of the source, which compares `rhs` with itself in y.
unfoldable pub intersect : Rectangle → Rectangle → Rectangle
intersect lhs rhs =
    let lhs_end = lhs.pos +v lhs.size in
    let rhs_end = rhs.pos +v rhs.size in
    let new_pos = element_max lhs.pos rhs.pos in
    let new_size = element_min lhs_end rhs_end -v new_pos in
    if ltb_ℤ lhs_end.x rhs.pos.x
      || ltb_ℤ rhs_end.y rhs.pos.y
      || ltb_ℤ rhs_end.x lhs.pos.x
      || ltb_ℤ rhs_end.y lhs.pos.y
    then record { pos = origin; size = origin }
    else record { pos = new_pos; size = new_size }
