-- ===== src/Window/Region.antt =====
-- Where the close button of a window is.
use mikan_os.Prelude.{◌≡◌, Bool, true, false, arith}
use mikan_os.Prelude.Int.{ℤ, ◌-ℤ◌, ◌≤ℤ◌, +ℤ_parts, -ℤ_parts}
use mikan_os.Graphics.{Vector2D, Rectangle}
use mikan_os.Graphics.Rectangles.{contains}
use mikan_os.Window.{Window, WindowRegion, get_window_region}

-- The rectangle in which DrawWindowTitle draws the button.
abbrev pub button : Window → Rectangle
button w = record {
  pos = record { x = w.width -ℤ ℤ.pos 5 -ℤ ℤ.pos 16; y = ℤ.pos 5 };
  size = record { x = ℤ.pos 16; y = ℤ.pos 14 };
}

-- Whether the region is the close button.
abbrev pub is_button : WindowRegion → Bool
is_button WindowRegion.close_button = true
is_button WindowRegion.title_bar = false
is_button WindowRegion.border = false
is_button WindowRegion.other = false

-- In a window of at least 23 by 21 pixels `GetWindowRegion` says that a point is on the close button
-- exactly for the points of the rectangle in which the button is drawn.
pub get_window_region-button :
    (w : Window) (p : Vector2D)
    → ℤ.pos 23 ≤ℤ w.width
    → ℤ.pos 21 ≤ℤ w.height
    → is_button (get_window_region w p) ≡ contains (button w) p
unfolding get_window_region
get_window_region-button w p wide high = ground (
  arith,
  -ℤ_parts w.width (ℤ.pos 2),
  -ℤ_parts w.height (ℤ.pos 2),
  -ℤ_parts w.width (ℤ.pos 5),
  -ℤ_parts (w.width -ℤ ℤ.pos 5) (ℤ.pos 16),
  +ℤ_parts (w.width -ℤ ℤ.pos 5 -ℤ ℤ.pos 16) (ℤ.pos 16),
  +ℤ_parts (ℤ.pos 5) (ℤ.pos 14),
)
