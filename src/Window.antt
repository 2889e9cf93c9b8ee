-- ===== src/Window.antt =====
-- kernel/window.hpp and kernel/window.cpp: windows and how one is drawn to a frame buffer. What
-- DrawWindow and DrawWindowTitle paint into a window is not modelled.
pub mod Drawn
pub mod Region
use mikan_os.Prelude.{
  ℕ, zero, suc, Bool, true, false, not, ◌&&◌, ◌||◌, Option, none, some, ◌==◌, if◌then◌else◌,
}
use mikan_os.Prelude.Int.{ℤ, ◌+ℤ◌, ◌-ℤ◌, ltb_ℤ, leb_ℤ, max_ℤ, min_ℤ}
use mikan_os.Error.{Code}
use mikan_os.Graphics.{PixelColor, color_eq, Vector2D, ◌+v◌, ◌-v◌, Rectangle, intersect}
use mikan_os.Graphics.Buffer.{
  PixelFormat, FrameBufferConfig, FrameBuffer, rounds, u32_of_int, frame_buffer_size, initialize,
  copy, move, write,
}

pub record Window : Type 0 where
  pub width : ℤ
  pub height : ℤ
  -- `data_[pos.y][pos.x]`
  pub content : ℤ → ℤ → PixelColor
  pub transparent_color : Option PixelColor
  pub shadow_buffer : FrameBuffer
  -- whether the object is a `ToplevelWindow`
  pub toplevel : Bool

pub data WindowRegion : Type 0 where
  title_bar close_button border other : WindowRegion

abbrev pub black : PixelColor
black = record { r = 0; g = 0; b = 0 }

-- `Window::Window`. An error of the shadow buffer is only logged.
unfoldable pub new_window : ℤ → ℤ → PixelFormat → Window
new_window width height shadow_format = record {
  width = width;
  height = height;
  content = λ y x. black;
  transparent_color = none;
  shadow_buffer =
      (initialize
        (record {
          pixels_per_scan_line = 0;
          horizontal_resolution = u32_of_int width;
          vertical_resolution = u32_of_int height;
          pixel_format = shadow_format;
        })
        none).1;
  toplevel = false;
}

pub set_transparent_color : Window → Option PixelColor → Window
set_transparent_color w c = record w { transparent_color = c }

abbrev pub size : Window → Vector2D
size w = record { x = w.width; y = w.height }

-- `At`.
abbrev pub at : Window → Vector2D → PixelColor
at w pos = w.content pos.y pos.x

abbrev pub same_int : ℤ → ℤ → Bool
same_int a b = leb_ℤ a b && leb_ℤ b a

-- `Window::Write`.
pub write_pixel : Window → Vector2D → PixelColor → Window
write_pixel w pos c = record w {
  content = λ y x. if same_int y pos.y && same_int x pos.x then c else w.content y x;
  shadow_buffer = write w.shadow_buffer pos c;
}

-- `Window::Move`.
pub move_area : Window → Vector2D → Rectangle → Window
move_area w dst_pos src = record w { shadow_buffer = move w.shadow_buffer dst_pos src }

-- The loops of `DrawTo` with a transparent colour, with the rounds that are left.
unfoldable pub draw_row : ℕ → Window → Vector2D → PixelColor → ℤ → ℤ → FrameBuffer → FrameBuffer
draw_row zero w pos tc x y dst = dst
draw_row (suc n) w pos tc x y dst =
    let p : Vector2D = record { x = x; y = y } in
    let c = at w p in
    draw_row n w pos tc (x +ℤ ℤ.pos 1) y (if color_eq c tc then dst else write dst (pos +v p) c)

unfoldable pub draw_rows : ℕ → Window → Vector2D → PixelColor → ℤ → FrameBuffer → FrameBuffer
draw_rows zero w pos tc y dst = dst
draw_rows (suc n) w pos tc y dst =
    let first = max_ℤ (ℤ.pos 0) (ℤ.pos 0 -ℤ pos.x) in
    let end = min_ℤ w.width ((frame_buffer_size dst.config).x -ℤ pos.x) in
    draw_rows n w pos tc (y +ℤ ℤ.pos 1) (draw_row (rounds (end -ℤ first)) w pos tc first y dst)

-- `Window::DrawTo`.
unfoldable pub draw_to : Window → FrameBuffer → Vector2D → Rectangle → FrameBuffer
draw_to w dst pos area = elim w.transparent_color [
  | none ↦
      let intersection = intersect area (record { pos = pos; size = size w }) in
      (copy dst intersection.pos w.shadow_buffer
        (record { pos = intersection.pos -v pos; size = intersection.size })).1
  | some tc ↦
      let first = max_ℤ (ℤ.pos 0) (ℤ.pos 0 -ℤ pos.y) in
      let end = min_ℤ w.height ((frame_buffer_size dst.config).y -ℤ pos.y) in
      draw_rows (rounds (end -ℤ first)) w pos tc first dst
]

-- `ToplevelWindow::kTopLeftMargin` and `kBottomRightMargin`.
abbrev pub top_left_margin : Vector2D
top_left_margin = record { x = ℤ.pos 4; y = ℤ.pos 24 }

abbrev pub bottom_right_margin : Vector2D
bottom_right_margin = record { x = ℤ.pos 4; y = ℤ.pos 4 }

-- `ToplevelWindow::InnerSize`.
pub inner_size : Window → Vector2D
inner_size w = size w -v top_left_margin -v bottom_right_margin

-- `ToplevelWindow::GetWindowRegion`.
unfoldable pub get_window_region : Window → Vector2D → WindowRegion
get_window_region w pos =
    let on_button =
      leb_ℤ (w.width -ℤ ℤ.pos 5 -ℤ ℤ.pos 16) pos.x
      && ltb_ℤ pos.x (w.width -ℤ ℤ.pos 5)
      && leb_ℤ (ℤ.pos 5) pos.y
      && ltb_ℤ pos.y (ℤ.pos 19) in
    if ltb_ℤ pos.x (ℤ.pos 2)
      || leb_ℤ (w.width -ℤ ℤ.pos 2) pos.x
      || ltb_ℤ pos.y (ℤ.pos 2)
      || leb_ℤ (w.height -ℤ ℤ.pos 2) pos.y
    then WindowRegion.border
    else if ltb_ℤ pos.y top_left_margin.y
    then if on_button then WindowRegion.close_button else WindowRegion.title_bar
    else WindowRegion.other

-- The virtual call of `GetWindowRegion`: that of `Window` gives `other` everywhere.
unfoldable pub region_at : Window → Vector2D → WindowRegion
region_at w pos = if w.toplevel then get_window_region w pos else WindowRegion.other
