-- ===== src/Layer/Tests.antt =====
-- A screen with three layers, and the instances of the theorems.
use mikan_os.Prelude.{ℕ, ◌≡◌, refl, List, [], ◌∷◌, subst, false, none, some, arith, inr}
use mikan_os.Prelude.Int.{ℤ, ◌+ℤ◌, ◌-ℤ◌}
use mikan_os.Graphics.{Rectangle, origin}
use mikan_os.Graphics.Rectangles.{contains}
use mikan_os.Graphics.Buffer.{PixelFormat, FrameBufferConfig, FrameBuffer}
use mikan_os.Graphics.Buffer.Screen.{IsConfig, point, pixel_byte}
use mikan_os.Graphics.Buffer.Pixels.{IsSupported}
use mikan_os.Task.{constructed}
use mikan_os.Window.{Window, draw_to, get_window_region, black}
use mikan_os.Window.Region.{button, is_button, get_window_region-button}
use mikan_os.Window.Drawn.{IsOpaque, draw_to-pixels}
use mikan_os.Layer.{
  Layer, LayerManager, find_layer, erase_id, height_of, get_height, up_down, hide, draw_area,
  at_position, find_last, find_layer_by_position,
}
use mikan_os.Layer.Painted.{IsDrawable}
use mikan_os.Layer.Topmost.{AllDrawable, IsComposed, draw_area-topmost}
use mikan_os.Layer.Stack.{up_down-hide}
use mikan_os.Layer.Active.{Desktop, activate}
use mikan_os.Layer.Focus.{activate-below_mouse}

abbrev config_of : ℕ → ℕ → FrameBufferConfig
config_of width height = record {
  pixels_per_scan_line = width;
  horizontal_resolution = width;
  vertical_resolution = height;
  pixel_format = PixelFormat.bgr_resv_8bit_per_color;
}

abbrev filled : ℕ → ℕ → ℕ → FrameBuffer
filled width height value = record { config = config_of width height; memory = λ a. value }

abbrev window_of : ℕ → ℕ → ℕ → Window
window_of width height value = record {
  width = ℤ.pos width;
  height = ℤ.pos height;
  content = λ y x. black;
  transparent_color = none;
  shadow_buffer = filled width height value;
  toplevel = false;
}

abbrev layer_of : ℕ → ℕ → ℕ → Window → Layer
layer_of id x y w = record { id = id; pos = point x y; window = some w; draggable = false }

abbrev layers : List Layer
layers =
    layer_of 1 0 0 (window_of 4 3 10)
    ∷ layer_of 2 1 1 (window_of 2 2 20)
    ∷ layer_of 3 3 0 (window_of 1 1 30)
    ∷ []

abbrev manager : LayerManager
manager = record {
  screen = filled 4 3 0;
  back_buffer = filled 4 3 0;
  layers = layers;
  layer_stack = 2 ∷ 1 ∷ 3 ∷ [];
  latest_id = 3;
}

screen-IsConfig : IsConfig (config_of 4 3)
screen-IsConfig = record {
  line = omega arith;
  narrow = omega arith;
  low = omega arith;
  fits = omega arith;
  scan = omega arith;
}

small-IsConfig : IsConfig (config_of 2 2)
small-IsConfig = record {
  line = omega arith;
  narrow = omega arith;
  low = omega arith;
  fits = omega arith;
  scan = omega arith;
}

tiny-IsConfig : IsConfig (config_of 1 1)
tiny-IsConfig = record {
  line = omega arith;
  narrow = omega arith;
  low = omega arith;
  fits = omega arith;
  scan = omega arith;
}

window-IsOpaque :
    (width height value : ℕ)
    → IsConfig (config_of width height)
    → IsOpaque (window_of width height value)
window-IsOpaque width height value v = record {
  opaque = refl;
  config = v;
  sized_x = refl;
  sized_y = refl;
}

layer-IsDrawable :
    (id x y width height value : ℕ)
    → IsConfig (config_of width height)
    → IsDrawable (filled 4 3 0) (layer_of id x y (window_of width height value))
unfolding IsDrawable
layer-IsDrawable id x y width height value v w e =
    let same : window_of width height value ≡ w = ground arith in
    (
      subst IsOpaque same (window-IsOpaque width height value v),
      subst (λ (u : Window). IsSupported (filled 4 3 0) u.shadow_buffer) same (refl, inr refl),
    )

manager-IsComposed : IsComposed manager
unfolding AllDrawable
manager-IsComposed = record {
  screen_config = screen-IsConfig;
  back_config = screen-IsConfig;
  same_width = refl;
  same_height = refl;
  supported = (refl, inr refl);
  drawable = (
    layer-IsDrawable 1 0 0 4 3 10 screen-IsConfig,
    (
      layer-IsDrawable 2 1 1 2 2 20 small-IsConfig,
      (layer-IsDrawable 3 3 0 1 1 30 tiny-IsConfig, tt),
    ),
  );
}

whole : Rectangle
whole = record { pos = origin; size = record { x = ℤ.pos 4; y = ℤ.pos 3 } }

draw_to-pixels_example :
    pixel_byte (draw_to (window_of 2 2 20) (filled 4 3 0) (point 1 1) whole) 2 2 0 ≡ 20
unfolding whole ◌+ℤ◌ ◌-ℤ◌
draw_to-pixels_example =
    draw_to-pixels (window_of 2 2 20) (filled 4 3 0) (point 1 1) whole
      (window-IsOpaque 2 2 20 small-IsConfig) screen-IsConfig (refl, inr refl) refl 2 2 0
      (omega arith) (omega arith) (omega arith)

-- Layer 2 lies under the background.
draw_area-topmost_example : pixel_byte (draw_area manager whole).screen 1 1 0 ≡ 10
unfolding whole find_layer_by_position find_last at_position find_layer ◌+ℤ◌ ◌-ℤ◌ height_of
draw_area-topmost_example =
    draw_area-topmost manager whole 9 1 1 0 manager-IsComposed refl refl (omega arith) (omega arith)
      (omega arith)

up_down-hide_example :
    (get_height (up_down manager 2 (ℤ.pos 7)) 2 ≡ ℤ.pos 2)
    × (erase_id 2 (up_down manager 2 (ℤ.pos 7)).layer_stack ≡ 1 ∷ 3 ∷ [])
    × ((hide (up_down manager 2 (ℤ.pos 7)) 2).layer_stack ≡ 1 ∷ 3 ∷ [])
    × (get_height (hide (up_down manager 2 (ℤ.pos 7)) 2) 2 ≡ ℤ.negsuc 0)
unfolding find_layer erase_id height_of
up_down-hide_example = up_down-hide manager 2 7 (layer_of 2 1 1 (window_of 2 2 20)) refl refl

abbrev desktop : Desktop ℕ
desktop = record {
  manager = manager;
  active_layer = 1;
  mouse_layer = 3;
  layer_task_map = (2, 1) ∷ [];
  tasks = constructed 10 20;
}

activate-below_mouse_example :
    let stack = (activate whole (λ active w. w) desktop 2).manager.layer_stack in
    ((activate whole (λ active w. w) desktop 2).active_layer ≡ 2)
    × (height_of 2 stack ≡ some 1)
    × (height_of 3 stack ≡ some 2)
    × (erase_id 2 stack ≡ 1 ∷ 3 ∷ [])
unfolding find_layer erase_id height_of
activate-below_mouse_example =
    activate-below_mouse whole (λ active w. w) desktop 2 1 (layer_of 2 1 1 (window_of 2 2 20))
      (omega arith) (λ e. omega arith) refl refl (λ e. omega arith) refl

get_window_region-button_example :
    is_button (get_window_region (window_of 100 40 0) (point 80 6))
    ≡ contains (button (window_of 100 40 0)) (point 80 6)
get_window_region-button_example =
    get_window_region-button (window_of 100 40 0) (point 80 6) (omega arith) (omega arith)
