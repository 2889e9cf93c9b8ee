-- ===== src/Layer/Painted.antt =====
-- What drawing one layer shows.
use mikan_os.Prelude.{
  ℕ, ◌<◌, ◌≡◌, refl, List, Bool, true, false, ◌&&◌, Option, none, some, if◌then◌else◌, Option-cases,
  inl, inr,
}
use mikan_os.Prelude.Int.{ℤ, pos_part, ◌-ℤ◌, leb_ℤ}
use mikan_os.Graphics.{Vector2D, Rectangle}
use mikan_os.Graphics.Rectangles.{contains}
use mikan_os.Graphics.Buffer.{FrameBuffer}
use mikan_os.Graphics.Buffer.Screen.{IsConfig, point, pixel_byte}
use mikan_os.Graphics.Buffer.Pixels.{IsSupported}
use mikan_os.Window.{Window, size}
use mikan_os.Window.Drawn.{IsOpaque, draw_to-drawn, draw_to-pixels}
use mikan_os.Layer.{Layer, find_layer, layer_draw_to}

-- The layer's window, if it has one, is opaque and has the format of the frame buffer.
unfoldable pub IsDrawable : FrameBuffer → Layer → Type 0
IsDrawable fb l = (w : Window) → l.window ≡ some w → IsOpaque w × IsSupported fb w.shadow_buffer

-- The byte that a layer has at a point of the screen.
abbrev pub layer_byte : Layer → ℕ → ℕ → ℕ → ℕ
layer_byte l x y i = elim l.window [
  | none ↦ 0
  | some w ↦
      pixel_byte w.shadow_buffer (pos_part (ℤ.pos x -ℤ l.pos.x)) (pos_part (ℤ.pos y -ℤ l.pos.y)) i
]

-- The byte of the layer found, or what was there.
abbrev pub seen : List Layer → Option ℕ → ℕ → ℕ → ℕ → ℕ → ℕ
seen layers none x y i old = old
seen layers (some id) x y i old = elim (find_layer id layers) [
  | none ↦ 0
  | some l ↦ layer_byte l x y i
]

-- Whether the layer's window has the point.
abbrev pub covers : Layer → Vector2D → Bool
covers l p = elim l.window [
  | none ↦ false
  | some w ↦ contains (record { pos = l.pos; size = size w }) p
]

and_false : (a b : ℕ) (c : Bool) → b ≡ (if c && false then a else b)
and_false a b true = refl
and_false a b false = refl

module _ (l : Layer) (dst : FrameBuffer) (area : Rectangle) (drawable : IsDrawable dst l)
    (v : IsConfig dst.config) (wide : leb_ℤ (ℤ.pos 0) area.size.x ≡ true) where
  pub layer_draw_to-config : (layer_draw_to l dst area).config ≡ dst.config
  unfolding layer_draw_to IsDrawable
  layer_draw_to-config = elim (Option-cases l.window) [
    | inl e ↦ rw (layer_draw_to, e) refl
    | inr (w, e) ↦
        let (opaque, supported) = drawable w e in
        rw (layer_draw_to, e, draw_to-drawn w dst l.pos area opaque v supported wide) refl
  ]

  pub layer_draw_to-pixels :
      (x y i : ℕ)
      → x < dst.config.horizontal_resolution
      → y < dst.config.vertical_resolution
      → i < 4
      → pixel_byte (layer_draw_to l dst area) x y i ≡ (
          if contains area (point x y) && covers l (point x y)
          then layer_byte l x y i
          else pixel_byte dst x y i)
  unfolding layer_draw_to IsDrawable
  layer_draw_to-pixels x y i inside_x inside_y small = elim (Option-cases l.window) [
    | inl e ↦ rw (layer_draw_to, e) (and_false _ _ (contains area (point x y)))
    | inr (w, e) ↦
        let (opaque, supported) = drawable w e in
        rw (layer_draw_to, e)
          (draw_to-pixels w dst l.pos area opaque v supported wide x y i inside_x inside_y small)
  ]
