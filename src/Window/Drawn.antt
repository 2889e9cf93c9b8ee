-- ===== src/Window/Drawn.antt =====
-- What `DrawTo` of a window without a transparent colour does to the pixels.
use mikan_os.Prelude.{
  ℕ, ◌<◌, ◌≡◌, refl, sym, ◌^◌, ◌∙◌, Bool, true, false, ◌&&◌, none, if◌then◌else◌, arith, ap,
}
use mikan_os.Prelude.Int.{ℤ, pos_part, ◌-ℤ◌, -ℤ_parts, eq_of_parts, leb_ℤ}
use mikan_os.Error.{Code}
use mikan_os.Graphics.{Vector2D, Rectangle, ◌-v◌, intersect}
use mikan_os.Graphics.Rectangles.{contains, contains-intersect}
use mikan_os.Graphics.Buffer.{FrameBuffer, int_of_u32}
use mikan_os.Graphics.Buffer.Screen.{IsConfig, point, pixel_byte, outline, within-shift}
use mikan_os.Graphics.Buffer.Pixels.{IsSupported, copied, copy-copied, copy-pixels, intersect-wide}
use mikan_os.Window.{Window, size, draw_to}

-- An opaque window whose shadow buffer has its size.
pub record IsOpaque (w : Window) : Type 0 where
  pub opaque : w.transparent_color ≡ none
  pub config : IsConfig w.shadow_buffer.config
  pub sized_x : w.width ≡ ℤ.pos w.shadow_buffer.config.horizontal_resolution
  pub sized_y : w.height ≡ ℤ.pos w.shadow_buffer.config.vertical_resolution

ℤ_back : (a b : ℤ) → a -ℤ (a -ℤ b) ≡ b
ℤ_back a b = omega (arith, -ℤ_parts, eq_of_parts)

and_absorb : (a c : Bool) → (c && (a && c)) ≡ (a && c)
and_absorb true true = refl
and_absorb true false = refl
and_absorb false true = refl
and_absorb false false = refl

int_of_u32-small : (n : ℕ) → n < 2 ^ 31 → int_of_u32 n ≡ ℤ.pos n
int_of_u32-small n h = ground arith

module _ (w : Window) (dst : FrameBuffer) (pos : Vector2D) (area : Rectangle) (opaque : IsOpaque w)
    (v : IsConfig dst.config) (supported : IsSupported dst w.shadow_buffer)
    (wide : leb_ℤ (ℤ.pos 0) area.size.x ≡ true) where
  abbrev frame : Rectangle
  frame = record { pos = pos; size = size w }

  abbrev drawn_part : Rectangle
  drawn_part = intersect area frame

  abbrev drawn : FrameBuffer
  drawn =
      copied dst drawn_part.pos w.shadow_buffer
        (record { pos = drawn_part.pos -v pos; size = drawn_part.size })

  part-wide : leb_ℤ (ℤ.pos 0) drawn_part.size.x ≡ true
  part-wide = intersect-wide area frame wide (rw opaque.sized_x (ground arith))

  pub draw_to-drawn : draw_to w dst pos area ≡ drawn
  unfolding draw_to
  draw_to-drawn =
      let e = opaque.opaque in
      rw (draw_to, e)
        (ap (λ (r : Code × FrameBuffer). r.1)
          (copy-copied dst drawn_part.pos w.shadow_buffer
            (record { pos = drawn_part.pos -v pos; size = drawn_part.size }) supported))

  outline-frame :
      (p : Vector2D) → contains (outline w.shadow_buffer.config) (p -v pos) ≡ contains frame p
  outline-frame p =
      let narrow = opaque.config.narrow in
      let low = opaque.config.low in
      let ex : int_of_u32 w.shadow_buffer.config.horizontal_resolution ≡ w.width =
        int_of_u32-small _ narrow ∙ sym opaque.sized_x in
      let ey : int_of_u32 w.shadow_buffer.config.vertical_resolution ≡ w.height =
        int_of_u32-small _ low ∙ sym opaque.sized_y in
      rw (ex, ey, within-shift pos.x w.width p.x, within-shift pos.y w.height p.y) refl

  -- An opaque window, whose shadow buffer has its size, is drawn on a screen of the same supported
  -- pixel format, each with lines of at least as many pixels as are visible, resolutions below 2 ^
  -- 31, and less than 2 ^ 32 bytes in a line and in all, in an area that is not of a negative
  -- width: a pixel of the screen that is in the area and in the window gets the four bytes of the
  -- pixel of the shadow buffer, and every other pixel of the screen keeps its own.
  pub draw_to-pixels :
      (x y i : ℕ)
      → x < dst.config.horizontal_resolution
      → y < dst.config.vertical_resolution
      → i < 4
      → pixel_byte (draw_to w dst pos area) x y i ≡ (
          if contains area (point x y) && contains frame (point x y)
          then pixel_byte w.shadow_buffer
              (pos_part (ℤ.pos x -ℤ pos.x))
              (pos_part (ℤ.pos y -ℤ pos.y))
              i
          else pixel_byte dst x y i)
  draw_to-pixels x y i inside_x inside_y small = rw draw_to-drawn (
      (copy-pixels dst drawn_part.pos w.shadow_buffer
        (record { pos = drawn_part.pos -v pos; size = drawn_part.size }) v opaque.config part-wide x
        y i inside_x inside_y small supported).1
      ∙ rw
          (
            ℤ_back drawn_part.pos.x pos.x,
            ℤ_back drawn_part.pos.y pos.y,
            outline-frame (point x y),
            contains-intersect area frame (point x y),
            and_absorb (contains area (point x y)) (contains frame (point x y)),
          )
          refl)
