-- ===== src/Graphics/Buffer/Screen.antt =====
-- Points on the screen of a frame buffer, and where they stand in memory.
use mikan_os.Prelude.{
  ℕ, suc, ◌+◌, ◌-◌, ◌*◌, ◌^◌, ◌%◌, ◌≤◌, ◌<◌, ◌≡◌, refl, Bool, true, false, ◌&&◌, arith,
}
use mikan_os.Prelude.Int.{ℤ, pos_part, ◌+ℤ◌, ◌-ℤ◌, +ℤ_parts, -ℤ_parts}
use mikan_os.Graphics.{Vector2D, Rectangle, ◌-v◌, origin, intersect}
use mikan_os.Graphics.Rectangles.{within, contains, contains-intersect}
use mikan_os.Graphics.Buffer.{
  FrameBufferConfig, FrameBuffer, copy_area, frame_addr_at, int_of_u32, frame_buffer_size,
}
use mikan_os.Graphics.Buffer.Rows.{byte_at, between, line-le}

-- A configuration of a screen that its memory and the integers have room for.
pub record IsConfig (config : FrameBufferConfig) : Type 0 where
  pub line : config.horizontal_resolution ≤ config.pixels_per_scan_line
  pub narrow : config.horizontal_resolution < 2 ^ 31
  pub low : config.vertical_resolution < 2 ^ 31
  pub fits : 4 * (config.pixels_per_scan_line * config.vertical_resolution) < 2 ^ 32
  pub scan : 4 * config.pixels_per_scan_line < 2 ^ 32

abbrev pub point : ℕ → ℕ → Vector2D
point x y = record { x = ℤ.pos x; y = ℤ.pos y }

-- Byte `i` of the pixel of a frame buffer at (x, y).
abbrev pub pixel_byte : FrameBuffer → ℕ → ℕ → ℕ → ℕ
pixel_byte fb x y i = fb.memory (byte_at fb.config.pixels_per_scan_line x y i)

-- `dst_outline`.
abbrev pub outline : FrameBufferConfig → Rectangle
outline config = record { pos = origin; size = frame_buffer_size config }

pub within-shift : (s n a : ℤ) → within s n a ≡ within (ℤ.pos 0) n (a -ℤ s)
within-shift s n a = ground (arith, +ℤ_parts s n, +ℤ_parts (ℤ.pos 0) n, -ℤ_parts a s)

-- The point lies on the destination, in the shifted area and, when shifted back, on the source.
pub contains-copy_area :
    (config src_config : FrameBufferConfig) (dst_pos : Vector2D) (area : Rectangle) (p : Vector2D)
    → contains (copy_area config dst_pos src_config area) p ≡ (
        (contains (outline config) p && contains (outline src_config) (p -v (dst_pos -v area.pos)))
        && contains (record { pos = dst_pos; size = area.size }) p)
unfolding copy_area
contains-copy_area config src_config dst_pos area p =
    rw
      (
        contains-intersect
            (intersect (outline config)
              (record { pos = dst_pos -v area.pos; size = frame_buffer_size src_config }))
            (record { pos = dst_pos; size = area.size }) p,
        contains-intersect (outline config)
            (record { pos = dst_pos -v area.pos; size = frame_buffer_size src_config }) p,
        within-shift (dst_pos -v area.pos).x (frame_buffer_size src_config).x p.x,
        within-shift (dst_pos -v area.pos).y (frame_buffer_size src_config).y p.y,
      )
      refl

pub frame_addr_at-point :
    (config : FrameBufferConfig) (x y : ℕ)
    → IsConfig config
    → x < config.horizontal_resolution
    → y < config.vertical_resolution
    → frame_addr_at (point x y) config ≡ byte_at config.pixels_per_scan_line x y 0
frame_addr_at-point config x y v h k =
    let line = v.line in
    let narrow = v.narrow in
    let low = v.low in
    let fits = v.fits in
    let above = line-le config.pixels_per_scan_line y config.vertical_resolution k in
    let same_x : x % 2 ^ 32 ≡ x = omega (arith, narrow) in
    let same_y : y % 2 ^ 32 ≡ y = omega (arith, low) in
    rw (same_x, same_y) (omega (arith, line, fits, above))

pub shift_back :
    (x0 sx x : ℕ) (s : ℤ)
    → ℤ.pos x0 -ℤ s ≡ ℤ.pos sx
    → x0 ≤ x
    → pos_part (ℤ.pos x -ℤ s) ≡ sx + (x - x0)
unfolding ◌-ℤ◌
shift_back x0 sx x s e h = ground arith

pub and_both : (a b : Bool) → (a && b) ≡ true → (a ≡ true) × (b ≡ true)
and_both true true h = (refl, refl)
and_both true false h = absurd (cc)
and_both false b h = absurd (cc)

within-natural :
    (n : ℕ) (a : ℤ)
    → n < 2 ^ 31
    → within (ℤ.pos 0) (int_of_u32 n) a ≡ true
    → (a ≡ ℤ.pos (pos_part a)) × (pos_part a < n)
within-natural n a small h = ground (arith, +ℤ_parts (ℤ.pos 0) (int_of_u32 n))

-- The points of a screen are pairs of numbers.
pub on_outline :
    (config : FrameBufferConfig)
    → IsConfig config
    → (p : Vector2D) → contains (outline config) p ≡ true
    → (x : ℕ) × (y : ℕ) × (p.x ≡ ℤ.pos x)
      × (p.y ≡ ℤ.pos y)
      × (x < config.horizontal_resolution)
      × (y < config.vertical_resolution)
on_outline config v p h =
    let (on_x, on_y) =
      and_both (within (ℤ.pos 0) (int_of_u32 config.horizontal_resolution) p.x)
        (within (ℤ.pos 0) (int_of_u32 config.vertical_resolution) p.y) h in
    let (ex, lx) = within-natural config.horizontal_resolution p.x v.narrow on_x in
    let (ey, ly) = within-natural config.vertical_resolution p.y v.low on_y in
    (pos_part p.x, pos_part p.y, ex, ey, lx, ly)

pub +ℤ_zero : (a : ℤ) → a +ℤ ℤ.pos 0 ≡ a
unfolding ◌+ℤ◌
+ℤ_zero a = ground arith

pub distance : (a : ℤ) (x x' w : ℕ) → a ≡ ℤ.pos x → a +ℤ ℤ.pos w ≡ ℤ.pos x' → x' ≡ x + w
unfolding ◌+ℤ◌
distance a x x' w e k = ground arith

pub distance_shifted :
    (a s : ℤ) (x x' w : ℕ) → a -ℤ s ≡ ℤ.pos x → a +ℤ ℤ.pos w -ℤ s ≡ ℤ.pos x' → x' ≡ x + w
unfolding ◌+ℤ◌ ◌-ℤ◌
distance_shifted a s x x' w e k = ground arith

pub between-within : (x0 n x : ℕ) → within (ℤ.pos x0) (ℤ.pos n) (ℤ.pos x) ≡ between x0 n x
between-within x0 n x = ground (arith, +ℤ_parts (ℤ.pos x0) (ℤ.pos n))

-- A corner of a rectangle that is not empty.
pub corner :
    (rx ry : ℤ) (w h k : ℕ)
    → k ≤ w
    → contains
        (record {
          pos = record { x = rx; y = ry };
          size = record { x = ℤ.pos (suc w); y = ℤ.pos (suc h) };
        })
        (record { x = rx +ℤ ℤ.pos k; y = ry })
      ≡ true
corner rx ry w h k le =
    ground (arith, +ℤ_parts rx (ℤ.pos (suc w)), +ℤ_parts ry (ℤ.pos (suc h)), +ℤ_parts rx (ℤ.pos k))

-- A point below the first one.
pub lower_corner :
    (rx ry : ℤ) (w h k : ℕ)
    → k ≤ h
    → contains
        (record {
          pos = record { x = rx; y = ry };
          size = record { x = ℤ.pos (suc w); y = ℤ.pos (suc h) };
        })
        (record { x = rx; y = ry +ℤ ℤ.pos k })
      ≡ true
lower_corner rx ry w h k le =
    ground (arith, +ℤ_parts rx (ℤ.pos (suc w)), +ℤ_parts ry (ℤ.pos (suc h)), +ℤ_parts ry (ℤ.pos k))
