-- ===== src/Graphics/Buffer/Copied.antt =====
-- The copy of a rectangle that lies on both frame buffers.
use mikan_os.Prelude.{
  ℕ, zero, suc, ◌+◌, ◌*◌, ◌^◌, ◌%◌, ◌≤◌, ◌<◌, ◌≡◌, inl, inr, ap, ap₂, refl, ◌∙◌, sym, subst, true,
  ◌&&◌, if◌then◌else◌, arith, Bool-cases,
}
use mikan_os.Prelude.Int.{ℤ, pos_part, ◌+ℤ◌, ◌-ℤ◌, +ℤ_parts, leb_ℤ}
use mikan_os.Graphics.{Vector2D, ◌-v◌}
use mikan_os.Graphics.Rectangles.{contains}
use mikan_os.Graphics.Buffer.{
  FrameBuffer, FrameBufferConfig, copy_rows, rounds, frame_addr_at, size_of_int,
  bytes_per_scan_line,
}
use mikan_os.Graphics.Buffer.Rows.{byte_at, between, copy_rows-byte, copy_rows-nothing}
use mikan_os.Graphics.Buffer.Screen.{
  IsConfig, point, pixel_byte, outline, frame_addr_at-point, shift_back, on_outline, +ℤ_zero,
  distance, distance_shifted, between-within, corner, lower_corner,
}

-- The rows of a configuration with more than one row are short enough for an `int`.
short_rows :
    (config : FrameBufferConfig)
    → IsConfig config
    → 1 < config.vertical_resolution
    → 4 * config.pixels_per_scan_line < 2 ^ 31
short_rows config v more = grind (arith, v.fits, more)

line_lem :
    (config : FrameBufferConfig)
    → 4 * config.pixels_per_scan_line < 2 ^ 31
    → size_of_int (bytes_per_scan_line config) ≡ 4 * config.pixels_per_scan_line
line_lem config short = ground (arith, short)

-- A copy of one row does not read how far the rows are apart.
copy_rows_lines :
    (h : ℕ) (dst src : ℕ → ℕ) (d s n : ℕ) (config config' : FrameBufferConfig)
    → (1 < h → 4 * config.pixels_per_scan_line < 2 ^ 31)
    → (1 < h → 4 * config'.pixels_per_scan_line < 2 ^ 31)
    → copy_rows h dst src d s n
        (size_of_int (bytes_per_scan_line config))
        (size_of_int (bytes_per_scan_line config'))
      ≡ copy_rows h dst src d s n
          (4 * config.pixels_per_scan_line)
          (4 * config'.pixels_per_scan_line)
unfolding copy_rows
copy_rows_lines zero dst src d s n config config' short short' = refl
copy_rows_lines (suc zero) dst src d s n config config' short short' = refl
copy_rows_lines (suc (suc h)) dst src d s n config config' short short' =
    ap₂ (λ l l'. copy_rows (suc (suc h)) dst src d s n l l') (line_lem config (short (omega arith)))
      (line_lem config' (short' (omega arith)))

module _ (fb src : FrameBuffer) (shift : Vector2D) (v : IsConfig fb.config)
    (v' : IsConfig src.config) (x y i : ℕ) (inside_x : x < fb.config.horizontal_resolution)
    (inside_y : y < fb.config.vertical_resolution) (small : i < 4) where
  -- What the source area shows at (x, y).
  abbrev pub shown : ℕ
  shown = pixel_byte src (pos_part (ℤ.pos x -ℤ shift.x)) (pos_part (ℤ.pos y -ℤ shift.y)) i

  -- The copy of an area that lies on both frame buffers.
  copied_natural :
      (x0 y0 sx sy w h : ℕ)
      → x0 + w ≤ fb.config.horizontal_resolution
      → sx + w ≤ src.config.horizontal_resolution
      → 0 < w
      → y0 < fb.config.vertical_resolution
      → sy < src.config.vertical_resolution
      → ℤ.pos x0 -ℤ shift.x ≡ ℤ.pos sx
      → ℤ.pos y0 -ℤ shift.y ≡ ℤ.pos sy
      → (1 < h → 4 * fb.config.pixels_per_scan_line < 2 ^ 31)
      → (1 < h → 4 * src.config.pixels_per_scan_line < 2 ^ 31)
      → copy_rows h fb.memory src.memory
          (frame_addr_at (point x0 y0) fb.config)
          (frame_addr_at (point sx sy) src.config)
          (4 * w % 2 ^ 64)
          (size_of_int (bytes_per_scan_line fb.config))
          (size_of_int (bytes_per_scan_line src.config))
          (byte_at fb.config.pixels_per_scan_line x y i)
        ≡ (if between x0 w x && between y0 h y then shown else pixel_byte fb x y i)
  copied_natural x0 y0 sx sy w h fit_x fit_sx some_w in_y in_sy ex ey short short' =
      let narrow = v.narrow in
      let line = v.line in
      let n : 4 * w % 2 ^ 64 ≡ 4 * w = omega (arith, narrow) in
      let lines =
        ap (λ m. m (byte_at fb.config.pixels_per_scan_line x y i))
          (copy_rows_lines h fb.memory src.memory (byte_at fb.config.pixels_per_scan_line x0 y0 0)
            (byte_at src.config.pixels_per_scan_line sx sy 0) (4 * w) fb.config src.config short
            short') in
      rw
        (
          frame_addr_at-point fb.config x0 y0 v (omega arith) in_y,
          frame_addr_at-point src.config sx sy v' (omega arith) in_sy,
          n,
          lines,
          copy_rows-byte h fb.memory src.memory fb.config.pixels_per_scan_line
              src.config.pixels_per_scan_line x0 y0 sx sy w x y i (omega (arith, line))
              (omega (arith, line)) small,
        )
        (elim (Bool-cases (between x0 w x && between y0 h y)) [
          | inl there ↦
              rw
                (
                  there,
                  shift_back x0 sx x shift.x ex (ground arith),
                  shift_back y0 sy y shift.y ey (ground arith),
                )
                (ground arith)
          | inr elsewhere ↦ rw elsewhere (ground arith)
        ])

  -- The copy of a rectangle whose points lie on both frame buffers.
  pub copied_rectangle :
      (rx ry w h : ℤ)
      → leb_ℤ (ℤ.pos 0) w ≡ true
      → ((p : Vector2D)
          → contains (record { pos = record { x = rx; y = ry }; size = record { x = w; y = h } }) p
            ≡ true
          → (contains (outline fb.config) p ≡ true)
            × (contains (outline src.config) (p -v shift) ≡ true))
      → copy_rows
          (rounds h)
          fb.memory
          src.memory
          (frame_addr_at (record { x = rx; y = ry }) fb.config)
          (frame_addr_at (record { x = rx; y = ry } -v shift) src.config)
          (4 * size_of_int w % 2 ^ 64)
          (size_of_int (bytes_per_scan_line fb.config))
          (size_of_int (bytes_per_scan_line src.config))
          (byte_at fb.config.pixels_per_scan_line x y i)
        ≡ (if contains
              (record { pos = record { x = rx; y = ry }; size = record { x = w; y = h } })
              (point x y)
            then shown
            else pixel_byte fb x y i)
  unfolding copy_rows
  copied_rectangle rx ry (ℤ.negsuc w) h wide inside = ground arith
  copied_rectangle rx ry (ℤ.pos w) (ℤ.negsuc h) wide inside =
      ground (arith, +ℤ_parts ry (ℤ.negsuc h))
  copied_rectangle rx ry (ℤ.pos w) (ℤ.pos zero) wide inside = ground (arith, +ℤ_parts ry (ℤ.pos 0))
  copied_rectangle rx ry (ℤ.pos zero) (ℤ.pos (suc h)) wide inside =
      copy_rows-nothing (suc h) fb.memory src.memory _ _ _ _ _
      ∙ ground (arith, +ℤ_parts rx (ℤ.pos 0))
  copied_rectangle rx ry (ℤ.pos (suc w)) (ℤ.pos (suc h)) wide inside =
      let (on, from) =
        inside (record { x = rx +ℤ ℤ.pos 0; y = ry }) (corner rx ry w h 0 (omega arith)) in
      let (on', from') =
        inside (record { x = rx +ℤ ℤ.pos w; y = ry }) (corner rx ry w h w (omega arith)) in
      let (x0, y0, ex, ey, in_x, in_y) = on_outline fb.config v _ on in
      let (sx, sy, esx, esy, in_sx, in_sy) = on_outline src.config v' _ from in
      let (x1, y1, ex1, ey1, in_x1, in_y1) = on_outline fb.config v _ on' in
      let (sx1, sy1, esx1, esy1, in_sx1, in_sy1) = on_outline src.config v' _ from' in
      let rx_zero = +ℤ_zero rx in
      let ex0 : rx ≡ ℤ.pos x0 = sym rx_zero ∙ ex in
      let esx0 : rx -ℤ shift.x ≡ ℤ.pos sx = ap (λ a. a -ℤ shift.x) (sym rx_zero) ∙ esx in
      let fit_x : x0 + suc w ≤ fb.config.horizontal_resolution =
        omega (arith, distance rx x0 x1 w ex0 ex1, in_x1) in
      let fit_sx : sx + suc w ≤ src.config.horizontal_resolution =
        omega (arith, distance_shifted rx shift.x sx sx1 w esx0 esx1, in_sx1) in
      let (low, from_low) =
        inside (record { x = rx; y = ry +ℤ ℤ.pos h }) (lower_corner rx ry w h h (omega arith)) in
      let (x2, y2, ex2, ey2, in_x2, in_y2) = on_outline fb.config v _ low in
      let (sx2, sy2, esx2, esy2, in_sx2, in_sy2) = on_outline src.config v' _ from_low in
      let tall = distance ry y0 y2 h ey ey2 in
      let tall' = distance_shifted ry shift.y sy sy2 h esy esy2 in
      rw (esx0, esy, ex0, ey, between-within x0 (suc w) x, between-within y0 (suc h) y)
        (copied_natural x0 y0 sx sy (suc w) (suc h) fit_x fit_sx (omega arith) in_y in_sy
          (subst (λ a. a -ℤ shift.x ≡ ℤ.pos sx) ex0 esx0)
          (subst (λ a. a -ℤ shift.y ≡ ℤ.pos sy) ey esy)
          (λ more. short_rows fb.config v (omega (arith, more, tall, in_y2)))
          (λ more. short_rows src.config v' (omega (arith, more, tall', in_sy2))))
