-- ===== src/Graphics/Buffer/Pixels.antt =====
-- `Copy` against the pixels of the two frame buffers.
use mikan_os.Prelude.{
  ℕ, ◌^◌, ◌<◌, ◌≡◌, refl, sym, ◌*◌, ◌%◌, ◌∙◌, Bool, true, false, ◌&&◌, ◌||◌, ◌⊎◌, if◌then◌else◌,
  arith, inl, inr,
}
use mikan_os.Prelude.Int.{ℤ, pos_part, ◌+ℤ◌, ◌-ℤ◌, +ℤ_parts, -ℤ_parts, leb_ℤ, ltb_ℤ, min_ℤ, max_ℤ}
use mikan_os.Error.{Code}
use mikan_os.Graphics.{Vector2D, Rectangle, ◌-v◌, intersect}
use mikan_os.Graphics.Rectangles.{contains}
use mikan_os.Graphics.Buffer.{
  PixelFormat, FrameBufferConfig, FrameBuffer, copy, copy_area, frame_buffer_size, int_of_u32,
  size_of_int, rounds, frame_addr_at, bytes_per_scan_line, copy_rows,
}
use mikan_os.Graphics.Buffer.Screen.{IsConfig, point, pixel_byte, outline, contains-copy_area}
use mikan_os.Graphics.Buffer.Copied.{copied_rectangle}

min-max-wide :
    (s1 n1 s2 n2 : ℤ)
    → leb_ℤ (ℤ.pos 0) n1 ≡ true
    → leb_ℤ (ℤ.pos 0) n2 ≡ true
    → ltb_ℤ (s1 +ℤ n1) s2 ≡ false
    → ltb_ℤ (s2 +ℤ n2) s1 ≡ false
    → leb_ℤ (ℤ.pos 0) (min_ℤ (s1 +ℤ n1) (s2 +ℤ n2) -ℤ max_ℤ s1 s2) ≡ true
min-max-wide s1 n1 s2 n2 h k a c =
    ground
      (arith, +ℤ_parts s1 n1, +ℤ_parts s2 n2, -ℤ_parts (min_ℤ (s1 +ℤ n1) (s2 +ℤ n2)) (max_ℤ s1 s2))

guarded-wide :
    (a b c d : Bool) (p q : Rectangle)
    → leb_ℤ (ℤ.pos 0) p.size.x ≡ true
    → (a ≡ false → c ≡ false → leb_ℤ (ℤ.pos 0) q.size.x ≡ true)
    → leb_ℤ (ℤ.pos 0) (if a || b || c || d then p else q).size.x ≡ true
guarded-wide true b c d p q h k = h
guarded-wide false true c d p q h k = h
guarded-wide false false true d p q h k = h
guarded-wide false false false true p q h k = h
guarded-wide false false false false p q h k = k refl refl

-- Intersections of rectangles that are not of a negative width are not either.
pub intersect-wide :
    (lhs rhs : Rectangle)
    → leb_ℤ (ℤ.pos 0) lhs.size.x ≡ true
    → leb_ℤ (ℤ.pos 0) rhs.size.x ≡ true
    → leb_ℤ (ℤ.pos 0) (intersect lhs rhs).size.x ≡ true
unfolding intersect
intersect-wide lhs rhs h k =
    guarded-wide (ltb_ℤ (lhs.pos.x +ℤ lhs.size.x) rhs.pos.x)
      (ltb_ℤ (rhs.pos.y +ℤ rhs.size.y) rhs.pos.y) (ltb_ℤ (rhs.pos.x +ℤ rhs.size.x) lhs.pos.x)
      (ltb_ℤ (rhs.pos.y +ℤ rhs.size.y) lhs.pos.y) _ _ refl
      (min-max-wide lhs.pos.x lhs.size.x rhs.pos.x rhs.size.x h k)

int_of_u32-wide : (n : ℕ) → n < 2 ^ 31 → leb_ℤ (ℤ.pos 0) (int_of_u32 n) ≡ true
int_of_u32-wide n h = ground arith

-- Both have the same format, which is one of the two that the kernel knows.
abbrev pub IsSupported : FrameBuffer → FrameBuffer → Type 0
IsSupported fb src =
    (fb.config.pixel_format ≡ src.config.pixel_format)
    × ((fb.config.pixel_format ≡ PixelFormat.rgb_resv_8bit_per_color)
        ⊎ (fb.config.pixel_format ≡ PixelFormat.bgr_resv_8bit_per_color))

-- The point lies on the screen.
pub on_screen :
    (config : FrameBufferConfig) (x y : ℕ)
    → IsConfig config
    → x < config.horizontal_resolution
    → y < config.vertical_resolution
    → contains (outline config) (point x y) ≡ true
on_screen config x y v in_x in_y =
    let narrow = v.narrow in
    let low = v.low in
    ground (
      arith,
      +ℤ_parts (ℤ.pos 0) (int_of_u32 config.horizontal_resolution),
      +ℤ_parts (ℤ.pos 0) (int_of_u32 config.vertical_resolution),
    )

-- The frame buffer that `Copy` leaves.
abbrev pub copied : FrameBuffer → Vector2D → FrameBuffer → Rectangle → FrameBuffer
copied fb dst_pos src area =
    let r = copy_area fb.config dst_pos src.config area in
    record fb {
      memory =
          copy_rows (rounds r.size.y) fb.memory src.memory (frame_addr_at r.pos fb.config)
            (frame_addr_at (r.pos -v (dst_pos -v area.pos)) src.config)
            (4 * size_of_int r.size.x % 2 ^ 64) (size_of_int (bytes_per_scan_line fb.config))
            (size_of_int (bytes_per_scan_line src.config));
    }

pub copy-copied :
    (fb : FrameBuffer) (dst_pos : Vector2D) (src : FrameBuffer) (area : Rectangle)
    → IsSupported fb src
    → copy fb dst_pos src area ≡ (Code.success, copied fb dst_pos src area)
unfolding copy
copy-copied fb dst_pos src area (same, inl e) =
    let e' : src.config.pixel_format ≡ PixelFormat.rgb_resv_8bit_per_color = sym same ∙ e in
    ground arith
copy-copied fb dst_pos src area (same, inr e) =
    let e' : src.config.pixel_format ≡ PixelFormat.bgr_resv_8bit_per_color = sym same ∙ e in
    ground arith

module _ (fb : FrameBuffer) (dst_pos : Vector2D) (src : FrameBuffer) (area : Rectangle)
    (v : IsConfig fb.config) (v' : IsConfig src.config) (wide : leb_ℤ (ℤ.pos 0) area.size.x ≡ true)
    (x y i : ℕ) (inside_x : x < fb.config.horizontal_resolution)
    (inside_y : y < fb.config.vertical_resolution) (small : i < 4) where
  abbrev shift : Vector2D
  shift = dst_pos -v area.pos

  copy_area-wide : leb_ℤ (ℤ.pos 0) (copy_area fb.config dst_pos src.config area).size.x ≡ true
  unfolding copy_area
  copy_area-wide =
      intersect-wide _ (record { pos = dst_pos; size = area.size })
        (intersect-wide (outline fb.config)
          (record { pos = shift; size = frame_buffer_size src.config })
          (int_of_u32-wide fb.config.horizontal_resolution v.narrow)
          (int_of_u32-wide src.config.horizontal_resolution v'.narrow))
        wide

  copy_area-inside :
      (p : Vector2D)
      → contains (copy_area fb.config dst_pos src.config area) p ≡ true
      → (contains (outline fb.config) p ≡ true)
        × (contains (outline src.config) (p -v shift) ≡ true)
  copy_area-inside p h =
      let e = contains-copy_area fb.config src.config dst_pos area p in ground arith

  copied_area : pixel_byte (copied fb dst_pos src area) x y i ≡ (
      if contains (copy_area fb.config dst_pos src.config area) (point x y)
      then pixel_byte src (pos_part (ℤ.pos x -ℤ shift.x)) (pos_part (ℤ.pos y -ℤ shift.y)) i
      else pixel_byte fb x y i)
  copied_area =
      copied_rectangle fb src shift v v' x y i inside_x inside_y small
        (copy_area fb.config dst_pos src.config area).pos.x
        (copy_area fb.config dst_pos src.config area).pos.y
        (copy_area fb.config dst_pos src.config area).size.x
        (copy_area fb.config dst_pos src.config area).size.y copy_area-wide copy_area-inside

  -- For two screens that their memories have room for, of the same format, and an area that is not of
  -- a negative width, `Copy` succeeds, and every byte of every pixel of the destination is that of the
  -- source's pixel, where the shifted area and the source have that point, and otherwise what it was.
  pub copy-pixels :
      IsSupported fb src
      → (copy fb dst_pos src area ≡ (Code.success, copied fb dst_pos src area))
        × (pixel_byte (copied fb dst_pos src area) x y i ≡ (
            if contains (outline src.config) (point x y -v shift)
              && contains (record { pos = dst_pos; size = area.size }) (point x y)
            then pixel_byte src (pos_part (ℤ.pos x -ℤ shift.x)) (pos_part (ℤ.pos y -ℤ shift.y)) i
            else pixel_byte fb x y i))
  copy-pixels supported = (
    copy-copied fb dst_pos src area supported,
    copied_area
        ∙ rw
            (
              contains-copy_area fb.config src.config dst_pos area (point x y),
              on_screen fb.config x y v inside_x inside_y,
            )
            refl,
  )
