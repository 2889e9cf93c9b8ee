-- ===== src/Graphics/Buffer.antt =====
-- kernel/frame_buffer.hpp, kernel/frame_buffer.cpp, and the writers of kernel/graphics.hpp and
-- kernel/graphics.cpp. The memory behind `frame_buffer` is a function from byte offsets to bytes.
pub mod Rows
pub mod Screen
pub mod Copied
pub mod Pixels
use mikan_os.Prelude.{
  ℕ, zero, suc, ◌+◌, ◌-◌, ◌*◌, ◌^◌, ◌%◌, Bool, true, false, not, ◌&&◌, Option, none, some, ltb, leb,
  ◌==◌, if◌then◌else◌,
}
use mikan_os.Prelude.Int.{ℤ, ◌-ℤ◌, ltb_ℤ}
use mikan_os.Error.{Code}
use mikan_os.Graphics.{PixelColor, Vector2D, Rectangle, ◌+v◌, ◌-v◌, origin, intersect}

-- `other` stands for the values that the enumeration does not name.
pub data PixelFormat : Type 0 where
  rgb_resv_8bit_per_color : PixelFormat
  bgr_resv_8bit_per_color : PixelFormat
  other : PixelFormat

abbrev pub same_format : PixelFormat → PixelFormat → Bool
same_format PixelFormat.rgb_resv_8bit_per_color PixelFormat.rgb_resv_8bit_per_color = true
same_format PixelFormat.bgr_resv_8bit_per_color PixelFormat.bgr_resv_8bit_per_color = true
same_format PixelFormat.other PixelFormat.other = true
same_format lhs rhs = false

-- `FrameBufferConfig`, without the pointer.
pub record FrameBufferConfig : Type 0 where
  pub pixels_per_scan_line : ℕ
  pub horizontal_resolution : ℕ
  pub vertical_resolution : ℕ
  pub pixel_format : PixelFormat

pub record FrameBuffer : Type 0 where
  pub config : FrameBufferConfig
  pub memory : ℕ → ℕ

-- `BytesPerPixel`; `none` is -1.
abbrev pub bytes_per_pixel : PixelFormat → Option ℕ
bytes_per_pixel PixelFormat.rgb_resv_8bit_per_color = some 4
bytes_per_pixel PixelFormat.bgr_resv_8bit_per_color = some 4
bytes_per_pixel PixelFormat.other = none

-- Conversions between `int`, `uint32_t` and `size_t`.
abbrev pub u32_of_int : ℤ → ℕ
u32_of_int (ℤ.pos n) = n % 2 ^ 32
u32_of_int (ℤ.negsuc n) = 2 ^ 32 - 1 - n % 2 ^ 32

abbrev pub int_of_u32 : ℕ → ℤ
int_of_u32 n = if ltb n (2 ^ 31) then ℤ.pos n else ℤ.negsuc (2 ^ 32 - 1 - n)

abbrev pub size_of_int : ℤ → ℕ
size_of_int (ℤ.pos n) = n
size_of_int (ℤ.negsuc n) = 2 ^ 64 - 1 - n

-- The rounds of `for (int y = 0; y < n; ++y)`.
abbrev pub rounds : ℤ → ℕ
rounds (ℤ.pos n) = n
rounds (ℤ.negsuc n) = 0

-- `FrameAddrAt` and `PixelAt`, from `frame_buffer` on, in unsigned arithmetic, with 4 bytes to a pixel.
abbrev pub frame_addr_at : Vector2D → FrameBufferConfig → ℕ
frame_addr_at pos config =
    4 * (config.pixels_per_scan_line * u32_of_int pos.y + u32_of_int pos.x) % 2 ^ 32

-- `BytesPerScanLine`: an `int`, negative from 2 ^ 31 on. A pointer moves by it modulo 2 ^ 64.
abbrev pub bytes_per_scan_line : FrameBufferConfig → ℤ
bytes_per_scan_line config = int_of_u32 (4 * config.pixels_per_scan_line % 2 ^ 32)

-- `FrameBufferSize`.
abbrev pub frame_buffer_size : FrameBufferConfig → Vector2D
frame_buffer_size config = record {
  x = int_of_u32 config.horizontal_resolution;
  y = int_of_u32 config.vertical_resolution;
}

-- `FrameBuffer::Initialize`, with the memory that the configuration points to, if any; a buffer of
-- its own is filled with 0.
pub initialize : FrameBufferConfig → Option (ℕ → ℕ) → Code × FrameBuffer
initialize config frame_buffer =
    let own = record config { pixels_per_scan_line = config.horizontal_resolution } in
    let buffer : FrameBuffer = elim frame_buffer [
      | some memory ↦ record { config = config; memory = memory }
      | none ↦ record { config = own; memory = λ a. 0 }
    ] in
    elim (bytes_per_pixel config.pixel_format) [
      | none ↦ (Code.unknown_pixel_format, record { config = config; memory = λ a. 0 })
      | some n ↦ (Code.success, buffer)
    ]

-- `memcpy` of `n` bytes from `s` in `src` to `d` in `dst`.
abbrev pub memcpy : (ℕ → ℕ) → (ℕ → ℕ) → ℕ → ℕ → ℕ → ℕ → ℕ
memcpy dst src d s n a = if leb d a && ltb a (d + n) then src (a - d + s) else dst a

-- The loop of `Copy`, with the rounds that are left.
unfoldable pub copy_rows : ℕ → (ℕ → ℕ) → (ℕ → ℕ) → ℕ → ℕ → ℕ → ℕ → ℕ → ℕ → ℕ
copy_rows zero dst src dst_buf src_buf n dst_line src_line = dst
copy_rows (suc h) dst src dst_buf src_buf n dst_line src_line =
    copy_rows h (memcpy dst src dst_buf src_buf n) src (dst_buf + dst_line) (src_buf + src_line) n
      dst_line src_line

-- The part of the screen that `Copy` writes.
unfoldable pub copy_area : FrameBufferConfig → Vector2D → FrameBufferConfig → Rectangle → Rectangle
copy_area config dst_pos src_config src_area =
    let src_area_shifted : Rectangle = record { pos = dst_pos; size = src_area.size } in
    let src_outline : Rectangle = record {
      pos = dst_pos -v src_area.pos;
      size = frame_buffer_size src_config;
    } in
    let dst_outline : Rectangle = record { pos = origin; size = frame_buffer_size config } in
    intersect (intersect dst_outline src_outline) src_area_shifted

-- `FrameBuffer::Copy`.
unfoldable pub copy : FrameBuffer → Vector2D → FrameBuffer → Rectangle → Code × FrameBuffer
copy fb dst_pos src src_area =
    let area = copy_area fb.config dst_pos src.config src_area in
    let src_start_pos = area.pos -v (dst_pos -v src_area.pos) in
    let copied = record fb {
      memory =
          copy_rows (rounds area.size.y) fb.memory src.memory (frame_addr_at area.pos fb.config)
            (frame_addr_at src_start_pos src.config) (4 * size_of_int area.size.x % 2 ^ 64)
            (size_of_int (bytes_per_scan_line fb.config))
            (size_of_int (bytes_per_scan_line src.config));
    } in
    if not (same_format fb.config.pixel_format src.config.pixel_format)
    then (Code.unknown_pixel_format, fb)
    else elim (bytes_per_pixel fb.config.pixel_format) [
      | none ↦ (Code.unknown_pixel_format, fb)
      | some n ↦ (Code.success, copied)
    ]

-- The loops of `Move`, downwards and upwards through the rows.
unfoldable pub move_rows_up : ℕ → (ℕ → ℕ) → ℕ → ℕ → ℕ → ℕ → ℕ → ℕ
move_rows_up zero memory dst_buf src_buf n line = memory
move_rows_up (suc h) memory dst_buf src_buf n line =
    move_rows_up h (memcpy memory memory dst_buf src_buf n) (dst_buf + line) (src_buf + line) n line

unfoldable pub move_rows_down : ℕ → (ℕ → ℕ) → ℕ → ℕ → ℕ → ℕ → ℕ → ℕ
move_rows_down zero memory dst_buf src_buf n line = memory
move_rows_down (suc h) memory dst_buf src_buf n line =
    move_rows_down h (memcpy memory memory dst_buf src_buf n) (dst_buf - line) (src_buf - line) n
      line

-- `FrameBuffer::Move`.
pub move : FrameBuffer → Vector2D → Rectangle → FrameBuffer
move fb dst_pos src =
    let last : Vector2D = record { x = ℤ.pos 0; y = src.size.y -ℤ ℤ.pos 1 } in
    let n = 4 * size_of_int src.size.x % 2 ^ 64 in
    let line = size_of_int (bytes_per_scan_line fb.config) in
    let up =
      move_rows_up (rounds src.size.y) fb.memory (frame_addr_at dst_pos fb.config)
        (frame_addr_at src.pos fb.config) n line in
    let down =
      move_rows_down (rounds src.size.y) fb.memory (frame_addr_at (dst_pos +v last) fb.config)
        (frame_addr_at (src.pos +v last) fb.config) n line in
    record fb { memory = if ltb_ℤ dst_pos.y src.pos.y then up else down }

-- A byte that a writer sets.
abbrev pub set_byte : (ℕ → ℕ) → ℕ → ℕ → ℕ → ℕ
set_byte memory p value a = if a == p then value else memory a

-- `Write` of the two writers; the source has none for another format.
pub write : FrameBuffer → Vector2D → PixelColor → FrameBuffer
write fb pos c =
    let p = frame_addr_at pos fb.config in
    elim fb.config.pixel_format [
      | PixelFormat.rgb_resv_8bit_per_color ↦ record fb {
        memory = set_byte (set_byte (set_byte fb.memory p c.r) (p + 1) c.g) (p + 2) c.b;
      }
      | PixelFormat.bgr_resv_8bit_per_color ↦ record fb {
        memory = set_byte (set_byte (set_byte fb.memory p c.b) (p + 1) c.g) (p + 2) c.r;
      }
      | PixelFormat.other ↦ fb
    ]
