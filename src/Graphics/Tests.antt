-- ===== src/Graphics/Tests.antt =====
-- Two small frame buffers, and the instances of the theorems.
use mikan_os.Prelude.{ℕ, ◌+◌, ◌≡◌, refl, arith, inl}
use mikan_os.Prelude.Int.{ℤ, ◌+ℤ◌, ◌-ℤ◌}
use mikan_os.Error.{Code}
use mikan_os.Graphics.{Rectangle, intersect}
use mikan_os.Graphics.Buffer.{PixelFormat, FrameBufferConfig, FrameBuffer, copy}
use mikan_os.Graphics.Buffer.Screen.{IsConfig, point, pixel_byte}
use mikan_os.Graphics.Buffer.Pixels.{copied, copy-pixels}

abbrev config_of : ℕ → ℕ → FrameBufferConfig
config_of width height = record {
  pixels_per_scan_line = width + 1;
  horizontal_resolution = width;
  vertical_resolution = height;
  pixel_format = PixelFormat.rgb_resv_8bit_per_color;
}

abbrev dst : FrameBuffer
dst = record { config = config_of 4 3; memory = λ a. a }

abbrev src : FrameBuffer
src = record { config = config_of 3 2; memory = λ a. 100 + a }

abbrev rectangle : ℕ → ℕ → ℕ → ℕ → Rectangle
rectangle x y w h = record {
  pos = record { x = ℤ.pos x; y = ℤ.pos y };
  size = record { x = ℤ.pos w; y = ℤ.pos h };
}

dst-IsConfig : IsConfig dst.config
dst-IsConfig = record {
  line = omega arith;
  narrow = omega arith;
  low = omega arith;
  fits = omega arith;
  scan = omega arith;
}

src-IsConfig : IsConfig src.config
src-IsConfig = record {
  line = omega arith;
  narrow = omega arith;
  low = omega arith;
  fits = omega arith;
  scan = omega arith;
}

-- The source's pixel (1, 1) goes to (3, 2).
copy-pixels_example :
    (copy dst (point 2 1) src (rectangle 0 0 3 2)
      ≡ (Code.success, copied dst (point 2 1) src (rectangle 0 0 3 2)))
    × (pixel_byte (copied dst (point 2 1) src (rectangle 0 0 3 2)) 3 2 1 ≡ 121)
unfolding ◌+ℤ◌ ◌-ℤ◌
copy-pixels_example =
    copy-pixels dst (point 2 1) src (rectangle 0 0 3 2) dst-IsConfig src-IsConfig refl 3 2 1
      (omega arith) (omega arith) (omega arith) (refl, inl refl)

-- The kernel's test does not notice rectangles one below the other: the height is negative.
below_each_other : (intersect (rectangle 0 0 3 3) (rectangle 0 9 3 3)).size.y ≡ ℤ.negsuc 5
unfolding intersect ◌+ℤ◌ ◌-ℤ◌
below_each_other = refl
