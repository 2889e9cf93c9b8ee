-- ===== src/Memory.antt =====
-- kernel/memory_manager.hpp and kernel/memory_manager.cpp: the allocator of physical frames, a bitmap
-- with one bit for each frame of 4 KiB, packed in lines of 64 bits.
pub mod Bitmap
pub mod Lines
pub mod Scan
pub mod Alloc
pub mod FirstFit
pub mod Boot
mod Tests
use mikan_os.Prelude.{
  ℕ, zero, suc, ◌+◌, ◌-◌, ◌*◌, ◌/◌, ◌%◌, ◌^◌, bit_and, bit_or, bit_xor, List, Bool, true, false,
  not, Option, none, some, ltb, leb, ◌==◌, if◌then◌else◌, get_or, set,
}
use mikan_os.Error.{Code, WithError}

abbrev pub size_mod : ℕ
size_mod = 2 ^ 64

-- `size_t` addition.
abbrev pub add_size : ℕ → ℕ → ℕ
add_size a b = (a + b) % size_mod

abbrev pub bytes_per_frame : ℕ
bytes_per_frame = 4 * 1024

abbrev pub max_physical_memory_bytes : ℕ
max_physical_memory_bytes = 128 * 1024 * 1024 * 1024

abbrev pub frame_count : ℕ
frame_count = max_physical_memory_bytes / bytes_per_frame

abbrev pub bits_per_map_line : ℕ
bits_per_map_line = 64

-- `kNullFrame`.
abbrev pub null_frame : ℕ
null_frame = 2 ^ 64 - 1

-- `BitmapMemoryManager`. A frame is its number, as in `FrameID`; `alloc_map` is the array of lines.
pub record BitmapMemoryManager : Type 0 where
  pub alloc_map : List ℕ
  pub range_begin : ℕ
  pub range_end : ℕ

-- `~x` at 64 bits.
abbrev pub complement : ℕ → ℕ
complement x = bit_xor x (2 ^ 64 - 1)

-- `static_cast<MapLineType>(1) << bit_index`.
abbrev pub bit_mask : ℕ → ℕ
bit_mask bit_index = 2 ^ bit_index

-- `GetBit`. The C++ array has no bounds check; here a read past its end gives 0.
pub get_bit : BitmapMemoryManager → ℕ → Bool
get_bit m frame =
    let line_index = frame / bits_per_map_line in
    let bit_index = frame % bits_per_map_line in
    not (bit_and (get_or m.alloc_map line_index 0) (bit_mask bit_index) == 0)

-- `SetBit`. A write past the end of the array changes nothing here.
unfoldable pub set_bit : BitmapMemoryManager → ℕ → Bool → BitmapMemoryManager
set_bit m frame allocated =
    let line_index = frame / bits_per_map_line in
    let bit_index = frame % bits_per_map_line in
    let line = get_or m.alloc_map line_index 0 in
    if allocated
    then record m { alloc_map = set m.alloc_map line_index (bit_or line (bit_mask bit_index)) }
    else record m {
      alloc_map = set m.alloc_map line_index (bit_and line (complement (bit_mask bit_index)));
    }

-- The loop of `Free` and of `MarkAllocated`: `n` frames from `start_frame + i` on.
unfoldable pub set_bits : BitmapMemoryManager → ℕ → ℕ → ℕ → Bool → BitmapMemoryManager
set_bits m start_frame i zero allocated = m
set_bits m start_frame i (suc n) allocated =
    set_bits (set_bit m (add_size start_frame i) allocated) start_frame (add_size i 1) n allocated

pub free : BitmapMemoryManager → ℕ → ℕ → Code × BitmapMemoryManager
free m start_frame num_frames = (Code.success, set_bits m start_frame 0 num_frames false)

unfoldable pub mark_allocated : BitmapMemoryManager → ℕ → ℕ → BitmapMemoryManager
mark_allocated m start_frame num_frames = set_bits m start_frame 0 num_frames true

unfoldable pub set_memory_range : BitmapMemoryManager → ℕ → ℕ → BitmapMemoryManager
set_memory_range m range_begin range_end = record m {
  range_begin = range_begin;
  range_end = range_end;
}

-- How the inner loop of `Allocate` ends.
pub data ScanEnd : Type 0 where
  -- `i == num_frames`: all frames are free
  found : ScanEnd
  -- the frame `start_frame_id + i` is in use
  used : ℕ → ScanEnd
  -- the frame `start_frame_id + i` lies past the range
  past_end : ScanEnd

-- The inner loop of `Allocate`, with `n` rounds to go.
pub scan : BitmapMemoryManager → ℕ → ℕ → ℕ → ScanEnd
scan m start_frame_id zero i = ScanEnd.found
scan m start_frame_id (suc n) i =
    let rest = scan m start_frame_id n (add_size i 1) in
    if leb m.range_end (add_size start_frame_id i)
    then ScanEnd.past_end
    else if get_bit m (add_size start_frame_id i)
    then ScanEnd.used i
    else rest

-- The outer loop of `Allocate`; `none` means that the fuel ran out.
pub allocate_from : ℕ → BitmapMemoryManager → ℕ → ℕ → Option (WithError ℕ × BitmapMemoryManager)
allocate_from zero m start_frame_id num_frames = none
allocate_from (suc fuel) m start_frame_id num_frames = elim (scan m start_frame_id num_frames 0) [
  | ScanEnd.past_end ↦ some (record { value = null_frame; error = Code.no_enough_memory }, m)
  | ScanEnd.found ↦ some (
    record { value = start_frame_id; error = Code.success },
    mark_allocated m start_frame_id num_frames,
  )
  | ScanEnd.used i ↦ allocate_from fuel m (add_size start_frame_id (add_size i 1)) num_frames
]

-- `Allocate`. Each round starts further on, so one round more than the range has frames is enough.
pub allocate : BitmapMemoryManager → ℕ → Option (WithError ℕ × BitmapMemoryManager)
allocate m num_frames = allocate_from (suc (m.range_end - m.range_begin)) m m.range_begin num_frames
