-- ===== src/Memory/Boot.antt =====
-- kernel/memory_map.hpp and `InitializeMemoryManager` of kernel/memory_manager.cpp: how the frame
-- allocator is set up from the memory map that the firmware hands over.
pub mod Marks
pub mod Managed
mod Tests
use mikan_os.Prelude.{
  ℕ, ◌+◌, ◌-◌, ◌*◌, ◌/◌, ◌%◌, List, [], ◌∷◌, Bool, true, false, ◌||◌, Option, none, some, ltb, ◌==◌,
  if◌then◌else◌,
}
use mikan_os.Error.{Code, WithError, failed}
use mikan_os.Memory.{
  BitmapMemoryManager, size_mod, bytes_per_frame, frame_count, bits_per_map_line, mark_allocated,
  set_memory_range, allocate,
}

-- `MemoryDescriptor`, the fields that the kernel reads.
pub record MemoryDescriptor : Type 0 where
  pub type : ℕ
  pub physical_start : ℕ
  pub number_of_pages : ℕ

abbrev pub uefi_page_size : ℕ
uefi_page_size = 4096

-- `MemoryType`: kEfiBootServicesCode, kEfiBootServicesData and kEfiConventionalMemory.
abbrev pub boot_services_code : ℕ
boot_services_code = 3

abbrev pub boot_services_data : ℕ
boot_services_data = 4

abbrev pub conventional_memory : ℕ
conventional_memory = 7

abbrev pub is_available : ℕ → Bool
is_available memory_type =
    memory_type == boot_services_code
    || (memory_type == boot_services_data || memory_type == conventional_memory)

-- `physical_end` of the loop.
abbrev pub physical_end : MemoryDescriptor → ℕ
physical_end desc = (desc.physical_start + desc.number_of_pages * uefi_page_size) % size_mod

-- The first test of the loop: the gap before a descriptor is in use.
pub mark_gap : BitmapMemoryManager → ℕ → MemoryDescriptor → BitmapMemoryManager
mark_gap m available_end desc =
    if ltb available_end desc.physical_start
    then mark_allocated m (available_end / bytes_per_frame)
        ((desc.physical_start - available_end) / bytes_per_frame)
    else m

-- The second test of the loop. The state is the bitmap and `available_end`.
pub mark_descriptor : BitmapMemoryManager → ℕ → MemoryDescriptor → BitmapMemoryManager × ℕ
mark_descriptor m available_end desc = if is_available desc.type then (m, physical_end desc) else (
  mark_allocated m (desc.physical_start / bytes_per_frame)
      (desc.number_of_pages * uefi_page_size % size_mod / bytes_per_frame),
  available_end,
)

-- The loop over the descriptors of the map.
pub read_map : BitmapMemoryManager → ℕ → List MemoryDescriptor → BitmapMemoryManager × ℕ
read_map m available_end [] = (m, available_end)
read_map m available_end (desc ∷ rest) =
    let (m', available_end') = mark_descriptor (mark_gap m available_end desc) available_end desc in
    read_map m' available_end' rest

-- `BitmapMemoryManager::BitmapMemoryManager` over an array of `lines` words.
pub replicate_zero : ℕ → List ℕ
replicate_zero Prim.Native.Nat.zero = []
replicate_zero (Prim.Native.Nat.suc n) = 0 ∷ replicate_zero n

pub constructed : ℕ → BitmapMemoryManager
constructed lines = record {
  alloc_map = replicate_zero lines;
  range_begin = 0;
  range_end = frame_count;
}

abbrev pub heap_frames : ℕ
heap_frames = 64 * 512

-- `program_break` and `program_break_end`.
pub record Heap : Type 0 where
  pub program_break : ℕ
  pub program_break_end : ℕ

-- `InitializeHeap`; `none` means that `Allocate` ran out of fuel.
pub initialize_heap : BitmapMemoryManager → Option (WithError (Option Heap) × BitmapMemoryManager)
initialize_heap m = elim (allocate m heap_frames) [
  | none ↦ none
  | some (heap_start, m') ↦ some (
    if failed heap_start.error then record { value = none; error = heap_start.error } else record {
      value = some (record {
        program_break = heap_start.value * bytes_per_frame;
        program_break_end = heap_start.value * bytes_per_frame + heap_frames * bytes_per_frame;
      });
      error = Code.success;
    },
    m',
  )
]

-- `InitializeMemoryManager` up to the heap: the range starts at frame 1.
pub managed : ℕ → List MemoryDescriptor → BitmapMemoryManager
managed lines map =
    let (m, available_end) = read_map (constructed lines) 0 map in
    set_memory_range m 1 (available_end / bytes_per_frame)

-- `InitializeMemoryManager`; with an error the kernel exits.
pub initialize_memory_manager :
    ℕ → List MemoryDescriptor → Option (WithError (Option Heap) × BitmapMemoryManager)
initialize_memory_manager lines map = initialize_heap (managed lines map)
