-- ===== src/Memory/Boot/Tests.antt =====
-- The start of the frame allocator on a small memory map, and the instances of its theorems.
use mikan_os.Prelude.{◌≡◌, refl, not, List, [], ◌∷◌, arith}
use mikan_os.Memory.{set_memory_range, get_bit, set_bit, set_bits, mark_allocated}
use mikan_os.Memory.Boot.{
  MemoryDescriptor, managed, read_map, mark_gap, mark_descriptor, constructed, replicate_zero,
  initialize_memory_manager,
}
use mikan_os.Memory.Boot.Marks.{IsAscending, usable}
use mikan_os.Memory.Boot.Managed.{
  get_bit-managed, HeapOutcome, initialize_memory_manager-HeapOutcome,
}

-- Available memory, two pages of loader code, a gap of one page, and available memory.
abbrev small_map : List MemoryDescriptor
small_map =
    record { type = 7; physical_start = 0; number_of_pages = 1 }
    ∷ record { type = 1; physical_start = 0x1000; number_of_pages = 2 }
    ∷ record { type = 4; physical_start = 0x4000; number_of_pages = 60 }
    ∷ []

small_map-IsAscending : IsAscending 64 0 small_map
unfolding IsAscending
small_map-IsAscending = omega arith

managed_lines :
    managed 1 small_map ≡ record { alloc_map = 14 ∷ []; range_begin = 1; range_end = 64 }
unfolding managed read_map mark_gap mark_descriptor constructed replicate_zero mark_allocated
    set_bits set_bit set_memory_range
managed_lines = refl

get_bit-managed_example : get_bit (managed 1 small_map) 3 ≡ not (usable small_map 3)
get_bit-managed_example =
    get_bit-managed 1 small_map (omega arith) small_map-IsAscending 3
      (rw managed_lines (omega arith))

-- 256 MiB of available memory, which have room for the heap.
abbrev large_map : List MemoryDescriptor
large_map = record { type = 7; physical_start = 0; number_of_pages = 65536 } ∷ []

large_map-IsAscending : IsAscending 65536 0 large_map
unfolding IsAscending
large_map-IsAscending = omega arith

large_range : (managed 1024 large_map).range_end ≡ 65536
unfolding managed read_map mark_gap mark_descriptor set_memory_range
large_range = refl

initialize_memory_manager-HeapOutcome_example :
    HeapOutcome 1024 large_map
      (omega arith)
      large_map-IsAscending
      (initialize_memory_manager 1024 large_map)
initialize_memory_manager-HeapOutcome_example =
    initialize_memory_manager-HeapOutcome 1024 large_map (omega arith) large_map-IsAscending
      (rw large_range (omega arith))
