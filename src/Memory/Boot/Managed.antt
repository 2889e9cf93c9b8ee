-- ===== src/Memory/Boot/Managed.antt =====
-- The frame allocator as the kernel starts with it, and the heap that is taken from it.
use mikan_os.Prelude.{
  ℕ, zero, suc, ◌+◌, ◌-◌, ◌*◌, ◌/◌, ◌%◌, ◌≤◌, ◌<◌, ◌≡◌, refl, ◌∙◌, ap, inl, inr, ◌⊎◌, true, false,
  not, some, none, Option, List, [], ◌∷◌, length, arith, Bool-cases, get_or, if◌then◌else◌,
}
use mikan_os.Memory.{
  BitmapMemoryManager, get_bit, mark_allocated, frame_count, size_mod, set_memory_range,
}
use mikan_os.Memory.Bitmap.{IsValid, in_run}
use mikan_os.Memory.Alloc.{granted-IsValid, get_bit-granted}
use mikan_os.Memory.Lines.{frame_digit, get_bit-eq-frame_digit}
use mikan_os.Prelude.Bits.{digit_of_zero}
use mikan_os.Memory.Boot.{
  MemoryDescriptor, is_available, mark_gap, mark_descriptor, read_map, replicate_zero, constructed,
  managed,
}
use mikan_os.Error.{Code, WithError}
use mikan_os.Memory.{allocate}
use mikan_os.Memory.Scan.{FreeRun}
use mikan_os.Memory.FirstFit.{FirstFit, allocate-FirstFit}
use mikan_os.Memory.Boot.{Heap, heap_frames, initialize_heap, initialize_memory_manager}
use mikan_os.Memory.Boot.Marks.{
  end_of, usable, IsAscending, length-mark_allocated, length-mark_gap, read_map_available,
  read_map_kept, read_map_marks,
}

get_or-replicate_zero : (n i : ℕ) → get_or (replicate_zero n) i 0 ≡ 0
unfolding replicate_zero
get_or-replicate_zero zero i = refl
get_or-replicate_zero (suc n) zero = refl
get_or-replicate_zero (suc n) (suc i) = get_or-replicate_zero n i

length-replicate_zero : (n : ℕ) → length (replicate_zero n) ≡ n
unfolding replicate_zero
length-replicate_zero zero = refl
length-replicate_zero (suc n) = ap suc (length-replicate_zero n)

get_bit-constructed : (lines f : ℕ) → get_bit (constructed lines) f ≡ false
unfolding constructed frame_digit
get_bit-constructed lines f = rw (
  get_bit-eq-frame_digit (constructed lines) f,
  get_or-replicate_zero lines (f / 64),
  digit_of_zero (f % 64),
)

get_bit-set_memory_range :
    (m : BitmapMemoryManager) (b e f : ℕ) → get_bit (set_memory_range m b e) f ≡ get_bit m f
unfolding get_bit set_memory_range
get_bit-set_memory_range m b e f = refl

length-mark_descriptor :
    (m : BitmapMemoryManager) (a : ℕ) (d : MemoryDescriptor)
    → length (mark_descriptor m a d).0.alloc_map ≡ length m.alloc_map
unfolding mark_descriptor
length-mark_descriptor m a d = ground (
  arith,
  length-mark_allocated m (d.physical_start / 4096) (d.number_of_pages * 4096 % size_mod / 4096),
)

length-read_map :
    (frames : ℕ) (few : frames ≤ frame_count) (map : List MemoryDescriptor)
    (m : BitmapMemoryManager) (a : ℕ)
    → length (read_map m a map).0.alloc_map ≡ length m.alloc_map
unfolding read_map
length-read_map frames few [] m a = refl
length-read_map frames few (d ∷ rest) m a =
    length-read_map frames few rest _ _
    ∙ (length-mark_descriptor (mark_gap m a d) a d ∙ length-mark_gap frames few m a d)

-- `available_end` stays within the bitmap.
read_map_end :
    (frames : ℕ) (few : frames ≤ frame_count) (map : List MemoryDescriptor)
    (m : BitmapMemoryManager) (a e : ℕ)
    → a ≤ frames * 4096
    → IsAscending frames e map
    → (read_map m a map).1 ≤ frames * 4096
unfolding IsAscending
read_map_end frames few [] m a e le h = unfold read_map in le
read_map_end frames few (d ∷ rest) m a e le h = elim (Bool-cases (is_available d.type)) [
  | inl free ↦
      rw (read_map_available frames few m a d rest free h.2)
        (read_map_end frames few rest _ (end_of d) (end_of d) h.2 h.3)
  | inr kept ↦
      rw (read_map_kept frames few m a d rest kept)
        (read_map_end frames few rest _ a (end_of d) le h.3)
]

module _ (lines : ℕ) (map : List MemoryDescriptor) (few : 64 * lines ≤ frame_count)
    (ascending : IsAscending (64 * lines) 0 map) where
  length-constructed : 64 * length (constructed lines).alloc_map ≡ 64 * lines
  unfolding constructed
  length-constructed = rw (length-replicate_zero lines)

  -- For a memory map in ascending order, aligned, with no overlaps and inside the bitmap, the kernel
  -- starts with exactly those frames below the end of its range free that an available descriptor
  -- holds.
  pub get_bit-managed :
      (f : ℕ)
      → f < (managed lines map).range_end
      → get_bit (managed lines map) f ≡ not (usable map f)
  unfolding managed
  get_bit-managed f lt =
      get_bit-set_memory_range (read_map (constructed lines) 0 map).0 1
        ((read_map (constructed lines) 0 map).1 / 4096) f
      ∙ ground (
        arith,
        read_map_marks (64 * lines) few map (constructed lines) 0 0 length-constructed (omega arith)
            (omega arith) ascending (λ g p r. absurd (omega arith))
            (λ g p. get_bit-constructed lines g) f (unfold set_memory_range in omega arith),
      )

  -- Such a map leaves the allocator valid, if it has an available frame after frame 0.
  pub managed-IsValid : 1 ≤ (managed lines map).range_end → IsValid (managed lines map)
  unfolding managed set_memory_range
  managed-IsValid h = omega (
    arith,
    length-constructed,
    length-read_map (64 * lines) few map (constructed lines) 0,
    read_map_end (64 * lines) few map (constructed lines) 0 0 (omega arith) ascending,
  )

  -- A run of free frames that ends in the range is held by available descriptors.
  FreeRun-usable :
      (frame n : ℕ)
      → FreeRun (managed lines map) frame n
      → (f : ℕ) → frame ≤ f
      → f < frame + n
      → usable map f ≡ true
  FreeRun-usable frame n run f a b =
      let e : frame + (f - frame) ≡ f = omega arith in
      let u : get_bit (managed lines map) f ≡ false =
        rw e at (run.unused (f - frame) (omega arith)) in
      ground (arith, u, get_bit-managed f (omega (arith, run.inside)))

  -- What the kernel starts with: a heap of 128 MiB at the start of a frame, in frames that available
  -- descriptors hold and that are marked as in use besides those that were before; or the error, with no
  -- change, where no run of free frames is that long.
  abbrev pub HeapOutcome : Option (WithError (Option Heap) × BitmapMemoryManager) → Type 0
  HeapOutcome r =
      ((heap : Heap) × (m' : BitmapMemoryManager) × (r
          ≡ some (record { value = some heap; error = Code.success }, m'))
        × IsValid m'
        × (heap.program_break ≡ heap.program_break / 4096 * 4096)
        × ((f : ℕ)
            → get_bit m' f ≡ (
                if in_run (heap.program_break / 4096) heap_frames f
                then true
                else get_bit (managed lines map) f))
        × (heap.program_break_end ≡ heap.program_break + 128 * 1024 * 1024)
        × ((f : ℕ)
            → heap.program_break ≤ f * 4096
            → f * 4096 < heap.program_break_end
            → usable map f ≡ true))
      ⊎ (((t : ℕ) → 1 ≤ t → ¬ FreeRun (managed lines map) t heap_frames)
          × (r ≡ some (record { value = none; error = Code.no_enough_memory }, managed lines map)))

  heap_outcome :
      IsValid (managed lines map)
      → FirstFit (managed lines map) heap_frames 1 (allocate (managed lines map) heap_frames)
      → HeapOutcome (initialize_heap (managed lines map))
  unfolding initialize_heap
  heap_outcome valid (inl (frame, from, run, first, e)) = inl (
    record { program_break = frame * 4096; program_break_end = frame * 4096 + heap_frames * 4096 },
    mark_allocated (managed lines map) frame heap_frames,
    rw (e, initialize_heap),
    granted-IsValid heap_frames frame valid e,
    omega arith,
    (λ f.
        let same : frame * 4096 / 4096 ≡ frame = omega arith in
        rw same (get_bit-granted heap_frames frame valid e f)),
    omega arith,
    λ f a b. FreeRun-usable frame heap_frames run f (omega arith) (omega arith),
  )
  heap_outcome valid (inr (never, e)) = inr (never, rw (e, initialize_heap))

  -- For a map in ascending order, aligned, with no overlaps, inside the bitmap and with a range that
  -- ends after frame 0, `InitializeMemoryManager` ends. It either sets up a heap of 128 MiB at the start
  -- of a frame, in frames that available descriptors hold, marks exactly these as in use besides those
  -- that were before, and leaves the allocator valid; or it reports that memory does not suffice and
  -- changes nothing more, and then no run of free frames is long enough.
  pub initialize_memory_manager-HeapOutcome :
      1 ≤ (managed lines map).range_end → HeapOutcome (initialize_memory_manager lines map)
  unfolding initialize_memory_manager
  initialize_memory_manager-HeapOutcome h = heap_outcome (managed-IsValid h) (
      unfold managed set_memory_range in
      allocate-FirstFit (managed lines map) heap_frames (managed-IsValid h))
