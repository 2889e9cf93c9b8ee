-- ===== src/Memory/Boot/Marks.antt =====
-- The bitmap after the loop of `InitializeMemoryManager`: which frames are left to `Allocate`.
use mikan_os.Prelude.{
  ℕ, ◌+◌, ◌-◌, ◌*◌, ◌/◌, ◌%◌, ◌≤◌, ◌<◌, ◌≡◌, refl, ap, inl, inr, Bool, true, false, not, leb, ltb,
  ◌&&◌, ◌||◌, if◌then◌else◌, List, [], ◌∷◌, length, arith, Bool-cases,
}
use mikan_os.Memory.{BitmapMemoryManager, get_bit, mark_allocated, frame_count, size_mod}
use mikan_os.Memory.Bitmap.{get_bit-mark_allocated, length-set_bits}
use mikan_os.Memory.Boot.{MemoryDescriptor, is_available, mark_gap, mark_descriptor, read_map}

-- The end of a descriptor's memory, with no wrap.
abbrev pub end_of : MemoryDescriptor → ℕ
end_of desc = desc.physical_start + desc.number_of_pages * 4096

abbrev pub holds : MemoryDescriptor → ℕ → Bool
holds desc frame = leb desc.physical_start (frame * 4096) && ltb (frame * 4096) (end_of desc)

-- Whether an available descriptor of the map holds the frame.
unfoldable pub usable : List MemoryDescriptor → ℕ → Bool
usable [] frame = false
usable (desc ∷ rest) frame = (is_available desc.type && holds desc frame) || usable rest frame

-- Descriptors in ascending order from `from` on, apart, aligned to pages, in the first `frames` frames.
unfoldable pub IsAscending : ℕ → ℕ → List MemoryDescriptor → Type 0
IsAscending frames from [] = Unit {0}
IsAscending frames from (desc ∷ rest) =
    (from ≤ desc.physical_start)
    × (desc.physical_start % 4096 ≡ 0)
    × (end_of desc ≤ frames * 4096)
    × IsAscending frames (end_of desc) rest

usable_before :
    (frames from : ℕ) (map : List MemoryDescriptor) (frame : ℕ)
    → IsAscending frames from map
    → frame * 4096 < from
    → usable map frame ≡ false
unfolding usable IsAscending
usable_before frames from [] frame h lt = refl
usable_before frames from (desc ∷ rest) frame h lt =
    ground (arith, usable_before frames (end_of desc) rest frame h.3)

pub length-mark_allocated :
    (m : BitmapMemoryManager) (start n : ℕ)
    → length (mark_allocated m start n).alloc_map ≡ length m.alloc_map
unfolding mark_allocated
length-mark_allocated m start n = length-set_bits m start 0 n true

module _ (frames : ℕ) (few : frames ≤ frame_count) where
  pub length-mark_gap :
      (m : BitmapMemoryManager) (a : ℕ) (d : MemoryDescriptor)
      → length (mark_gap m a d).alloc_map ≡ length m.alloc_map
  unfolding mark_gap mark_allocated
  length-mark_gap m a d =
      ground (arith, length-set_bits m (a / 4096) 0 ((d.physical_start - a) / 4096) true)

  get_bit-mark_gap :
      (m : BitmapMemoryManager) (a : ℕ) (d : MemoryDescriptor) (frame : ℕ)
      → 64 * length m.alloc_map ≡ frames
      → a % 4096 ≡ 0
      → d.physical_start % 4096 ≡ 0
      → d.physical_start ≤ frames * 4096
      → get_bit (mark_gap m a d) frame ≡ (
          if leb a (frame * 4096) && ltb (frame * 4096) d.physical_start
          then true
          else get_bit m frame)
  unfolding mark_gap
  get_bit-mark_gap m a d frame l ha hd fits = elim (Bool-cases (ltb a d.physical_start)) [
    | inl gap ↦ rw gap (
        ground (
          arith,
          get_bit-mark_allocated m (a / 4096) ((d.physical_start - a) / 4096) (ground arith)
              (omega arith) frame,
        ))
    | inr tight ↦ rw tight (ground arith)
  ]

  -- What an unavailable descriptor marks.
  get_bit-mark_run :
      (m : BitmapMemoryManager) (d : MemoryDescriptor) (frame : ℕ)
      → 64 * length m.alloc_map ≡ frames
      → d.physical_start % 4096 ≡ 0
      → end_of d ≤ frames * 4096
      → get_bit
          (mark_allocated m (d.physical_start / 4096) (d.number_of_pages * 4096 % size_mod / 4096))
          frame
        ≡ (if holds d frame then true else get_bit m frame)
  get_bit-mark_run m d frame l hd fits = ground (
    arith,
    get_bit-mark_allocated m (d.physical_start / 4096) (d.number_of_pages * 4096 % size_mod / 4096)
        (omega arith) (omega arith) frame,
  )

  mark_descriptor_available :
      (m : BitmapMemoryManager) (a : ℕ) (d : MemoryDescriptor)
      → is_available d.type ≡ true
      → end_of d ≤ frames * 4096
      → mark_descriptor m a d ≡ (m, end_of d)
  unfolding mark_descriptor
  mark_descriptor_available m a d h fits = rw h (ground arith)

  mark_descriptor_kept :
      (m : BitmapMemoryManager) (a : ℕ) (d : MemoryDescriptor)
      → is_available d.type ≡ false
      → mark_descriptor m a d ≡ (
        mark_allocated m (d.physical_start / 4096) (d.number_of_pages * 4096 % size_mod / 4096),
        a,
      )
  unfolding mark_descriptor
  mark_descriptor_kept m a d h = rw h

  -- The two ways in which the loop reads one descriptor.
  pub read_map_available :
      (m : BitmapMemoryManager) (a : ℕ) (d : MemoryDescriptor) (rest : List MemoryDescriptor)
      → is_available d.type ≡ true
      → end_of d ≤ frames * 4096
      → read_map m a (d ∷ rest) ≡ read_map (mark_gap m a d) (end_of d) rest
  unfolding read_map
  read_map_available m a d rest h fits =
      ap (λ p. read_map p.0 p.1 rest) (mark_descriptor_available (mark_gap m a d) a d h fits)

  pub read_map_kept :
      (m : BitmapMemoryManager) (a : ℕ) (d : MemoryDescriptor) (rest : List MemoryDescriptor)
      → is_available d.type ≡ false
      → read_map m a (d ∷ rest)
        ≡ read_map
            (mark_allocated
              (mark_gap m a d)
              (d.physical_start / 4096)
              (d.number_of_pages * 4096 % size_mod / 4096))
            a
            rest
  unfolding read_map
  read_map_kept m a d rest h =
      ap (λ p. read_map p.0 p.1 rest) (mark_descriptor_kept (mark_gap m a d) a d h)

  -- `a` is `available_end`, and the descriptors read so far end at `e`.
  pub read_map_marks :
      (map : List MemoryDescriptor) (m : BitmapMemoryManager) (a e : ℕ)
      → 64 * length m.alloc_map ≡ frames
      → a % 4096 ≡ 0
      → a ≤ e
      → IsAscending frames e map
      → ((f : ℕ) → a ≤ f * 4096 → f * 4096 < e → get_bit m f ≡ true)
      → ((f : ℕ) → e ≤ f * 4096 → get_bit m f ≡ false)
      → (f : ℕ) → f * 4096 < (read_map m a map).1
      → get_bit (read_map m a map).0 f
        ≡ (if ltb (f * 4096) a then get_bit m f else not (usable map f))
  unfolding usable IsAscending
  read_map_marks [] m a e l ha le h between after f lt = unfold read_map in ground arith
  read_map_marks (d ∷ rest) m a e l ha le h between after f lt =
      elim (Bool-cases (is_available d.type)) [
        | inl free ↦
            let q = read_map_available m a d rest free h.2 in
            rw q (
              ground (
                arith,
                usable_before frames (end_of d) rest f h.3,
                marked f,
                between f,
                after f,
                read_map_marks rest gap (end_of d) (end_of d) (omega (arith, length-mark_gap m a d))
                    (omega arith) (omega arith) h.3 (λ g p r. absurd (omega arith))
                    (λ g p. ground (arith, marked g, after g)) f (rw q at lt),
              ))
        | inr kept ↦
            let q = read_map_kept m a d rest kept in
            rw q (
              ground (
                arith,
                usable_before frames (end_of d) rest f h.3,
                marked f,
                run f,
                read_map_marks rest both a (end_of d) length-both ha (omega arith) h.3
                    (λ g p r. ground (arith, run g, marked g, between g))
                    (λ g p. ground (arith, run g, marked g, after g)) f (rw q at lt),
              ))
      ]
    where
      gap : BitmapMemoryManager
      gap = mark_gap m a d

      marked :
          (g : ℕ)
          → get_bit gap g
            ≡ (if leb a (g * 4096) && ltb (g * 4096) d.physical_start then true else get_bit m g)
      marked g = get_bit-mark_gap m a d g l ha h.1 (omega arith)

      both : BitmapMemoryManager
      both =
          mark_allocated gap (d.physical_start / 4096) (d.number_of_pages * 4096 % size_mod / 4096)

      run : (g : ℕ) → get_bit both g ≡ (if holds d g then true else get_bit gap g)
      run g = get_bit-mark_run gap d g (omega (arith, length-mark_gap m a d)) h.1 h.2

      length-both : 64 * length both.alloc_map ≡ frames
      length-both = omega (
        arith,
        length-mark_allocated gap (d.physical_start / 4096)
            (d.number_of_pages * 4096 % size_mod / 4096),
        length-mark_gap m a d,
      )
