-- ===== src/Elf/Loaded.antt =====
-- After LoadElf, all segments of the program are in pages that are mapped.
use mikan_os.Prelude.{
  ℕ, ◌+◌, ◌-◌, ◌/◌, ◌%◌, ◌^◌, ◌≤◌, ◌<◌, ◌≡◌, refl, subst, List, true, false, ◌==◌, ltb, arith,
}
use mikan_os.Paging.{Physical, part, setup_page_maps}
use mikan_os.Paging.Address.{span, page}
use mikan_os.Paging.Owned.{Owner, IsApart, IsClosed, mapped}
use mikan_os.Paging.Steps.{After, After-map}
use mikan_os.Paging.Setup.Round.{IsDone, setup_page_maps_lem}
use mikan_os.Elf.{
  Phdr, Ehdr, et_exec, Stores, get_first_load_address, segment_end, load_range, copy_segments,
  range_pages, copy_load_segments, load_elf,
}
use mikan_os.Elf.Range.{Each, Each-map, load_range-IsAround, load_range-bounds}
use mikan_os.Elf.Stored.{upper_half, IsCovered, HasUpperHalf, IsStore}
use mikan_os.Elf.Copied.{IsSized, copy_segments-StoresTo}
use mikan_os.Elf.Outcome.{LoadOutcome, stored-LoadOutcome}

-- The page of an address in the range, counted from the first page of the range.
page_in_range :
    (vaddr_min vaddr_max a : ℕ)
    → upper_half ≤ vaddr_min
    → vaddr_min % 4096 ≡ 0
    → vaddr_min ≤ a
    → a < vaddr_max
    → vaddr_max < 2 ^ 64
    → let k = a / 4096 - vaddr_min / 4096 in
      (page 4 vaddr_min + k ≡ page 4 a)
      × (k < range_pages vaddr_min vaddr_max)
      × (k < span 4 - page 4 vaddr_min)
      × (256 ≤ page 4 a / span 3)
page_in_range vaddr_min vaddr_max a low aligned from below high =
    (omega arith, omega arith, omega arith, omega arith)

part_upper : (a : ℕ) → upper_half ≤ a → a < 2 ^ 64 → 256 ≤ part 4 a
unfolding part
part_upper a low high = omega arith

module _ (cr3 vaddr_min vaddr_max : ℕ) (low : upper_half ≤ vaddr_min)
    (aligned : vaddr_min % 4096 ≡ 0) (high : vaddr_max < 2 ^ 64) (own : Owner) (s : Physical)
    (v : IsClosed own s) (tables : HasUpperHalf cr3 own) where
  range-IsCovered :
      vaddr_min < 2 ^ 64
      → After own s
          (λ own' x s'. IsCovered cr3 vaddr_min vaddr_max s')
          (setup_page_maps cr3 false vaddr_min (range_pages vaddr_min vaddr_max) s)
  range-IsCovered small =
      let n = range_pages vaddr_min vaddr_max in
      let first = part_upper vaddr_min low small in
      After-map own s (IsDone 4 cr3 vaddr_min n) (λ own' x s'. IsCovered cr3 vaddr_min vaddr_max s')
        (setup_page_maps cr3 false vaddr_min n s)
        (setup_page_maps_lem false own s cr3 vaddr_min n v
          (λ j h. tables j (omega (arith, h, first))))
        (λ own' left s' g (count, done) a from below.
          let (same, few, inside, upper) =
            page_in_range vaddr_min vaddr_max a low aligned from below high in
          subst (λ (q : ℕ). mapped s'.words 4 cr3 q ≡ true) same
            (done (a / 4096 - vaddr_min / 4096) few inside))

-- CopyLoadSegments, for segments in the upper half.
copy_load_segments-LoadOutcome :
    (stores : Stores) (cr3 : ℕ) (phdrs : List Phdr) (own : Owner) (s : Physical)
    → IsClosed own s
    → IsApart own
    → HasUpperHalf cr3 own
    → ((dst offset len : ℕ) → IsStore cr3 dst len (stores.copy dst offset len))
    → ((dst len : ℕ) → IsStore cr3 dst len (stores.clear dst len))
    → Each (λ p. upper_half ≤ p.p_vaddr) phdrs
    → Each IsSized phdrs
    → let r = load_range phdrs (2 ^ 64 - 1) 0 in
      r.0 % 4096 ≡ 0 → LoadOutcome cr3 r.0 r.1 phdrs own s (copy_load_segments stores cr3 phdrs s)
unfolding copy_load_segments
copy_load_segments-LoadOutcome stores cr3 phdrs own s v apart tables copies clears upper sized
      aligned =
    let r = load_range phdrs (2 ^ 64 - 1) 0 in
    let (least, most, around) = load_range-IsAround phdrs (2 ^ 64 - 1) 0 in
    let (low, high) =
      load_range-bounds phdrs (2 ^ 64 - 1) 0 upper_half (2 ^ 64 - 1) (omega arith) (omega arith) (
        Each-map (λ p. upper_half ≤ p.p_vaddr)
          (λ p. (upper_half ≤ p.p_vaddr) × (segment_end p ≤ 2 ^ 64 - 1)) phdrs
          (λ p h. (h, omega arith)) upper) in
    let high' : r.1 < 2 ^ 64 = omega (arith, high) in
    let setup = setup_page_maps cr3 false r.0 (range_pages r.0 r.1) in
    stored-LoadOutcome cr3 r.0 r.1 low high' own s v tables phdrs setup (copy_segments stores phdrs)
      (setup s) refl apart
      (range-IsCovered cr3 r.0 r.1 low aligned high' own s v tables (omega (arith, least)))
      (λ own' s' w a t covered.
        copy_segments-StoresTo own' cr3 r.0 r.1 a t low high' stores phdrs s' w covered copies
          clears sized around)
      around

-- LoadElf of an executable whose segments lie in the upper half of the address space, each no longer
-- in the file than in memory and ending in the address space, the lowest of them at the start of a
-- page. The tables for that half are in use, no frame is in use for two levels, and the stores of the
-- content, where the addresses are mapped, end and write only to the frames of the pages of these
-- addresses. Then it ends. With success the result is an address that no segment that is loaded ends
-- behind (not the entry point), all addresses of these segments are mapped, and: frames stay
-- allocated, entries that were present stay present and point where they did, and the words that are
-- no entries, of frames that were allocated, change only in the pages of the range of the segments.
-- Otherwise the error is that memory has run out, and no such word has changed.
pub load_elf-IsLoaded :
    (stores : Stores) (cr3 : ℕ) (ehdr : Ehdr) (own : Owner) (s : Physical)
    → IsClosed own s
    → IsApart own
    → HasUpperHalf cr3 own
    → ((dst offset len : ℕ) → IsStore cr3 dst len (stores.copy dst offset len))
    → ((dst len : ℕ) → IsStore cr3 dst len (stores.clear dst len))
    → ehdr.e_type ≡ et_exec
    → upper_half ≤ get_first_load_address ehdr.phdrs
    → Each (λ p. upper_half ≤ p.p_vaddr) ehdr.phdrs
    → Each IsSized ehdr.phdrs
    → let r = load_range ehdr.phdrs (2 ^ 64 - 1) 0 in
      r.0 % 4096 ≡ 0 → LoadOutcome cr3 r.0 r.1 ehdr.phdrs own s (load_elf stores cr3 ehdr s)
unfolding load_elf
load_elf-IsLoaded stores cr3 ehdr own s v apart tables copies clears exec first upper sized
      aligned =
    let is_exec : (ehdr.e_type == et_exec) ≡ true = ground arith in
    let is_upper : ltb (get_first_load_address ehdr.phdrs) 18446603336221196288 ≡ false =
      ground arith in
    rw (load_elf, is_exec, is_upper)
      (copy_load_segments-LoadOutcome stores cr3 ehdr.phdrs own s v apart tables copies clears upper
        sized aligned)
