-- ===== src/Elf/Copied.antt =====
-- The second loop of CopyLoadSegments stores to the pages of the segments.
use mikan_os.Prelude.{
  ℕ, ◌+◌, ◌-◌, ◌%◌, ◌^◌, ◌≤◌, ◌<◌, ◌≡◌, refl, ◌∙◌, List, [], ◌∷◌, not, ◌==◌, if_split, arith,
}
use mikan_os.Paging.{Physical, M, ◌>>◌}
use mikan_os.Paging.Owned.{Owner, IsApart, IsClosed}
use mikan_os.Paging.Steps.{bind_ok}
use mikan_os.Elf.{Phdr, Stores, pt_load, segment_end, copy_segments}
use mikan_os.Elf.Range.{Each}
use mikan_os.Elf.Stored.{
  upper_half, IsCovered, HasUpperHalf, IsStore, StoresTo, IsStored-IsClosed, IsStored-mapped,
  IsStored-trans, IsStored-wider,
}

-- What the loader relies on, of a segment: the file has no more of it than memory, and it ends in the
-- address space.
abbrev pub IsSized : Phdr → Type 0
IsSized p = (p.p_filesz ≤ p.p_memsz) × (p.p_vaddr + p.p_memsz < 2 ^ 64)

module _ (own : Owner) (cr3 low high : ℕ) (apart : IsApart own) (tables : HasUpperHalf cr3 own)
    (upper : upper_half ≤ low) (small : high < 2 ^ 64) where
  store-StoresTo :
      (m : M (Unit {0})) (dst len : ℕ) (s : Physical)
      → IsClosed own s
      → IsCovered cr3 low high s
      → low ≤ dst
      → dst + len ≤ high
      → IsStore cr3 dst len m
      → StoresTo cr3 low high s m
  store-StoresTo m dst len s v covered from to store =
      let (s', e, stored) =
        store own s v apart tables (omega (arith, upper, from)) (omega (arith, to, small))
          (λ a f b. covered a (omega (arith, f, from)) (omega (arith, b, to))) in
      (s', e, IsStored-wider cr3 low high dst (dst + len) s s' from to stored)

  StoresTo-then :
      (m m' : M (Unit {0})) (s : Physical)
      → IsClosed own s
      → IsCovered cr3 low high s
      → StoresTo cr3 low high s m
      → ((s' : Physical)
          → IsClosed own s'
          → IsCovered cr3 low high s'
          → StoresTo cr3 low high s' m')
      → StoresTo cr3 low high s (m >> m')
  StoresTo-then m m' s v covered (s', e, stored) next =
      let w = IsStored-IsClosed own cr3 low high s s' v apart tables upper small covered stored in
      let (s'', e', stored') = next s' w (λ a from below.
        (IsStored-mapped own cr3 low high s s' v apart tables upper small covered stored a from
          below).0) in
      (
        s'',
        bind_ok m (λ x. m') s s' tt e ∙ e',
        IsStored-trans own cr3 low high s s' v apart tables upper small covered stored s'' stored',
      )

  segment-StoresTo :
      (stores : Stores) (p : Phdr) (rest : M (Unit {0})) (s : Physical)
      → IsClosed own s
      → IsCovered cr3 low high s
      → ((dst offset len : ℕ) → IsStore cr3 dst len (stores.copy dst offset len))
      → ((dst len : ℕ) → IsStore cr3 dst len (stores.clear dst len))
      → IsSized p
      → low ≤ p.p_vaddr
      → segment_end p ≤ high
      → ((s' : Physical)
          → IsClosed own s'
          → IsCovered cr3 low high s'
          → StoresTo cr3 low high s' rest)
      → StoresTo cr3 low high s (
          stores.copy p.p_vaddr p.p_offset p.p_filesz
          >> stores.clear
              ((p.p_vaddr + p.p_filesz) % 2 ^ 64)
              ((p.p_memsz + 2 ^ 64 - p.p_filesz) % 2 ^ 64)
          >> rest)
  segment-StoresTo stores p rest s v covered copies clears (less, fits) from to next =
      let dst = (p.p_vaddr + p.p_filesz) % 2 ^ 64 in
      let len = (p.p_memsz + 2 ^ 64 - p.p_filesz) % 2 ^ 64 in
      let copy = stores.copy p.p_vaddr p.p_offset p.p_filesz in
      let clear = stores.clear dst len in
      let inside : p.p_vaddr + p.p_filesz ≤ high = omega (arith, less, fits, to) in
      let after : low ≤ dst = omega (arith, less, fits, from) in
      let inside' : dst + len ≤ high = omega (arith, less, fits, to) in
      StoresTo-then (copy >> clear) rest s v covered
        (StoresTo-then copy clear s v covered
          (store-StoresTo copy p.p_vaddr p.p_filesz s v covered from inside
            (copies p.p_vaddr p.p_offset p.p_filesz))
          (λ s' w c. store-StoresTo clear dst len s' w c after inside' (clears dst len)))
        next

  pub copy_segments-StoresTo :
      (stores : Stores) (ps : List Phdr) (s : Physical)
      → IsClosed own s
      → IsCovered cr3 low high s
      → ((dst offset len : ℕ) → IsStore cr3 dst len (stores.copy dst offset len))
      → ((dst len : ℕ) → IsStore cr3 dst len (stores.clear dst len))
      → Each IsSized ps
      → Each (λ p. (low ≤ p.p_vaddr) × (segment_end p ≤ high)) ps
      → StoresTo cr3 low high s (copy_segments stores ps)
  unfolding copy_segments
  copy_segments-StoresTo stores [] s v covered copies clears sized around =
      (s, refl, (refl, λ f i away. refl))
  copy_segments-StoresTo stores (p ∷ ps) s v covered copies clears (one, sized) (in_range, around) =
      let rest = λ (t : Physical) (w : IsClosed own t) (c : IsCovered cr3 low high t).
        copy_segments-StoresTo stores ps t w c copies clears sized around in
      if_split (λ (m : M (Unit {0})). StoresTo cr3 low high s m) (not (p.p_type == pt_load))
        (λ skip. rest s v covered)
        (λ load.
          let e : p.p_type ≡ pt_load = ground arith in
          let (from, to) = in_range e in
          segment-StoresTo stores p (copy_segments stores ps) s v covered copies clears (one e) from
            to rest)
