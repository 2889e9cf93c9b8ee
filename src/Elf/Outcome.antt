-- ===== src/Elf/Outcome.antt =====
-- What LoadElf leaves of the tables in use and of memory.
use mikan_os.Prelude.{
  ℕ, suc, ◌^◌, ◌≤◌, ◌<◌, ◌≡◌, ◌≢◌, subst, sym, ◌∙◌, ap, List, true, false, arith,
}
use mikan_os.Error.{Code}
use mikan_os.Memory.{get_bit}
use mikan_os.Paging.{Physical, Result, ok, err, stuck, ◌>>◌, pure, pointer, present, M}
use mikan_os.Paging.Address.{page}
use mikan_os.Paging.Owned.{Owner, IsApart, IsClosed, Grows, mapped}
use mikan_os.Paging.Steps.{After, bind_ok, bind_err}
use mikan_os.Elf.{Phdr, segment_end}
use mikan_os.Elf.Range.{Each, Each-map}
use mikan_os.Elf.Stored.{
  upper_half, frame_at, IsCovered, HasUpperHalf, IsStored, StoresTo, IsStored-IsClosed,
  IsStored-mapped, IsStored-KeepsEntries,
}

-- The program that is loaded: its end, and pages at all addresses of its segments.
abbrev pub IsLoaded : (cr3 : ℕ) → List Phdr → Owner → ℕ → Physical → Type 0
IsLoaded cr3 phdrs own last_addr s =
    Each
      (λ p.
        (segment_end p ≤ last_addr)
        × ((a : ℕ) → p.p_vaddr ≤ a → a < segment_end p → mapped s.words 4 cr3 (page 4 a) ≡ true))
      phdrs

-- What a load does to the tables in use and to memory: frames stay allocated, entries that are present
-- stay present and point where they did, and the words that are no entries, of frames that were
-- allocated, stay as they are but in the pages of the program.
pub record Loads (cr3 low high : ℕ) (own : Owner) (s : Physical) (own' : Owner) (s' : Physical)
    : Type 0 where
  pub closed : IsClosed own' s'
  pub apart : IsApart own'
  pub bits : (f : ℕ) → get_bit s.manager f ≡ true → get_bit s'.manager f ≡ true
  pub owned : (l f i : ℕ) → get_bit s.manager f ≡ true → own' l f i ≡ own l f i
  pub linked :
      (l f i : ℕ)
      → own (suc l) f i ≡ true
      → present (s.words f i) ≡ true
      → (present (s'.words f i) ≡ true) × (pointer (s'.words f i) ≡ pointer (s.words f i))
  pub others :
      (f i : ℕ)
      → get_bit s.manager f ≡ true
      → ((l : ℕ) → own (suc l) f i ≡ false)
      → ((a : ℕ) → low ≤ a → a < high → f ≢ frame_at cr3 a s')
      → s'.words f i ≡ s.words f i

-- What LoadElf leaves: a program that is loaded, or tables that have grown until memory ran out.
abbrev pub LoadOutcome : (cr3 low high : ℕ) → List Phdr → Owner → Physical → Result ℕ → Type 0
LoadOutcome cr3 low high phdrs own s (ok last_addr s') =
    (own' : Owner) × Loads cr3 low high own s own' s' × IsLoaded cr3 phdrs own' last_addr s'
LoadOutcome cr3 low high phdrs own s (err code s') =
    (own' : Owner) × IsClosed own' s' × Grows own s own' s' × (code ≡ Code.no_enough_memory)
LoadOutcome cr3 low high phdrs own s stuck = ⊥

module _ (cr3 vaddr_min vaddr_max : ℕ) (low : upper_half ≤ vaddr_min) (high : vaddr_max < 2 ^ 64)
    (own : Owner) (s : Physical) (v : IsClosed own s) (tables : HasUpperHalf cr3 own) where
  -- The stores after SetupPageMaps.
  stored-Loads :
      (own' : Owner) (s' s'' : Physical)
      → IsApart own
      → IsClosed own' s'
      → Grows own s own' s'
      → IsCovered cr3 vaddr_min vaddr_max s'
      → IsStored cr3 vaddr_min vaddr_max s' s''
      → Loads cr3 vaddr_min vaddr_max own s own' s'' × IsCovered cr3 vaddr_min vaddr_max s''
  stored-Loads own' s' s'' a w g covered (same, kept) =
      let a' = g.apart a in
      let tables' : HasUpperHalf cr3 own' =
        λ j h. g.owned 4 cr3 j (v.allocated 4 cr3 j (tables j h)) ∙ tables j h in
      let entries =
        IsStored-KeepsEntries own' cr3 vaddr_min vaddr_max s' s'' w a' tables' low high covered
          (same, kept) in
      let after =
        IsStored-mapped own' cr3 vaddr_min vaddr_max s' s'' w a' tables' low high covered
          (same, kept) in
      (
        record {
          closed =
              IsStored-IsClosed own' cr3 vaddr_min vaddr_max s' s'' w a' tables' low high covered
                (same, kept);
          apart = a';
          bits = λ f b. rw same (g.bits f b);
          owned = g.owned;
          linked = λ l f i o there.
              let (there', at) = g.linked l f i o there in
              let o' = g.owned (suc l) f i (v.allocated (suc l) f i o) ∙ o in
              let e = entries l f i o' in
              (ap (λ n. present n) e ∙ there', ap (λ n. pointer n) e ∙ at);
          others = λ f i b none_mine away.
              kept f i (λ x from below e. away x from below (e ∙ sym (after x from below).1))
              ∙ g.others f i b none_mine;
        },
        λ x from below. (after x from below).0,
      )

  -- SetupPageMaps, and then the stores.
  pub stored-LoadOutcome :
      {A : Type 0} (phdrs : List Phdr) (setup : M A) (copied : M (Unit {0})) (r : Result A)
      → setup s ≡ r
      → IsApart own
      → After own s (λ own' x s'. IsCovered cr3 vaddr_min vaddr_max s') r
      → ((own' : Owner) (s' : Physical)
          → IsClosed own' s'
          → IsApart own'
          → HasUpperHalf cr3 own'
          → IsCovered cr3 vaddr_min vaddr_max s'
          → StoresTo cr3 vaddr_min vaddr_max s' copied)
      → Each (λ p. (vaddr_min ≤ p.p_vaddr) × (segment_end p ≤ vaddr_max)) phdrs
      → LoadOutcome cr3 vaddr_min vaddr_max phdrs own s ((setup >> copied >> pure vaddr_max) s)
  stored-LoadOutcome phdrs setup copied (ok x s') e apart (own', w, g, covered) copies around =
      let (s'', e', stored) =
        copies own' s' w (g.apart apart)
          (λ j h. g.owned 4 cr3 j (v.allocated 4 cr3 j (tables j h)) ∙ tables j h) covered in
      let (loads, covered') = stored-Loads own' s' s'' apart w g covered stored in
      let both = bind_ok setup (λ y. copied) s s' x e ∙ e' in
      let result = bind_ok (setup >> copied) (λ y. pure vaddr_max) s s'' tt both in
      subst (LoadOutcome cr3 vaddr_min vaddr_max phdrs own s) (sym result) (
        own',
        loads,
        Each-map (λ p. (vaddr_min ≤ p.p_vaddr) × (segment_end p ≤ vaddr_max))
            (λ p.
              (segment_end p ≤ vaddr_max)
              × ((a : ℕ)
                  → p.p_vaddr ≤ a
                  → a < segment_end p
                  → mapped s''.words 4 cr3 (page 4 a) ≡ true))
            phdrs
            (λ p (b, last). (
              last,
              λ a from below. covered' a (omega (arith, b, from)) (omega (arith, last, below)),
            ))
            around,
      )
  stored-LoadOutcome phdrs setup copied (err code s') e apart h copies around =
      let first = bind_err setup (λ y. copied) s s' code e in
      subst (LoadOutcome cr3 vaddr_min vaddr_max phdrs own s)
        (sym (bind_err (setup >> copied) (λ y. pure vaddr_max) s s' code first)) h
  stored-LoadOutcome phdrs setup copied stuck e apart never copies around = absurd never
