-- ===== src/Paging/Fault/OnDemand.antt =====
-- A fault at an address whose pages come on demand.
use mikan_os.Prelude.{
  ℕ, ◌+◌, ◌/◌, ◌%◌, ◌^◌, ◌<◌, ◌≤◌, ◌≡◌, true, false, ◌==◌, leb, ltb, arith, subst,
}
use native.Mathlib.Nat.{mod-lt}
use mikan_os.Paging.{Physical, ◌>>◌, pure, part, setup_page_maps}
use mikan_os.Paging.Address.{span, page}
use mikan_os.Paging.Owned.{Owner, IsClosed, Grows-refl, mapped}
use mikan_os.Paging.Steps.{After, After-bind}
use mikan_os.Paging.Setup.Digits.{span_pos}
use mikan_os.Paging.Setup.Round.{IsDone, setup_page_maps_lem}
use mikan_os.Paging.Fault.{Machine, Paged, handle_page_fault}

-- What the processor finds for the address.
abbrev pub IsMapped : (cr3 addr : ℕ) → Owner → Unit {0} → Physical → Type 0
IsMapped cr3 addr own x s = mapped s.words 4 cr3 (page 4 addr) ≡ true

one_page-IsMapped :
    (own : Owner) (s : Physical) (cr3 addr : ℕ)
    → IsClosed own s
    → ((j : ℕ) → part 4 addr ≤ j → own 4 cr3 j ≡ true)
    → After own s (IsMapped cr3 addr) ((setup_page_maps cr3 true addr 1 >> pure tt) s)
one_page-IsMapped own s cr3 addr v o =
    After-bind own s (IsDone 4 cr3 addr 1) (IsMapped cr3 addr) (setup_page_maps cr3 true addr 1)
      (λ left. pure tt) v (setup_page_maps_lem true own s cr3 addr 1 v o)
      (λ own' left s' w g (count, done).
        let below : page 4 addr < span 4 = mod-lt (addr / 4096) (span_pos 4) in
        let now = done 0 (omega arith) (omega (arith, below)) in
        let q = page 4 addr in
        let same : q + 0 ≡ q = omega arith in
        (own', w, Grows-refl own' s', subst (λ (p : ℕ). mapped s'.words 4 cr3 p ≡ true) same now))

-- HandlePageFault at an address on demand whose page is not present: it ends, and with success the page
-- is mapped for the address; else memory has run out. In both cases what was mapped before stays so.
pub handle_page_fault-IsMapped :
    (machine : Machine) (task : Paged) (own : Owner) (s : Physical) (cr3 error_code addr : ℕ)
    → IsClosed own s
    → ((j : ℕ) → part 4 addr ≤ j → own 4 cr3 j ≡ true)
    → error_code % 2 ≡ 0
    → task.dpaging_begin ≤ addr
    → addr < task.dpaging_end
    → After own s (IsMapped cr3 addr) (handle_page_fault machine task cr3 error_code addr s)
unfolding handle_page_fault
handle_page_fault-IsMapped machine task own s cr3 error_code addr v o absent low high =
    let none_there : (error_code / 2 ^ 0 % 2 ^ 1 == 1) ≡ false = ground arith in
    let first : leb task.dpaging_begin addr ≡ true = ground arith in
    let last : ltb addr task.dpaging_end ≡ true = ground arith in
    rw (handle_page_fault, none_there, first, last) (one_page-IsMapped own s cr3 addr v o)
