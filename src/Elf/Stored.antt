-- ===== src/Elf/Stored.antt =====
-- What memcpy and memset to a program's addresses do to physical memory: they go through the page tables
-- to the frames of the program's pages.
use mikan_os.Prelude.{
  ℕ, zero, suc, ◌+◌, ◌/◌, ◌%◌, ◌^◌, ◌≤◌, ◌<◌, ◌≡◌, ◌≢◌, refl, ◌∙◌, ap, subst, sym, true, arith,
}
use mikan_os.Paging.{Physical, M, ok, present, pointer}
use mikan_os.Paging.Address.{span, page}
use mikan_os.Paging.Owned.{Owner, IsApart, IsClosed, mapped, mapped_entry, mapped_below}

-- The first address of the programs' half of the address space.
abbrev pub upper_half : ℕ
upper_half = 18446603336221196288

-- The frame that the processor finds for the page `p` of a table of a level.
unfoldable pub frame_of : (ℕ → ℕ → ℕ) → (level table p : ℕ) → ℕ
frame_of words zero table p = table
frame_of words (suc level) table p =
    frame_of words level (pointer (words table (p / span level))) (p % span level)

abbrev pub frame_at : (cr3 a : ℕ) → Physical → ℕ
frame_at cr3 a s = frame_of s.words 4 cr3 (page 4 a)

-- All addresses of the range are mapped.
abbrev pub IsCovered : (cr3 low high : ℕ) → Physical → Type 0
IsCovered cr3 low high s = (a : ℕ) → low ≤ a → a < high → mapped s.words 4 cr3 (page 4 a) ≡ true

-- The allocator and all frames but those of the pages in the range are as they were.
abbrev pub IsStored : (cr3 low high : ℕ) → (s s' : Physical) → Type 0
IsStored cr3 low high s s' =
    (s'.manager ≡ s.manager)
    × ((f i : ℕ)
        → ((a : ℕ) → low ≤ a → a < high → f ≢ frame_at cr3 a s)
        → s'.words f i ≡ s.words f i)

-- The upper half of the table `cr3` is in use.
abbrev pub HasUpperHalf : (cr3 : ℕ) → Owner → Type 0
HasUpperHalf cr3 own = (j : ℕ) → 256 ≤ j → own 4 cr3 j ≡ true

-- A store to `len` bytes from `dst` on: where these are mapped in the programs' half, it ends, and writes
-- to the frames of their pages only.
abbrev pub IsStore : (cr3 dst len : ℕ) → M (Unit {0}) → Type 0
IsStore cr3 dst len m =
    (own : Owner) (s : Physical)
    → IsClosed own s
    → IsApart own
    → HasUpperHalf cr3 own
    → upper_half ≤ dst
    → dst + len < 2 ^ 64
    → IsCovered cr3 dst (dst + len) s
    → (s' : Physical) × (m s ≡ ok tt s') × IsStored cr3 dst (dst + len) s s'

-- A page that is mapped is one of the pages in use.
frame_of-owned :
    (own : Owner) (s : Physical) (level table p : ℕ)
    → IsClosed own s
    → own (suc level) table (p / span level) ≡ true
    → mapped s.words (suc level) table p ≡ true
    → (j : ℕ) → own 0 (frame_of s.words (suc level) table p) j ≡ true
unfolding frame_of
frame_of-owned own s zero table p v o h j =
    let (there, below) = mapped_entry s.words 0 table p h in v.child 0 table (p / span 0) o there j
frame_of-owned own s (suc level) table p v o h j =
    let i = p / span (suc level) in
    let q = p % span (suc level) in
    let (there, below) = mapped_entry s.words (suc level) table p h in
    let mine = v.child (suc level) table i o there (q / span level) in
    frame_of-owned own s level (pointer (s.words table i)) q v mine below j

-- All entries are as they were.
abbrev pub KeepsEntries : Owner → (s s' : Physical) → Type 0
KeepsEntries own s s' = (l f i : ℕ) → own (suc l) f i ≡ true → s'.words f i ≡ s.words f i

-- So the same pages are mapped, in the same frames.
mapped-KeepsEntries :
    (own : Owner) (s s' : Physical) (level table p : ℕ)
    → IsClosed own s
    → KeepsEntries own s s'
    → own (suc level) table (p / span level) ≡ true
    → mapped s.words (suc level) table p ≡ true
    → (mapped s'.words (suc level) table p ≡ true)
      × (frame_of s'.words (suc level) table p ≡ frame_of s.words (suc level) table p)
unfolding mapped frame_of
mapped-KeepsEntries own s s' zero table p v keeps o h =
    let i = p / span 0 in
    let (there, below) = mapped_entry s.words 0 table p h in
    let same = keeps 0 table i o in
    (
      mapped_below s'.words 0 table p (ap (λ n. present n) same ∙ there) refl,
      ap (λ n. pointer n) same,
    )
mapped-KeepsEntries own s s' (suc level) table p v keeps o h =
    let i = p / span (suc level) in
    let q = p % span (suc level) in
    let (there, below) = mapped_entry s.words (suc level) table p h in
    let same = keeps (suc level) table i o in
    let mine = v.child (suc level) table i o there (q / span level) in
    let (on, at) =
      mapped-KeepsEntries own s s' level (pointer (s.words table i)) q v keeps mine below in
    let there' = ap (λ n. present n) same ∙ there in
    (
      mapped_below s'.words (suc level) table p there'
          (ap (λ (n : ℕ). mapped s'.words (suc level) (pointer n) q) same ∙ on),
      ap (λ (n : ℕ). frame_of s'.words (suc level) (pointer n) q) same ∙ at,
    )

-- The address is in a page of an entry of the upper half.
entry_upper : (a : ℕ) → upper_half ≤ a → a < 2 ^ 64 → 256 ≤ page 4 a / span 3
entry_upper a low high = omega arith

module _ (own : Owner) (cr3 low high : ℕ) (s s' : Physical) (v : IsClosed own s)
    (apart : IsApart own) (tables : HasUpperHalf cr3 own) (upper : upper_half ≤ low)
    (small : high < 2 ^ 64) (covered : IsCovered cr3 low high s)
    (stored : IsStored cr3 low high s s') where
  -- Stores to the program's pages change no table.
  pub IsStored-KeepsEntries : KeepsEntries own s s'
  IsStored-KeepsEntries l f i o = stored.1 f i (λ a from below e.
      let mine =
        frame_of-owned own s 3 cr3 (page 4 a) v
          (tables (page 4 a / span 3)
            (entry_upper a (omega (arith, upper, from)) (omega (arith, below, small))))
          (covered a from below) i in
      let n = apart (suc l) 0 f i i o (subst (λ (g : ℕ). own 0 g i ≡ true) (sym e) mine) in
      absurd (omega (arith, n)))

  pub IsStored-IsClosed : IsClosed own s'
  IsStored-IsClosed =
      let m = stored.0 in
      record {
        valid = rw m v.valid;
        allocated = λ l f i o. rw m (v.allocated l f i o);
        child = λ l f i o there j.
            let same = IsStored-KeepsEntries l f i o in
            subst (λ (n : ℕ). own l (pointer n) j ≡ true) (sym same)
              (v.child l f i o (ap (λ n. present n) (sym same) ∙ there) j);
      }

  pub IsStored-mapped :
      (a : ℕ)
      → low ≤ a
      → a < high
      → (mapped s'.words 4 cr3 (page 4 a) ≡ true) × (frame_at cr3 a s' ≡ frame_at cr3 a s)
  IsStored-mapped a from below =
      mapped-KeepsEntries own s s' 3 cr3 (page 4 a) v IsStored-KeepsEntries
        (tables (page 4 a / span 3)
          (entry_upper a (omega (arith, upper, from)) (omega (arith, below, small))))
        (covered a from below)

  -- A second store to the pages of the range.
  pub IsStored-trans : (s'' : Physical) → IsStored cr3 low high s' s'' → IsStored cr3 low high s s''
  IsStored-trans s'' (same, keeps) = (
    same ∙ stored.0,
    λ f i away.
        keeps f i (λ a from below e. away a from below (e ∙ (IsStored-mapped a from below).1))
        ∙ stored.1 f i away,
  )

pub IsStored-wider :
    (cr3 low high dst end : ℕ) (s s' : Physical)
    → low ≤ dst
    → end ≤ high
    → IsStored cr3 dst end s s'
    → IsStored cr3 low high s s'
IsStored-wider cr3 low high dst end s s' l h (same, keeps) = (
  same,
  λ f i away. keeps f i (λ a from below. away a (omega (arith, l, from)) (omega (arith, h, below))),
)

-- The call ends, and has stored to the pages of the range only.
abbrev pub StoresTo : (cr3 low high : ℕ) → Physical → M (Unit {0}) → Type 0
StoresTo cr3 low high s m = (s' : Physical) × (m s ≡ ok tt s') × IsStored cr3 low high s s'
