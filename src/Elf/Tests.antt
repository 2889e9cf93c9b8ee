-- ===== src/Elf/Tests.antt =====
-- A small program, and the instance of the theorem about it.
use mikan_os.Prelude.{
  ℕ, zero, suc, ◌+◌, ◌*◌, ◌/◌, ◌≤◌, ◌<◌, ◌≡◌, ◌≢◌, ◌%◌, refl, [], ◌∷◌, true, false, ◌&&◌, ◌==◌, leb,
  if◌then◌else◌, arith,
}
use mikan_os.Memory.{BitmapMemoryManager, get_bit, mark_allocated}
use mikan_os.Memory.Bitmap.{IsValid, get_bit-mark_allocated, mark_allocated-IsValid}
use mikan_os.Paging.{Physical, M, ok, set_field}
use mikan_os.Paging.Address.{page}
use mikan_os.Paging.Owned.{Owner, IsApart, IsClosed}
use mikan_os.Elf.{Ehdr, Stores, get_first_load_address, load_range, load_elf}
use mikan_os.Elf.Stored.{upper_half, frame_of, IsStore}
use mikan_os.Elf.Outcome.{LoadOutcome}
use mikan_os.Elf.Loaded.{load_elf-IsLoaded}

abbrev empty_manager : BitmapMemoryManager
empty_manager = record { alloc_map = 0 ∷ []; range_begin = 1; range_end = 64 }

abbrev one_frame : BitmapMemoryManager
one_frame = mark_allocated empty_manager 1 1

one_frame-IsValid : IsValid one_frame
one_frame-IsValid = mark_allocated-IsValid empty_manager 1 1 (omega arith)

one_frame_used : (f : ℕ) → (f == 1) ≡ true → get_bit one_frame f ≡ true
one_frame_used f h =
    ground (arith, get_bit-mark_allocated empty_manager 1 1 (omega arith) (omega arith) f)

-- An empty table of level 4 in frame 1, whose upper half is for programs.
abbrev one_table : Physical
one_table = record { words = λ f i. 0; manager = one_frame }

abbrev upper_entries : Owner
upper_entries l f i = l == 4 && f == 1 && leb 256 i

upper_entries-IsClosed : IsClosed upper_entries one_table
upper_entries-IsClosed = record {
  valid = one_frame-IsValid;
  allocated = λ l f i o. one_frame_used f (ground arith);
  child = λ l f i o there. absurd (ground arith);
}

upper_entries-IsApart : IsApart upper_entries
upper_entries-IsApart l k f i j o o' = ground arith

-- The bytes that `memcpy` or `memset` writes, one after another, to where the tables lead.
store_bytes : (ℕ → ℕ → ℕ) → (cr3 : ℕ) → (content : ℕ → ℕ) → (dst len : ℕ) → ℕ → ℕ → ℕ
store_bytes words cr3 content dst zero f i = words f i
store_bytes words cr3 content dst (suc n) f i =
    let a = dst + n in
    let w = store_bytes words cr3 content dst n f i in
    if f == frame_of words 4 cr3 (page 4 a) && i == a % 4096 / 8
    then set_field w (8 * (a % 8)) 8 (content n)
    else w

abbrev store : (cr3 : ℕ) → (content : ℕ → ℕ) → (dst len : ℕ) → M (Unit {0})
store cr3 content dst len s = ok tt (record s { words = store_bytes s.words cr3 content dst len })

store_bytes_other :
    (words : ℕ → ℕ → ℕ) (cr3 : ℕ) (content : ℕ → ℕ) (dst len f i : ℕ)
    → ((a : ℕ) → dst ≤ a → a < dst + len → f ≢ frame_of words 4 cr3 (page 4 a))
    → store_bytes words cr3 content dst len f i ≡ words f i
unfolding store_bytes
store_bytes_other words cr3 content dst zero f i away = refl
store_bytes_other words cr3 content dst (suc n) f i away =
    let rest =
      store_bytes_other words cr3 content dst n f i
        (λ a from below. away a from (omega (arith, below))) in
    let other : (f == frame_of words 4 cr3 (page 4 (dst + n))) ≡ false =
      ground (arith, away (dst + n) (omega arith) (omega arith)) in
    rw other rest

store-IsStore :
    (cr3 : ℕ) (content : ℕ → ℕ) (dst len : ℕ) → IsStore cr3 dst len (store cr3 content dst len)
store-IsStore cr3 content dst len own s v apart tables upper small covered = (
  record s { words = store_bytes s.words cr3 content dst len },
  refl,
  (refl, λ f i away. store_bytes_other s.words cr3 content dst len f i away),
)

-- The stores of a file whose byte `n` is the low byte of `n`.
abbrev file_stores : Stores
file_stores = record {
  copy = λ dst offset len. store 1 (λ n. (offset + n) % 256) dst len;
  clear = λ dst len. store 1 (λ n. 0) dst len;
}

-- Two segments in two pages, with a note between them.
abbrev program : Ehdr
program = record {
  e_type = 2;
  phdrs =
      record { p_type = 1; p_offset = 64; p_vaddr = upper_half; p_filesz = 900; p_memsz = 1000 }
      ∷ record { p_type = 4; p_offset = 0; p_vaddr = upper_half; p_filesz = 8; p_memsz = 8 }
      ∷ record {
        p_type = 1;
        p_offset = 1000;
        p_vaddr = upper_half + 5120;
        p_filesz = 10;
        p_memsz = 4000;
      }
      ∷ [];
}

program_first : upper_half ≤ get_first_load_address program.phdrs
unfolding get_first_load_address
program_first = omega arith

program_aligned : (load_range program.phdrs 18446744073709551615 0).0 % 4096 ≡ 0
unfolding load_range
program_aligned = refl

load_elf-IsLoaded_example :
    let r = load_range program.phdrs 18446744073709551615 0 in
    LoadOutcome 1 r.0 r.1 program.phdrs upper_entries one_table
      (load_elf file_stores 1 program one_table)
load_elf-IsLoaded_example =
    load_elf-IsLoaded file_stores 1 program upper_entries one_table upper_entries-IsClosed
      upper_entries-IsApart (λ j h. ground (arith, h))
      (λ dst offset len. store-IsStore 1 (λ n. (offset + n) % 256) dst len)
      (λ dst len. store-IsStore 1 (λ n. 0) dst len) refl program_first
      ((λ e. omega arith), ((λ e. omega arith), ((λ e. omega arith), tt)))
      (
        (λ e. (omega arith, omega arith)),
        ((λ e. (omega arith, omega arith)), ((λ e. (omega arith, omega arith)), tt)),
      )
      program_aligned
