-- ===== src/Paging.antt =====
-- kernel/paging.hpp and kernel/paging.cpp: page tables of four levels in physical memory, over the frame
-- allocator. A pointer to a table is the number of its frame, and a table is the 512 words of the frame.
pub mod Address
pub mod Entry
pub mod Owned
pub mod Steps
pub mod Setup
pub mod Copy
pub mod Clean
pub mod Fault
mod Tests
use mikan_os.Prelude.{
  ℕ, zero, suc, ◌+◌, ◌-◌, ◌*◌, ◌/◌, ◌%◌, ◌^◌, List, [], ◌∷◌, Bool, true, false, not, ◌&&◌, Option,
  none, some, ltb, leb, ◌==◌, if◌then◌else◌,
}
use mikan_os.Error.{Code, WithError, failed}
use mikan_os.Memory.{BitmapMemoryManager, allocate, free}

-- A bit field of a word, and a write to one.
abbrev pub field_at : ℕ → (shift width : ℕ) → ℕ
field_at w shift width = w / 2 ^ shift % 2 ^ width

abbrev pub set_field : ℕ → (shift width value : ℕ) → ℕ
set_field w shift width value =
    w / 2 ^ (shift + width) * 2 ^ (shift + width) + value % 2 ^ width * 2 ^ shift + w % 2 ^ shift

-- `LinearAddress4Level::Part` and `SetPart`.
unfoldable pub part : ℕ → ℕ → ℕ
part zero addr = field_at addr 0 12
part (suc zero) addr = field_at addr 12 9
part (suc (suc zero)) addr = field_at addr 21 9
part (suc (suc (suc zero))) addr = field_at addr 30 9
part (suc (suc (suc (suc zero)))) addr = field_at addr 39 9
part _ addr = 0

unfoldable pub set_part : ℕ → ℕ → ℕ → ℕ
set_part zero addr value = set_field addr 0 12 value
set_part (suc zero) addr value = set_field addr 12 9 value
set_part (suc (suc zero)) addr value = set_field addr 21 9 value
set_part (suc (suc (suc zero))) addr value = set_field addr 30 9 value
set_part (suc (suc (suc (suc zero)))) addr value = set_field addr 39 9 value
set_part _ addr value = addr

-- `PageMapEntry`: a word of 64 bits.
abbrev pub present : ℕ → Bool
present e = field_at e 0 1 == 1

abbrev pub writable : ℕ → Bool
writable e = field_at e 1 1 == 1

abbrev pub user : ℕ → Bool
user e = field_at e 2 1 == 1

abbrev pub bit : Bool → ℕ
bit b = if b then 1 else 0

unfoldable pub pointer : ℕ → ℕ
pointer e = field_at e 12 40

unfoldable pub set_pointer : ℕ → ℕ → ℕ
set_pointer e p = set_field e 12 40 p

unfoldable pub set_present : ℕ → ℕ
set_present e = set_field e 0 1 1

unfoldable pub set_writable : Bool → ℕ → ℕ
set_writable b e = set_field e 1 1 (bit b)

unfoldable pub set_user : ℕ → ℕ
set_user e = set_field e 2 1 1

-- Physical memory: the words of each frame, and the allocator.
pub record Physical : Type 0 where
  pub words : ℕ → ℕ → ℕ
  pub manager : BitmapMemoryManager

-- `stuck` is a loop that goes on after all of its fuel.
pub data Result (A : Type 0) : Type 0 where
  ok : A → Physical → Result A
  err : Code → Physical → Result A
  stuck : Result A

abbrev pub M : Type 0 → Type 0
M A = Physical → Result A

infixl 5 ◌>>=◌ ◌>>◌
abbrev pub ◌>>=◌ : {A B : Type 0} → M A → (A → M B) → M B
◌>>=◌ m f s = elim (m s) [ ok a s' ↦ f a s' | err e s' ↦ err e s' | stuck ↦ stuck ]

abbrev pub ◌>>◌ : {A B : Type 0} → M A → M B → M B
m >> k = m >>= λ _. k

abbrev pub pure : {A : Type 0} → A → M A
pure a s = ok a s

-- A read and a write of an entry.
unfoldable pub entry : ℕ → ℕ → M ℕ
entry table i s = ok (s.words table i) s

unfoldable pub put_entry : ℕ → ℕ → ℕ → M (Unit {0})
put_entry table i e s =
    ok tt (record s { words = λ f j. if f == table && j == i then e else s.words f j })

-- `memset` of a frame.
unfoldable pub fill_frame : ℕ → (ℕ → ℕ) → M (Unit {0})
fill_frame frame content s =
    ok tt (record s { words = λ f j. if f == frame then content j else s.words f j })

-- `memory_manager->Allocate(1)` and `Free(frame, 1)`.
unfoldable pub allocate_frame : M ℕ
allocate_frame s = elim (allocate s.manager 1) [
  | none ↦ stuck
  | some (r, m) ↦
      if failed r.error
      then err r.error (record s { manager = m })
      else ok r.value (record s { manager = m })
]

unfoldable pub free_frame : ℕ → M (Unit {0})
free_frame frame s =
    let (code, m) = free s.manager frame 1 in
    if failed code then err code (record s { manager = m }) else ok tt (record s { manager = m })

-- `NewPageMap`.
unfoldable pub new_page_map : M ℕ
new_page_map = do frame ← allocate_frame; fill_frame frame (λ j. 0); pure frame

-- `FreePageMap`.
pub free_page_map : ℕ → M (Unit {0})
free_page_map table = free_frame table

-- `setNewPageMapIfNotPresent` of the entry `i` of a table, from the call of `NewPageMap` on.
unfoldable pub set_new_page_map : ℕ → ℕ → M ℕ
set_new_page_map table i = do
  child ← new_page_map
  e ← entry table i
  put_entry table i (set_present (set_pointer e child))
  pure child

unfoldable pub set_new_page_map_if_not_present : ℕ → ℕ → M ℕ
set_new_page_map_if_not_present table i =
    entry table i >>= λ e. if present e then pure (pointer e) else set_new_page_map table i

-- The loop of `SetupPageMap` that clears the parts of the levels below.
unfoldable pub clear_parts : ℕ → ℕ → ℕ
clear_parts zero addr = addr
clear_parts (suc level) addr = clear_parts level (set_part (suc level) addr 0)

-- The address of the next entry of a table of the level after `level`.
unfoldable pub next_entry : ℕ → ℕ → ℕ → ℕ
next_entry level addr i = clear_parts level (set_part (suc level) addr (i + 1))

-- One round of the loop of `SetupPageMap` at the level after `level`: the pages that are left. `child`
-- is what it calls with the table of the entry.
unfoldable pub setup_entry : (ℕ → ℕ → ℕ → M ℕ) → Bool → (level table addr num_4kpages : ℕ) → M ℕ
setup_entry child is_writable level table addr num_4kpages = do
  let i = part (suc level) addr
  child_map ← set_new_page_map_if_not_present table i
  e ← entry table i
  put_entry table i (set_writable (if level == 0 then is_writable else true) (set_user e))
  child child_map addr num_4kpages

-- The loop, with the rounds that are left.
unfoldable pub setup_loop : (ℕ → ℕ → ℕ → M ℕ) → Bool → ℕ → ℕ → (table addr num_4kpages : ℕ) → M ℕ
setup_loop child is_writable level zero table addr num_4kpages s = stuck
setup_loop child is_writable level (suc rounds) table addr num_4kpages s =
    let i = part (suc level) addr in
    let round =
      (setup_entry child is_writable level table addr num_4kpages >>= λ left. elim (i == 511) [
        | true ↦ pure left
        | false ↦ setup_loop child is_writable level rounds table (next_entry level addr i) left
      ])
        s in
    if num_4kpages == 0 then ok 0 s else round

-- `SetupPageMap`. It never has more than 512 rounds. The level 0 is a page, which it counts itself; the
-- count that it returns with an error has no reader.
unfoldable pub setup_page_map : ℕ → Bool → (table addr num_4kpages : ℕ) → M ℕ
setup_page_map zero is_writable table addr num_4kpages = pure (num_4kpages - 1)
setup_page_map (suc level) is_writable table addr num_4kpages =
    setup_loop (setup_page_map level is_writable) is_writable level 512 table addr num_4kpages

-- `SetupPageMaps`, with the table that CR3 points to.
unfoldable pub setup_page_maps : ℕ → Bool → (addr num_4kpages : ℕ) → M ℕ
setup_page_maps cr3 is_writable addr num_4kpages = setup_page_map 4 is_writable cr3 addr num_4kpages
