-- ===== src/Paging/Clean.antt =====
-- kernel/paging.cpp, CleanPageMap and CleanPageMaps: the tables and pages behind an address are freed.
use mikan_os.Prelude.{ℕ, zero, suc, ◌-◌, if◌then◌else◌, ltb}
use mikan_os.Paging.{
  M, ◌>>=◌, ◌>>◌, pure, stuck, entry, put_entry, present, writable, pointer, free_frame, part,
}
use mikan_os.Paging.Copy.{each_entry}

-- What is freed of a present entry `e` of a table of a level: the tables below, and its own frame, if
-- it is writable. `child` cleans the next level.
unfoldable pub clean_entry : (ℕ → M (Unit {0})) → (level table i e : ℕ) → M (Unit {0})
clean_entry child level table i e =
    (if ltb 1 level then child (pointer e) else pure tt)
    >> (if writable e then free_frame (pointer e) else pure tt)
    >> put_entry table i 0

unfoldable pub clean_round : (ℕ → M (Unit {0})) → (level table i : ℕ) → M (Unit {0})
clean_round child level table i =
    entry table i >>= λ e. if present e then clean_entry child level table i e else pure tt

-- `CleanPageMap`. No caller passes level 0.
unfoldable pub clean_page_map : (level table addr : ℕ) → M (Unit {0})
clean_page_map zero table addr = λ s. stuck
clean_page_map (suc level) table addr =
    let first = part (suc level) addr in
    each_entry (clean_round (λ below. clean_page_map level below addr) (suc level) table)
      (512 - first) first

-- `CleanPageMaps`, with the table that CR3 points to.
pub clean_page_maps : (cr3 addr : ℕ) → M (Unit {0})
clean_page_maps cr3 addr = clean_page_map 4 cr3 addr
