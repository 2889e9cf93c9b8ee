-- ===== src/Paging/Copy.antt =====
-- kernel/paging.cpp, CopyPageMaps: a copy of the tables, down to the pages, which both then share.
pub mod Tree
pub mod Entries
pub mod Linked
pub mod Levels
use mikan_os.Prelude.{ℕ, zero, suc, ◌+◌, ◌-◌, false, if◌then◌else◌}
use mikan_os.Paging.{
  M, ◌>>=◌, ◌>>◌, pure, stuck, entry, put_entry, present, pointer, set_pointer, set_writable,
  new_page_map,
}

-- A round of the loop over the entries of a table of pages.
unfoldable pub copy_leaf : (dest src i : ℕ) → M (Unit {0})
copy_leaf dest src i = entry src i >>= λ e.
    if present e
    then (do put_entry dest i e; d ← entry dest i; put_entry dest i (set_writable false d))
    else pure tt

-- What a round does with a present entry of a table of tables; `child` copies the next level.
unfoldable pub copy_table : (ℕ → ℕ → M (Unit {0})) → (dest src i : ℕ) → M (Unit {0})
copy_table child dest src i = do
  table ← new_page_map
  e ← entry src i
  put_entry dest i e
  d ← entry dest i
  put_entry dest i (set_pointer d table)
  e' ← entry src i
  child table (pointer e')

unfoldable pub copy_branch : (ℕ → ℕ → M (Unit {0})) → (dest src i : ℕ) → M (Unit {0})
copy_branch child dest src i =
    entry src i >>= λ e. if present e then copy_table child dest src i else pure tt

-- `n` rounds of a loop over the entries from `i` on.
unfoldable pub each_entry : (ℕ → M (Unit {0})) → ℕ → ℕ → M (Unit {0})
each_entry round zero i = pure tt
each_entry round (suc n) i = round i >> each_entry round n (i + 1)

-- `CopyPageMaps`. With part 0, which no caller passes, the recursion would not stop.
unfoldable pub copy_page_maps : (level dest src start : ℕ) → M (Unit {0})
copy_page_maps zero dest src start s = stuck
copy_page_maps (suc zero) dest src start s = each_entry (copy_leaf dest src) (512 - start) start s
copy_page_maps (suc (suc level)) dest src start s =
    each_entry (copy_branch (λ table old. copy_page_maps (suc level) table old 0) dest src)
      (512 - start) start s
