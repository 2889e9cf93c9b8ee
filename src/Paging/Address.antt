-- ===== src/Paging/Address.antt =====
-- The parts of an address as digits of its page number, and what the step of SetupPageMap does to it.
use mikan_os.Prelude.{ℕ, zero, suc, ◌+◌, ◌*◌, ◌/◌, ◌%◌, ◌<◌, ◌≡◌, arith}
use mikan_os.Paging.{part, set_part, clear_parts, next_entry}

-- How many pages an entry of a table of the next level has.
abbrev pub span : ℕ → ℕ
span zero = 1
span (suc level) = 512 * span level

-- The number of the address's page among those of a table.
abbrev pub page : ℕ → ℕ → ℕ
page level addr = addr / 4096 % span level

pub part_lem :
    (level addr : ℕ) → level < 4 → part (suc level) addr ≡ page (suc level) addr / span level
unfolding part
part_lem zero addr h = omega arith
part_lem (suc zero) addr h = omega arith
part_lem (suc (suc zero)) addr h = omega arith
part_lem (suc (suc (suc zero))) addr h = omega arith
part_lem (suc (suc (suc (suc level)))) addr h = absurd (omega arith)

pub page_below : (level addr : ℕ) → level < 4 → page level addr ≡ page (suc level) addr % span level
page_below zero addr h = omega arith
page_below (suc zero) addr h = omega arith
page_below (suc (suc zero)) addr h = omega arith
page_below (suc (suc (suc zero))) addr h = omega arith
page_below (suc (suc (suc (suc level)))) addr h = absurd (omega arith)

-- The page numbers that the writes to the parts leave.
set_part_page :
    (a v : ℕ)
    → (set_part 1 a v / 4096 ≡ a / 4096 / 512 * 512 + v % 512)
      × (set_part 2 a v / 4096 ≡ a / 4096 / 262144 * 262144 + v % 512 * 512 + a / 4096 % 512)
      × (set_part 3 a v / 4096
          ≡ a / 4096 / 134217728 * 134217728 + v % 512 * 262144 + a / 4096 % 262144)
      × (set_part 4 a v / 4096
          ≡ a / 4096 / 68719476736 * 68719476736 + v % 512 * 134217728 + a / 4096 % 134217728)
unfolding set_part
set_part_page a v = (omega arith, omega arith, omega arith, omega arith)

-- The step goes to the first page of the next entry.
pub next_entry_lem :
    (level addr i : ℕ)
    → level < 4
    → i < 511
    → page (suc level) (next_entry level addr i) ≡ (i + 1) * span level
unfolding next_entry clear_parts
next_entry_lem zero addr i h lt = omega (arith, (set_part_page addr (i + 1)).0)
next_entry_lem (suc zero) addr i h lt =
    let a = set_part 2 addr (i + 1) in
    omega (arith, (set_part_page addr (i + 1)).1, (set_part_page a 0).0)
next_entry_lem (suc (suc zero)) addr i h lt =
    let a = set_part 3 addr (i + 1) in
    omega (
      arith,
      (set_part_page addr (i + 1)).2,
      (set_part_page a 0).1,
      (set_part_page (set_part 2 a 0) 0).0,
    )
next_entry_lem (suc (suc (suc zero))) addr i h lt =
    let a = set_part 4 addr (i + 1) in
    let b = set_part 3 a 0 in
    omega (
      arith,
      (set_part_page addr (i + 1)).3,
      (set_part_page a 0).2,
      (set_part_page b 0).1,
      (set_part_page (set_part 2 b 0) 0).0,
    )
next_entry_lem (suc (suc (suc (suc level)))) addr i h lt = absurd (omega arith)
