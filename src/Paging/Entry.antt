-- ===== src/Paging/Entry.antt =====
-- What the writes to the fields of an entry change.
use mikan_os.Prelude.{ℕ, ◌^◌, ◌<◌, ◌≡◌, Bool, true, false, arith}
use mikan_os.Paging.{
  present, writable, user, pointer, set_pointer, set_present, set_writable, set_user,
}

-- An entry that is made to point to a table.
pub linked_entry :
    (e p : ℕ)
    → p < 2 ^ 40
    → (present (set_present (set_pointer e p)) ≡ true)
      × (pointer (set_present (set_pointer e p)) ≡ p)
unfolding pointer set_pointer set_present
linked_entry e p h = (ground arith, omega arith)

-- The rights of an entry are set, and nothing else of it.
pub granted_entry :
    (e : ℕ) (b : Bool)
    → let e' = set_writable b (set_user e) in
      (present e' ≡ present e) × (pointer e' ≡ pointer e) × (writable e' ≡ b) × (user e' ≡ true)
unfolding pointer set_writable set_user
granted_entry e true = (ground arith, omega arith, ground arith, ground arith)
granted_entry e false = (ground arith, omega arith, ground arith, ground arith)

-- A write to `writable` alone.
pub writable_entry :
    (e : ℕ) (b : Bool)
    → (present (set_writable b e) ≡ present e)
      × (pointer (set_writable b e) ≡ pointer e)
      × (writable (set_writable b e) ≡ b)
unfolding pointer set_writable
writable_entry e true = (ground arith, omega arith, ground arith)
writable_entry e false = (ground arith, omega arith, ground arith)

-- A write to the pointer alone.
pub pointer_entry :
    (e p : ℕ)
    → p < 2 ^ 40
    → (present (set_pointer e p) ≡ present e) × (pointer (set_pointer e p) ≡ p)
unfolding pointer set_pointer
pointer_entry e p h = (ground arith, omega arith)
