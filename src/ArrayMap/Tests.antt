-- ===== src/ArrayMap/Tests.antt =====
-- A map of three slots, and the instance of the theorem.
use mikan_os.Prelude.{ℕ, ◌≡◌, refl, List, [], ◌∷◌, Option, none, some, ◌==◌, if◌then◌else◌, arith}
use mikan_os.ArrayMap.{get, put, delete}
use mikan_os.ArrayMap.Laws.{count, free_slots, put-delete}

abbrev slots : List (Option ℕ × ℕ)
slots = (some 1, 10) ∷ (none, 20) ∷ (none, 30) ∷ []

put-delete_example :
    ((k : ℕ) → get (put slots 5 50) k ≡ (if k == 5 then some 50 else get slots k))
    × ((k : ℕ) → get (delete (put slots 5 50) 5) k ≡ get slots k)
    × (free_slots (delete (put slots 5 50) 5) ≡ free_slots slots)
unfolding count free_slots
put-delete_example = put-delete slots 5 50 refl (omega arith)
