-- ===== src/ArrayMap/Laws.antt =====
-- ArrayMap against the finite map that it stands for.
use mikan_os.Prelude.{
  ℕ, suc, ◌≤◌, ◌<◌, ◌≡◌, refl, List, [], ◌∷◌, Option, none, some, ◌==◌, if◌then◌else◌, arith,
}
use mikan_os.ArrayMap.{holds, is_free, get, put, delete}

module _ {V : Type 0} where
  -- How many slots hold a key, and how many are free.
  unfoldable pub count : ℕ → List (Option ℕ × V) → ℕ
  count key [] = 0
  count key ((k, value) ∷ table) = if holds key k then suc (count key table) else count key table

  unfoldable pub free_slots : List (Option ℕ × V) → ℕ
  free_slots [] = 0
  free_slots ((k, value) ∷ table) = if is_free k then suc (free_slots table) else free_slots table

  get-count : (table : List (Option ℕ × V)) (key : ℕ) → count key table ≡ 0 → get table key ≡ none
  unfolding get count
  get-count [] key h = refl
  get-count ((none, value) ∷ table) key h = ground (arith, get-count table key)
  get-count ((some k, value) ∷ table) key h = ground (arith, get-count table key)

  get-put :
      (table : List (Option ℕ × V)) (key k : ℕ) (value : V)
      → count key table ≡ 0
      → 0 < free_slots table
      → get (put table key value) k ≡ (if k == key then some value else get table k)
  unfolding get put count free_slots
  get-put [] key k value h f = ground arith
  get-put ((none, old) ∷ table) key k value h f = ground (arith, get-count table k)
  get-put ((some j, old) ∷ table) key k value h f = ground (arith, get-put table key k value)

  count-put :
      (table : List (Option ℕ × V)) (key k : ℕ) (value : V)
      → 0 < free_slots table
      → count k (put table key value) ≡ (if k == key then suc (count k table) else count k table)
  unfolding put count free_slots
  count-put [] key k value f = ground arith
  count-put ((none, old) ∷ table) key k value f = ground arith
  count-put ((some j, old) ∷ table) key k value f = ground (arith, count-put table key k value)

  get-delete :
      (table : List (Option ℕ × V)) (key k : ℕ)
      → count key table ≤ 1
      → get (delete table key) k ≡ (if k == key then none else get table k)
  unfolding get delete count
  get-delete [] key k h = ground arith
  get-delete ((none, old) ∷ table) key k h = ground (arith, get-delete table key k)
  get-delete ((some j, old) ∷ table) key k h =
      ground (arith, get-delete table key k, get-count table key)

  -- Deletion of a key that one slot holds gives the slot back.
  delete-put-free :
      (table : List (Option ℕ × V)) (key : ℕ) (value : V)
      → count key table ≡ 0
      → free_slots (delete (put table key value) key) ≡ free_slots table
  unfolding put delete count free_slots
  delete-put-free [] key value h = ground arith
  delete-put-free ((none, old) ∷ table) key value h = ground arith
  delete-put-free ((some j, old) ∷ table) key value h =
      ground (arith, delete-put-free table key value)

  -- For a key that no slot holds and with a slot free, `Put` sets the value of that key and of no other,
  -- and `Delete` after it takes the key away again, leaves the other keys as they were, and frees the
  -- slot.
  pub put-delete :
      (table : List (Option ℕ × V)) (key : ℕ) (value : V)
      → count key table ≡ 0
      → 0 < free_slots table
      → ((k : ℕ) → get (put table key value) k ≡ (if k == key then some value else get table k))
        × ((k : ℕ) → get (delete (put table key value) key) k ≡ get table k)
        × (free_slots (delete (put table key value) key) ≡ free_slots table)
  put-delete table key value h f = (
    λ k. get-put table key k value h f,
    λ k. ground (
      arith,
      get-delete (put table key value) key k,
      count-put table key key value,
      get-put table key k value,
      get-count table key,
    ),
    delete-put-free table key value h,
  )
