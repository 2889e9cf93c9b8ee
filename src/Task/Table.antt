-- ===== src/Task/Table.antt =====
-- The task table: how a look-up sees the changes that the scheduler makes.
use mikan_os.Prelude.{
  ℕ, ◌≡◌, refl, List, [], ◌∷◌, ◌++◌, Option, none, some, ◌==◌, if◌then◌else◌, arith,
}
use mikan_os.Task.{Task, find, modify, remove}

module _ {C : Type 0} where
  abbrev pub apply_to : (Task C → Task C) → Option (Task C) → Option (Task C)
  apply_to f none = none
  apply_to f (some t) = some (f t)

  pub find-id : (i : ℕ) (ts : List (Task C)) (t : Task C) → find i ts ≡ some t → t.id ≡ i
  find-id i [] t h = ground arith
  find-id i (u ∷ ts) t h = ground (arith, find-id i ts t)

  pub find-modify :
      (i j : ℕ) (f : Task C → Task C)
      → ((t : Task C) → (f t).id ≡ t.id)
      → (ts : List (Task C))
      → find i (modify j f ts) ≡ (if j == i then apply_to f (find i ts) else find i ts)
  find-modify i j f keeps [] = ground arith
  find-modify i j f keeps (t ∷ ts) = ground (arith, keeps t, find-modify i j f keeps ts)

  abbrev pub or_else : Option (Task C) → Option (Task C) → Option (Task C)
  or_else none o = o
  or_else (some t) o = some t

  pub find-append :
      (i : ℕ) (ts : List (Task C)) (t : Task C)
      → find i (ts ++ (t ∷ [])) ≡ or_else (find i ts) (if t.id == i then some t else none)
  find-append i [] t = refl
  find-append i (u ∷ ts) t = ground (arith, find-append i ts t)

  -- No two tasks of the table have the same id.
  abbrev pub IsUnique : List (Task C) → Type 0
  IsUnique [] = Unit {0}
  IsUnique (t ∷ ts) = (find t.id ts ≡ none) × IsUnique ts

  pub find-remove :
      (i j : ℕ) (ts : List (Task C))
      → IsUnique ts
      → find i (remove j ts) ≡ (if j == i then none else find i ts)
  find-remove i j [] u = ground arith
  find-remove i j (t ∷ ts) u = ground (arith, find-remove i j ts u.1)

  pub modify-IsUnique :
      (j : ℕ) (f : Task C → Task C)
      → ((t : Task C) → (f t).id ≡ t.id)
      → (ts : List (Task C)) → IsUnique ts
      → IsUnique (modify j f ts)
  modify-IsUnique j f keeps [] u = tt
  modify-IsUnique j f keeps (t ∷ ts) u =
      ground (arith, keeps t, find-modify t.id j f keeps ts, modify-IsUnique j f keeps ts u.1)

  pub remove-IsUnique : (j : ℕ) (ts : List (Task C)) → IsUnique ts → IsUnique (remove j ts)
  remove-IsUnique j [] u = tt
  remove-IsUnique j (t ∷ ts) u = ground (arith, find-remove t.id j ts u.1, remove-IsUnique j ts u.1)

  pub append-IsUnique :
      (ts : List (Task C)) (t : Task C)
      → find t.id ts ≡ none
      → IsUnique ts
      → IsUnique (ts ++ (t ∷ []))
  append-IsUnique [] t h u = (refl, tt)
  append-IsUnique (v ∷ ts) t h u = ground (arith, find-append v.id ts t, append-IsUnique ts t)
