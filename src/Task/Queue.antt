-- ===== src/Task/Queue.antt =====
-- The run queues: `std::deque<Task *>` as a list of ids, and the array of queues as a function.
use mikan_os.Prelude.{
  ℕ, suc, ◌+◌, ◌≡◌, refl, List, [], ◌∷◌, ◌++◌, Bool, true, false, ◌==◌, if◌then◌else◌, arith,
}

-- `Erase` of kernel/task.cpp: every element equal to `value` goes.
abbrev pub erase : ℕ → List ℕ → List ℕ
erase value [] = []
erase value (x ∷ xs) = if x == value then erase value xs else x ∷ erase value xs

abbrev pub is_empty : List ℕ → Bool
is_empty [] = true
is_empty (x ∷ xs) = false

-- `front`; 0 stands for the undefined value at an empty queue.
abbrev pub front : List ℕ → ℕ
front [] = 0
front (x ∷ xs) = x

abbrev pub pop_front : List ℕ → List ℕ
pop_front [] = []
pop_front (x ∷ xs) = xs

-- A change to one queue of the array.
abbrev pub update : (ℕ → List ℕ) → ℕ → List ℕ → ℕ → List ℕ
update running level queue lv = if level == lv then queue else running lv

-- How often an id stands in a queue.
abbrev pub count : ℕ → List ℕ → ℕ
count i [] = 0
count i (x ∷ xs) = if x == i then suc (count i xs) else count i xs

pub count-append : (i : ℕ) (xs ys : List ℕ) → count i (xs ++ ys) ≡ count i xs + count i ys
count-append i [] ys = omega arith
count-append i (x ∷ xs) ys = ground (arith, count-append i xs ys)

pub count-erase :
    (i v : ℕ) (xs : List ℕ) → count i (erase v xs) ≡ (if v == i then 0 else count i xs)
count-erase i v [] = ground arith
count-erase i v (x ∷ xs) = ground (arith, count-erase i v xs)

pub count-pop_front :
    (i : ℕ) (xs : List ℕ)
    → count i xs ≡ (
        if is_empty xs
        then 0
        else if front xs == i
        then suc (count i (pop_front xs))
        else count i (pop_front xs))
count-pop_front i [] = refl
count-pop_front i (x ∷ xs) = refl
