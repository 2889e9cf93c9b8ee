-- ===== src/Task/Rotate.antt =====
-- `RotateCurrentRunQueue`: the queue turns, and the highest level with a task becomes the current one.
use mikan_os.Prelude.{
  ℕ, zero, suc, ◌+◌, ◌<◌, ◌≡◌, refl, ap, ◌≢◌, ◌⊎◌, inl, inr, List, [], ◌∷◌, ◌++◌, Bool, true, false,
  ◌&&◌, ◌||◌, ◌==◌, if◌then◌else◌, arith, Bool-cases,
}
use native.Mathlib.Decide.{ℕ_discrete, dec_lt}
use mikan_os.Task.Queue.{count, is_empty, pop_front, count-append, count-pop_front}
use mikan_os.Task.{TaskManager, max_level, highest, current_task, rotate_current_run_queue}
use mikan_os.Task.Invariant.{NoneAbove, idle_id, IsScheduled}

pub eq_nil_of_is_empty : (xs : List ℕ) → is_empty xs ≡ true → xs ≡ []
eq_nil_of_is_empty [] h = refl
eq_nil_of_is_empty (x ∷ xs) h = cc

pub is_empty-of_count : (i : ℕ) (xs : List ℕ) → 0 < count i xs → is_empty xs ≡ false
is_empty-of_count i [] h = elim h [ ]
is_empty-of_count i (x ∷ xs) h = refl

-- If some level below `n` has a task, the search finds one that has.
highest-occupied :
    (running : ℕ → List ℕ) (n cl lv : ℕ)
    → lv < n
    → is_empty (running lv) ≡ false
    → (highest running n cl < n) × (is_empty (running (highest running n cl)) ≡ false)
unfolding highest
highest-occupied running zero cl lv h e = elim h [ ]
highest-occupied running (suc n) cl lv h e = elim (Bool-cases (is_empty (running n))) [
  | inl empty ↦ elim (ℕ_discrete lv n) [
    | yes q ↦ absurd (ground arith)
    | no q ↦ rw empty (ground (arith, highest-occupied running n cl lv (omega arith) e))
  ]
  | inr full ↦ rw full (omega arith, full)
]

-- And no level above the one that it finds has a task.
highest-NoneAbove :
    (running : ℕ → List ℕ) (n cl lv k : ℕ)
    → lv < n
    → is_empty (running lv) ≡ false
    → k < n
    → highest running n cl < k
    → running k ≡ []
unfolding highest
highest-NoneAbove running zero cl lv k h e hk above = elim h [ ]
highest-NoneAbove running (suc n) cl lv k h e hk above = elim (Bool-cases (is_empty (running n))) [
  | inl empty ↦ elim (ℕ_discrete k n) [
    | yes q ↦ rw q (eq_nil_of_is_empty (running n) empty)
    | no q ↦ elim (ℕ_discrete lv n) [
      | yes p ↦ absurd (ground arith)
      | no p ↦ highest-NoneAbove running n cl lv k (omega arith) e (omega arith) (ground arith)
    ]
  ]
  | inr full ↦ absurd (ground arith)
]

module _ {C : Type 0} (m : TaskManager C) (s : Bool) where
  -- The queue of the current level after the turn.
  abbrev turned : List ℕ
  turned =
      if s
      then pop_front (m.running m.current_level)
      else pop_front (m.running m.current_level) ++ (current_task m ∷ [])

  pub rotate-running :
      (lv : ℕ)
      → (rotate_current_run_queue m s).0.running lv
        ≡ (if m.current_level == lv then turned else m.running lv)
  unfolding rotate_current_run_queue current_task
  rotate-running lv = refl

  pub rotate-task : (rotate_current_run_queue m s).1 ≡ current_task m
  unfolding rotate_current_run_queue current_task
  rotate-task = refl

  pub rotate-tasks : (rotate_current_run_queue m s).0.tasks ≡ m.tasks
  unfolding rotate_current_run_queue
  rotate-tasks = refl

  count-turned :
      (i : ℕ)
      → is_empty (m.running m.current_level) ≡ false
      → count i turned + (if s && (current_task m == i) then 1 else 0)
        ≡ count i (m.running m.current_level)
  unfolding current_task
  count-turned i h = ground (
    arith,
    count-pop_front i (m.running m.current_level),
    count-append i (pop_front (m.running m.current_level)) (current_task m ∷ []),
  )

  -- Turning a queue drops its front if that task goes to sleep, and else keeps all tasks.
  pub count-rotate :
      (lv i : ℕ)
      → is_empty (m.running m.current_level) ≡ false
      → count i ((rotate_current_run_queue m s).0.running lv)
          + (if s && (m.current_level == lv && current_task m == i) then 1 else 0)
        ≡ count i (m.running lv)
  count-rotate lv i h = elim (ℕ_discrete m.current_level lv) [
    | yes q ↦ ground (arith, rotate-running lv, ap m.running q, count-turned i h)
    | no q ↦ ground (arith, rotate-running lv)
  ]

  rotate_same :
      (m.level_changed || is_empty turned) ≡ false
      → ((rotate_current_run_queue m s).0.current_level ≡ m.current_level)
        × (m.level_changed ≡ false)
        × (is_empty turned ≡ false)
  unfolding rotate_current_run_queue current_task
  rotate_same h = ground arith

  rotate_searched :
      (m.level_changed || is_empty turned) ≡ true
      → (rotate_current_run_queue m s).0.current_level
        ≡ highest (rotate_current_run_queue m s).0.running (suc max_level) m.current_level
  unfolding rotate_current_run_queue current_task
  rotate_searched h = rw h

  rotate-level_changed : (rotate_current_run_queue m s).0.level_changed ≡ false
  unfolding rotate_current_run_queue
  rotate-level_changed = refl

module _ {C : Type 0} {m : TaskManager C} (s : Bool) (v : IsScheduled m)
    (top : NoneAbove m.running max_level) where
  abbrev after : TaskManager C
  after = (rotate_current_run_queue m s).0

  -- The turn keeps the levels above 3 empty.
  pub rotate-top : NoneAbove after.running max_level
  rotate-top lv h = ground (arith, rotate-running m s lv, top lv h, v.level_fits)

  rotate-idle : (s ≡ false) ⊎ (current_task m ≢ idle_id) → count idle_id (after.running 0) ≡ 1
  rotate-idle (inl e) = ground (arith, count-rotate m s 0 idle_id v.occupied, v.idle)
  rotate-idle (inr e) = ground (arith, count-rotate m s 0 idle_id v.occupied, v.idle)

  rotate-searched-IsScheduled :
      (m.level_changed || is_empty (turned m s)) ≡ true
      → count idle_id (after.running 0) ≡ 1
      → IsScheduled after
  rotate-searched-IsScheduled h idle =
      let ready = is_empty-of_count idle_id (after.running 0) (omega arith) in
      let e = rotate_searched m s h in
      let found =
        highest-occupied after.running (suc max_level) m.current_level 0 (omega arith) ready in
      record {
        level_fits = rw e (omega arith);
        occupied = rw e found.1;
        priority = λ _ lv above. elim (dec_lt lv (suc max_level)) [
          | yes p ↦
              highest-NoneAbove after.running (suc max_level) m.current_level 0 lv (omega arith)
                ready p (rw e at above)
          | no p ↦ rotate-top lv (omega arith)
        ];
        idle = idle;
      }

  rotate-same-IsScheduled :
      (m.level_changed || is_empty (turned m s)) ≡ false
      → count idle_id (after.running 0) ≡ 1
      → IsScheduled after
  rotate-same-IsScheduled h idle =
      let same = rotate_same m s h in
      record {
        level_fits = rw same.0 v.level_fits;
        occupied = rw (same.0, rotate-running m s m.current_level) (ground (arith, same.2));
        priority = λ _ lv above.
            ground (arith, same.0, same.1, rotate-running m s lv, v.priority same.1 lv);
        idle = idle;
      }

  -- After a turn a task is current, and no task has a higher priority, provided that the turn does not
  -- put the idle task to sleep.
  pub rotate-IsScheduled : (s ≡ false) ⊎ (current_task m ≢ idle_id) → IsScheduled after
  rotate-IsScheduled ok = elim (Bool-cases (m.level_changed || is_empty (turned m s))) [
    | inl h ↦ rotate-searched-IsScheduled h (rotate-idle ok)
    | inr h ↦ rotate-same-IsScheduled h (rotate-idle ok)
  ]
