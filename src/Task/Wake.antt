-- ===== src/Task/Wake.antt =====
-- `Wakeup`, `ChangeLevelRunning` and `SendMessage` keep the scheduler's invariants.
use mikan_os.Prelude.{
  ℕ, ◌≤◌, ◌≡◌, refl, ap, List, [], ◌∷◌, ◌++◌, true, false, some, ltb, if◌then◌else◌, arith,
}
use native.Mathlib.Decide.{ℕ_discrete}
use mikan_os.Task.Queue.{is_empty, update, count-append, count-pop_front}
use mikan_os.Task.{
  Task, TaskManager, max_level, find, current_task, set_level, set_running, wakeup_sleeping,
}
use mikan_os.Task.Table.{find-modify, modify-IsUnique}
use mikan_os.Task.Invariant.{NoneAbove, idle_id, IsConsistent, IsScheduled}

pub is_empty-append : (xs : List ℕ) (x : ℕ) → is_empty (xs ++ (x ∷ [])) ≡ false
is_empty-append [] x = refl
is_empty-append (y ∷ xs) x = refl

module _ {C : Type 0} where
  -- The invariants, of tasks and of levels.
  pub record IsSound (m : TaskManager C) : Type 0 where
    pub consistent : IsConsistent m
    pub scheduled : IsScheduled m

  pub set_level-id : (level : ℕ) (t : Task C) → (set_level level t).id ≡ t.id
  unfolding set_level
  set_level-id level t = refl

  abbrev woken : ℕ → Task C → Task C
  woken level t = set_running true (set_level level t)

  wake-id : (level : ℕ) (t : Task C) → (woken level t).id ≡ t.id
  unfolding set_running set_level
  wake-id level t = refl

module _ {C : Type 0} {m : TaskManager C} {task : Task C} (v : IsSound m)
    (known : find task.id m.tasks ≡ some task) where
  -- The idle task is running, at level 0.
  pub idle-running : (task.id ≡ idle_id) → (task.running ≡ true) × (task.level ≡ 0)
  idle-running e =
      ground (arith, v.consistent.queued 0 idle_id, v.scheduled.idle, ap (λ i. find i m.tasks) e)

  module _ (level : ℕ) (fits : level ≤ max_level) (asleep : task.running ≡ false) where
    wakeup_sleeping-IsConsistent : IsConsistent (wakeup_sleeping m task level)
    unfolding wakeup_sleeping set_running set_level
    wakeup_sleeping-IsConsistent = record {
      unique = modify-IsUnique task.id (woken level) (wake-id level) m.tasks v.consistent.unique;
      fresh = λ i h. ground (
        arith,
        find-modify i task.id (woken level) (wake-id level) m.tasks,
        v.consistent.fresh i h,
      );
      levels = λ i. ground (
        arith,
        find-modify i task.id (woken level) (wake-id level) m.tasks,
        v.consistent.levels i,
      );
      queued = λ lv i. ground (
        arith,
        find-modify i task.id (woken level) (wake-id level) m.tasks,
        v.consistent.queued lv i,
        v.consistent.queued level i,
        count-append i (m.running level) (task.id ∷ []),
      );
      top = λ lv h. ground (arith, v.consistent.top lv h);
    }

    wakeup_sleeping-IsScheduled : IsScheduled (wakeup_sleeping m task level)
    unfolding wakeup_sleeping
    wakeup_sleeping-IsScheduled = record {
      level_fits = v.scheduled.level_fits;
      occupied = occupied_after;
      priority = priority_after;
      idle = ground (
        arith,
        idle-running,
        v.scheduled.idle,
        count-append idle_id (m.running 0) (task.id ∷ []),
        ap m.running,
      );
    }
      where
        occupied_after :
            is_empty (update m.running level (m.running level ++ (task.id ∷ [])) m.current_level)
            ≡ false
        occupied_after = elim (ℕ_discrete level m.current_level) [
          | yes e ↦ ground (arith, is_empty-append (m.running level) task.id)
          | no e ↦ ground (arith, v.scheduled.occupied)
        ]

        priority_after :
            (if ltb m.current_level level then true else m.level_changed) ≡ false
            → NoneAbove (update m.running level (m.running level ++ (task.id ∷ []))) m.current_level
        priority_after h lv above = ground (arith, v.scheduled.priority (ground arith) lv above)

  pub wakeup_sleeping-IsSound :
      (level : ℕ)
      → level ≤ max_level
      → task.running ≡ false
      → IsSound (wakeup_sleeping m task level)
  wakeup_sleeping-IsSound level fits asleep = record {
    consistent = wakeup_sleeping-IsConsistent level fits asleep;
    scheduled = wakeup_sleeping-IsScheduled level fits asleep;
  }

  -- A task at the front of the current level's queue is at that level.
  pub current-level :
      task.id ≡ current_task m → (task.running ≡ true) × (task.level ≡ m.current_level)
  unfolding current_task
  current-level e = ground (
    arith,
    v.consistent.queued m.current_level task.id,
    v.scheduled.occupied,
    count-pop_front task.id (m.running m.current_level),
  )
