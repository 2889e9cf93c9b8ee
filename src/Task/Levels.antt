-- ===== src/Task/Levels.antt =====
-- `ChangeLevelRunning` keeps the scheduler's invariants.
use mikan_os.Prelude.{
  ℕ, ◌≤◌, ◌≡◌, sym, ap, ◌≢◌, inl, inr, List, [], ◌∷◌, ◌++◌, true, false, Option, none, some, ◌==◌,
  if◌then◌else◌, arith, Bool-cases, ==_yes, ==_no,
}
use native.Mathlib.Decide.{ℕ_discrete}
use mikan_os.Task.Queue.{
  count, is_empty, front, pop_front, update, erase, count-append, count-pop_front, count-erase,
}
use mikan_os.Task.{
  Task, TaskManager, max_level, find, modify, current_task, set_level, move_level,
  change_level_running, wakeup, level_or,
}
use mikan_os.Task.Table.{apply_to, find-modify, modify-IsUnique}
use mikan_os.Task.Invariant.{idle_id, expected, level_in, IsConsistent, IsScheduled}
use mikan_os.Task.Wake.{
  IsSound, is_empty-append, set_level-id, wakeup_sleeping-IsSound, current-level,
}

pub front-erase :
    (v : ℕ) (xs : List ℕ) → front xs ≢ v → is_empty xs ≡ false → is_empty (erase v xs) ≡ false
front-erase v [] ne h = cc
front-erase v (x ∷ xs) ne h = ground arith

-- Where a level argument may go: a level that exists, and not for the idle task.
abbrev pub IsLevel : ℕ → Option ℕ → Type 0
IsLevel id none = Unit {0}
IsLevel id (some level) = (level ≤ max_level) × (id ≢ idle_id)

module _ {C : Type 0} {m : TaskManager C} {task : Task C} (v : IsSound m)
    (known : find task.id m.tasks ≡ some task) where
  module _ (level : ℕ) (fits : level ≤ max_level) (awake : task.running ≡ true)
      (differs : level ≢ task.level) (not_idle : task.id ≢ idle_id) where
    -- The task table after the move.
    moved-find :
        (i : ℕ)
        → find i (modify task.id (set_level level) m.tasks)
          ≡ (if task.id == i then apply_to (set_level level) (find i m.tasks) else find i m.tasks)
    moved-find i = find-modify i task.id (set_level level) (set_level-id level) m.tasks

    moved-levels :
        (i : ℕ) → level_in (find i (modify task.id (set_level level) m.tasks)) ≤ max_level
    unfolding set_level
    moved-levels i = ground (arith, moved-find i, v.consistent.levels i)

    abbrev other_queues : ℕ → List ℕ
    other_queues =
        let erased = update m.running task.level (erase task.id (m.running task.level)) in
        update erased level (erased level ++ (task.id ∷ []))

    abbrev own_queues : ℕ → List ℕ
    own_queues =
        let popped = update m.running m.current_level (pop_front (m.running m.current_level)) in
        update popped level (task.id ∷ popped level)

    other-queued :
        (lv i : ℕ)
        → count i (other_queues lv)
          ≡ expected (find i (modify task.id (set_level level) m.tasks)) lv
    unfolding set_level
    other-queued lv i = ground (
      arith,
      moved-find i,
      v.consistent.queued lv i,
      v.consistent.queued level i,
      count-erase i task.id (m.running task.level),
      count-append i (m.running level) (task.id ∷ []),
      ap m.running,
    )

    own-queued :
        task.id ≡ current_task m
        → (lv i : ℕ)
        → count i (own_queues lv) ≡ expected (find i (modify task.id (set_level level) m.tasks)) lv
    unfolding set_level current_task
    own-queued e lv i = ground (
      arith,
      moved-find i,
      current-level v known e,
      v.consistent.queued lv i,
      v.consistent.queued level i,
      v.scheduled.occupied,
      count-pop_front i (m.running m.current_level),
      ap m.running,
    )

    -- The later part of `ChangeLevelRunning` keeps the tasks and the queues in step.
    move_level-IsConsistent : IsConsistent (move_level m task level)
    unfolding move_level
    move_level-IsConsistent = elim (ℕ_discrete task.id (current_task m)) [
      | yes e ↦ rw (==_yes task.id (current_task m) e) (record {
        unique =
            modify-IsUnique task.id (set_level level) (set_level-id level) m.tasks
              v.consistent.unique;
        fresh = λ i h. ground (arith, moved-find i, v.consistent.fresh i h);
        levels = moved-levels;
        queued = own-queued e;
        top = λ lv h. ground (arith, v.consistent.top lv h, v.scheduled.level_fits);
      })
      | no e ↦ rw (==_no task.id (current_task m) e) (record {
        unique =
            modify-IsUnique task.id (set_level level) (set_level-id level) m.tasks
              v.consistent.unique;
        fresh = λ i h. ground (arith, moved-find i, v.consistent.fresh i h);
        levels = moved-levels;
        queued = other-queued;
        top = λ lv h. ground (
          arith,
          v.consistent.top lv h,
          ap (erase task.id) (v.consistent.top lv h),
          ap m.running,
        );
      })
    ]

    own-IsScheduled : task.id ≡ current_task m → IsScheduled (move_level m task level)
    unfolding move_level
    own-IsScheduled e = rw (==_yes task.id (current_task m) e) (record {
      level_fits = fits;
      occupied = ground arith;
      priority =
          λ h lv above. ground (arith, v.scheduled.priority (ground arith) lv (ground arith));
      idle = ground (
        arith,
        own-queued e 0 idle_id,
        moved-find idle_id,
        v.consistent.queued 0 idle_id,
        v.scheduled.idle,
      );
    })

    other-IsScheduled : task.id ≢ current_task m → IsScheduled (move_level m task level)
    unfolding move_level current_task
    other-IsScheduled e = rw (==_no task.id (current_task m) e) (record {
      level_fits = v.scheduled.level_fits;
      occupied = elim (ℕ_discrete level m.current_level) [
        | yes here ↦ rw here (
            ground (
              arith,
              is_empty-append (m.running m.current_level) task.id,
              is_empty-append (erase task.id (m.running m.current_level)) task.id,
              ap m.running,
            ))
        | no away ↦ ground (
          arith,
          v.scheduled.occupied,
          front-erase task.id (m.running m.current_level) (λ q. e (sym q)) v.scheduled.occupied,
          ap m.running,
        )
      ];
      priority = λ h lv above.
          let none_there = v.scheduled.priority (ground arith) lv above in
          ground (arith, none_there, ap (erase task.id) none_there, ap m.running);
      idle = ground (
        arith,
        other-queued 0 idle_id,
        moved-find idle_id,
        v.consistent.queued 0 idle_id,
        v.scheduled.idle,
      );
    })

    move_level-IsSound : IsSound (move_level m task level)
    move_level-IsSound = record {
      consistent = move_level-IsConsistent;
      scheduled = elim (ℕ_discrete task.id (current_task m)) [
        | yes e ↦ own-IsScheduled e
        | no e ↦ other-IsScheduled e
      ];
    }

  pub change_level_running-IsSound :
      (level : Option ℕ)
      → IsLevel task.id level
      → task.running ≡ true
      → IsSound (change_level_running m task level)
  unfolding change_level_running
  change_level_running-IsSound none ok awake = v
  change_level_running-IsSound (some level) ok awake = elim (ℕ_discrete level task.level) [
    | yes e ↦ rw (==_yes level task.level e) v
    | no e ↦ rw (==_no level task.level e) (move_level-IsSound level ok.0 awake e ok.1)
  ]

  -- `Wakeup` of a known task keeps the invariants, for a level that exists.
  pub wakeup-IsSound : (level : Option ℕ) → IsLevel task.id level → IsSound (wakeup m task level)
  unfolding wakeup
  wakeup-IsSound level ok = elim (Bool-cases task.running) [
    | inl awake ↦ simp awake (change_level_running-IsSound level ok awake)
    | inr asleep ↦
        simp asleep
          (wakeup_sleeping-IsSound v known (level_or level task.level) (goes level ok) asleep)
  ]
    where
      goes : (level : Option ℕ) → IsLevel task.id level → level_or level task.level ≤ max_level
      goes none ok = ground (arith, v.consistent.levels task.id)
      goes (some level) ok = ok.0
