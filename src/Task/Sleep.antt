-- ===== src/Task/Sleep.antt =====
-- `Sleep`, `SwitchTask` and the changes that leave levels alone keep the scheduler's invariants.
use mikan_os.Prelude.{
  ℕ, ◌≤◌, ◌<◌, ◌≡◌, refl, sym, ap, ◌∙◌, ◌≢◌, inl, inr, true, false, Option, none, some, ◌==◌,
  if◌then◌else◌, arith, Bool-cases, ==_yes, ==_no,
}
use native.Mathlib.Decide.{ℕ_discrete}
use mikan_os.Task.Queue.{count, is_empty, front, update, erase, count-erase}
use mikan_os.Task.{
  Task, TaskManager, max_level, find, modify, current_task, set_running, rotate_current_run_queue,
  save_context, switch_task, sleep_running, sleep,
}
use mikan_os.Task.Table.{IsUnique, apply_to, find-modify, modify-IsUnique}
use mikan_os.Task.Invariant.{idle_id, expected, level_in, IsScheduled}
use mikan_os.Task.Rotate.{count-rotate, rotate-top, rotate-IsScheduled}
use mikan_os.Task.Wake.{IsSound, current-level}
use mikan_os.Task.Levels.{front-erase}

module _ {C : Type 0} {m : TaskManager C} (v : IsSound m) where
  -- A change to a task that keeps its id, its level and whether it is running.
  pub touched-IsSound :
      (i : ℕ) (f : Task C → Task C)
      → ((t : Task C) → (f t).id ≡ t.id)
      → ((t : Task C) → (f t).level ≡ t.level)
      → ((t : Task C) → (f t).running ≡ t.running)
      → IsSound (record m { tasks = modify i f m.tasks })
  touched-IsSound i f id_kept level_kept running_kept = record {
    consistent = record {
      unique = modify-IsUnique i f id_kept m.tasks v.consistent.unique;
      fresh = λ j h. ground (arith, find-modify j i f id_kept m.tasks, v.consistent.fresh j h);
      levels = λ j.
          levels_after j (find j m.tasks) (v.consistent.levels j)
            (find-modify j i f id_kept m.tasks);
      queued = λ lv j.
          queued_after lv j (find j m.tasks) (v.consistent.queued lv j)
            (find-modify j i f id_kept m.tasks);
      top = v.consistent.top;
    };
    scheduled = record {
      level_fits = v.scheduled.level_fits;
      occupied = v.scheduled.occupied;
      priority = v.scheduled.priority;
      idle = v.scheduled.idle;
    };
  }
    where
      levels_after :
          (j : ℕ) (o : Option (Task C))
          → level_in o ≤ max_level
          → find j (modify i f m.tasks) ≡ (if i == j then apply_to f o else o)
          → level_in (find j (modify i f m.tasks)) ≤ max_level
      levels_after j none le e = ground arith
      levels_after j (some t) le e = ground (arith, level_kept t)

      queued_after :
          (lv j : ℕ) (o : Option (Task C))
          → count j (m.running lv) ≡ expected o lv
          → find j (modify i f m.tasks) ≡ (if i == j then apply_to f o else o)
          → count j (m.running lv) ≡ expected (find j (modify i f m.tasks)) lv
      queued_after lv j none q e = ground arith
      queued_after lv j (some t) q e = ground (arith, level_kept t, running_kept t)

  pub save_context-IsSound : (i : ℕ) (ctx : C) → IsSound (save_context i ctx m)
  unfolding save_context
  save_context-IsSound i ctx =
      touched-IsSound i (λ t. record t { context = ctx }) (λ t. refl) (λ t. refl) (λ t. refl)

  -- A turn of the current queue with the current task going on.
  pub rotate-IsSound : IsSound (rotate_current_run_queue m false).0
  unfolding rotate_current_run_queue
  rotate-IsSound = record {
    consistent = record {
      unique = v.consistent.unique;
      fresh = v.consistent.fresh;
      levels = v.consistent.levels;
      queued = λ lv i.
          ground (arith, count-rotate m false lv i v.scheduled.occupied, v.consistent.queued lv i);
      top = rotate-top false v.scheduled v.consistent.top;
    };
    scheduled = rotate-IsScheduled false v.scheduled v.consistent.top (inl refl);
  }

module _ {C : Type 0} {m : TaskManager C} (v : IsSound m) (ctx : C) where
  -- The timer interrupt's `SwitchTask` keeps the invariants.
  pub switch_task-IsSound : IsSound (switch_task m ctx).0
  unfolding switch_task
  switch_task-IsSound = rotate-IsSound (save_context-IsSound v (current_task m) ctx)

  module _ {task : Task C} (known : find task.id m.tasks ≡ some task) (awake : task.running ≡ true)
      (not_idle : task.id ≢ idle_id) where
    set_running-id : (t : Task C) → (set_running false t).id ≡ t.id
    unfolding set_running
    set_running-id t = refl

    abbrev asleep : TaskManager C
    asleep = record m { tasks = modify task.id (set_running false) m.tasks }

    slept-find :
        (i : ℕ)
        → find i asleep.tasks
          ≡ (if task.id == i then apply_to (set_running false) (find i m.tasks) else find i m.tasks)
    slept-find i = find-modify i task.id (set_running false) set_running-id m.tasks

    asleep-IsScheduled : IsScheduled asleep
    asleep-IsScheduled = record {
      level_fits = v.scheduled.level_fits;
      occupied = v.scheduled.occupied;
      priority = v.scheduled.priority;
      idle = v.scheduled.idle;
    }

    slept-IsUnique : IsUnique asleep.tasks
    slept-IsUnique =
        modify-IsUnique task.id (set_running false) set_running-id m.tasks v.consistent.unique

    slept_fresh : (i : ℕ) → m.latest_id < i → find i asleep.tasks ≡ none
    slept_fresh i h = ground (arith, slept-find i, v.consistent.fresh i h)

    slept_levels : (i : ℕ) → level_in (find i asleep.tasks) ≤ max_level
    unfolding set_running
    slept_levels i = ground (arith, slept-find i, v.consistent.levels i)

    same_current : current_task asleep ≡ current_task m
    unfolding current_task
    same_current = refl

    slept_current-IsSound :
        task.id ≡ current_task m → IsSound (rotate_current_run_queue asleep true).0
    unfolding rotate_current_run_queue set_running
    slept_current-IsSound e = record {
      consistent = record {
        unique = slept-IsUnique;
        fresh = slept_fresh;
        levels = slept_levels;
        queued = λ lv i. ground (
          arith,
          slept-find i,
          count-rotate asleep true lv i v.scheduled.occupied,
          v.consistent.queued lv i,
          current-level v known e,
          same_current,
        );
        top = rotate-top {m = asleep} true asleep-IsScheduled v.consistent.top;
      };
      scheduled =
          rotate-IsScheduled {m = asleep} true asleep-IsScheduled v.consistent.top
            (inr (λ q. not_idle (e ∙ (sym same_current ∙ q))));
    }

    slept_other-IsSound :
        task.id ≢ front (m.running m.current_level)
        → IsSound (record asleep {
          running = update m.running task.level (erase task.id (m.running task.level));
        })
    unfolding set_running
    slept_other-IsSound e = record {
      consistent = record {
        unique = slept-IsUnique;
        fresh = slept_fresh;
        levels = slept_levels;
        queued = λ lv i. ground (
          arith,
          slept-find i,
          count-erase i task.id (m.running task.level),
          v.consistent.queued lv i,
          ap m.running,
        );
        top = λ lv h. ground (
          arith,
          v.consistent.top lv h,
          ap (erase task.id) (v.consistent.top lv h),
          ap m.running,
        );
      };
      scheduled = record {
        level_fits = v.scheduled.level_fits;
        occupied = kept_occupied;
        priority = λ h lv above.
            let none_there = v.scheduled.priority h lv above in
            ground (arith, none_there, ap (erase task.id) none_there, ap m.running);
        idle = ground (
          arith,
          count-erase idle_id task.id (m.running task.level),
          v.scheduled.idle,
          ap m.running,
        );
      };
    }
      where
        kept_occupied :
            is_empty
              (update m.running task.level (erase task.id (m.running task.level)) m.current_level)
            ≡ false
        kept_occupied = ground (
          arith,
          v.scheduled.occupied,
          front-erase task.id (m.running m.current_level) (λ q. e (sym q)) v.scheduled.occupied,
          ap m.running,
        )

    sleep_running-IsSound : IsSound (sleep_running m ctx task).0
    unfolding sleep_running current_task
    sleep_running-IsSound = elim (ℕ_discrete task.id (current_task m)) [
      | yes e ↦
          rw (==_yes task.id (current_task m) e)
            (save_context-IsSound (slept_current-IsSound e) _ ctx)
      | no e ↦ rw (==_no task.id (current_task m) e) (slept_other-IsSound e)
    ]

  -- `Sleep` of a known task other than the idle task keeps the invariants.
  pub sleep-IsSound :
      {task : Task C}
      → find task.id m.tasks ≡ some task
      → task.id ≢ idle_id
      → IsSound (sleep m ctx task).0
  unfolding sleep
  sleep-IsSound {task} known not_idle = elim (Bool-cases task.running) [
    | inl awake ↦ simp awake (sleep_running-IsSound known awake not_idle)
    | inr resting ↦ simp resting v
  ]
