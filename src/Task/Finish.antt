-- ===== src/Task/Finish.antt =====
-- `Finish`, `WaitFinish`, `NewTask` and the message functions keep the scheduler's invariants.
use mikan_os.Prelude.{
  ℕ, ◌+◌, ◌%◌, ◌^◌, ◌<◌, ◌≡◌, refl, sym, ◌∙◌, subst, ◌≢◌, inl, inr, List, [], ◌∷◌, ◌++◌, true,
  false, none, some, ◌==◌, if◌then◌else◌, arith, Option-cases,
}
use mikan_os.Task.Queue.{front, count-pop_front}
use mikan_os.Task.{Task, TaskManager, find, modify, current_task, rotate_current_run_queue}
use mikan_os.Task.Table.{find-modify}
use mikan_os.Task.Invariant.{idle_id, IsScheduled}
use mikan_os.Task.Rotate.{count-rotate, rotate-top, rotate-IsScheduled}
use mikan_os.Task.Wake.{IsSound}
use mikan_os.Message.{Message}
use mikan_os.Task.Sleep.{touched-IsSound, sleep-IsSound}
use mikan_os.Task.Levels.{wakeup-IsSound}
use mikan_os.Task.Table.{
  find-id, or_else, find-append, append-IsUnique, find-remove, remove-IsUnique,
}
use mikan_os.Task.{
  default_level, remove, push_message, deliver, send_message, receive_front, receive_message,
  wake_waiter, finish, wait_finish, new_task, assoc_find, assoc_set, assoc_erase,
}

module _ {C : Type 0} {m : TaskManager C} (v : IsSound m) where
  -- The two maps are no part of the invariants.
  maps-IsSound : (c w : List (ℕ × ℕ)) → IsSound (record m { finish_tasks = c; finish_waiter = w })
  maps-IsSound c w = record {
    consistent = record {
      unique = v.consistent.unique;
      fresh = v.consistent.fresh;
      levels = v.consistent.levels;
      queued = v.consistent.queued;
      top = v.consistent.top;
    };
    scheduled = record {
      level_fits = v.scheduled.level_fits;
      occupied = v.scheduled.occupied;
      priority = v.scheduled.priority;
      idle = v.scheduled.idle;
    };
  }

  known_of_find :
      (i : ℕ) (task : Task C) → find i m.tasks ≡ some task → find task.id m.tasks ≡ some task
  known_of_find i task h =
      subst (λ j. find j m.tasks ≡ some task) (sym (find-id i m.tasks task h)) h

  -- The current task is known.
  finished-IsSound :
      current_task m ≢ idle_id
      → IsSound
          (record (rotate_current_run_queue m true).0 { tasks = remove (current_task m) m.tasks })
  unfolding rotate_current_run_queue current_task
  finished-IsSound not_idle = record {
    consistent = record {
      unique = remove-IsUnique (current_task m) m.tasks v.consistent.unique;
      fresh = λ i h. ground (
        arith,
        find-remove i (current_task m) m.tasks v.consistent.unique,
        v.consistent.fresh i h,
      );
      levels = λ i. ground (
        arith,
        find-remove i (current_task m) m.tasks v.consistent.unique,
        v.consistent.levels i,
      );
      queued = λ lv i. ground (
        arith,
        find-remove i (current_task m) m.tasks v.consistent.unique,
        count-rotate m true lv i v.scheduled.occupied,
        v.consistent.queued lv i,
        v.consistent.queued m.current_level i,
        v.scheduled.occupied,
        count-pop_front i (m.running m.current_level),
      );
      top = rotate-top true v.scheduled v.consistent.top;
    };
    scheduled = turned_after;
  }
    where
      turned : IsScheduled (rotate_current_run_queue m true).0
      turned = rotate-IsScheduled true v.scheduled v.consistent.top (inr not_idle)

      turned_after :
          IsScheduled
            (record (rotate_current_run_queue m true).0 { tasks = remove (current_task m) m.tasks })
      turned_after = record {
        level_fits = turned.level_fits;
        occupied = turned.occupied;
        priority = turned.priority;
        idle = turned.idle;
      }

module _ {C : Type 0} where
  wake_waiter-IsSound : (m : TaskManager C) (id : ℕ) → IsSound m → IsSound (wake_waiter m id)
  unfolding wake_waiter
  wake_waiter-IsSound m id v = elim (Option-cases (assoc_find id m.finish_waiter)) [
    | inl nobody ↦ rw (nobody, wake_waiter) v
    | inr (waiter, e) ↦ elim (Option-cases (find waiter m.tasks)) [
      | inl gone ↦
          rw (e, gone, wake_waiter) (maps-IsSound v m.finish_tasks (assoc_erase id m.finish_waiter))
      | inr (task, known) ↦
          rw (e, known, wake_waiter)
            (wakeup-IsSound (maps-IsSound v m.finish_tasks (assoc_erase id m.finish_waiter))
              (known_of_find v waiter task known) none tt)
    ]
  ]

  -- `Finish` of a task other than the idle task keeps the invariants.
  pub finish-IsSound :
      (m : TaskManager C) (ctx : C) (exit_code : ℕ)
      → IsSound m
      → current_task m ≢ idle_id
      → IsSound (finish m ctx exit_code).0
  unfolding finish rotate_current_run_queue current_task
  finish-IsSound m ctx exit_code v not_idle =
      wake_waiter-IsSound _ (front (m.running m.current_level)) (
        maps-IsSound (finished-IsSound v not_idle)
          (assoc_set (front (m.running m.current_level)) exit_code m.finish_tasks) m.finish_waiter)

  -- A round of `WaitFinish` by a task other than the idle task keeps the invariants.
  pub wait_finish-IsSound :
      (m : TaskManager C) (ctx : C) (task_id : ℕ)
      → IsSound m
      → current_task m ≢ idle_id
      → IsSound (wait_finish m ctx task_id).1.0
  unfolding wait_finish
  wait_finish-IsSound m ctx task_id v not_idle =
      elim (Option-cases (assoc_find task_id m.finish_tasks)) [
        | inr (code, e) ↦
            rw (e, wait_finish)
              (maps-IsSound v (assoc_erase task_id m.finish_tasks) m.finish_waiter)
        | inl e ↦
            let w =
              maps-IsSound v m.finish_tasks (assoc_set task_id (current_task m) m.finish_waiter) in
            elim (Option-cases (find (current_task m) m.tasks)) [
              | inl gone ↦ rw (e, gone, wait_finish) w
              | inr (task, known) ↦
                  rw (e, known, wait_finish)
                    (sleep-IsSound w ctx (known_of_find v (current_task m) task known)
                      (λ q. not_idle (sym (find-id (current_task m) m.tasks task known) ∙ q)))
            ]
      ]

  push_message-IsSound :
      (m : TaskManager C) (i : ℕ) (msg : Message)
      → IsSound m
      → IsSound (record m { tasks = modify i (push_message msg) m.tasks })
  unfolding push_message
  push_message-IsSound m i msg v =
      touched-IsSound v i (push_message msg) (λ t. refl) (λ t. refl) (λ t. refl)

  -- `SendMessage` keeps the invariants, also when it wakes the receiver.
  pub send_message-IsSound :
      (m : TaskManager C) (id : ℕ) (msg : Message) → IsSound m → IsSound (send_message m id msg).1
  unfolding send_message deliver push_message
  send_message-IsSound m id msg v = elim (Option-cases (find id m.tasks)) [
    | inl gone ↦ rw (gone, send_message) v
    | inr (task, known) ↦
        rw (known, send_message)
          (wakeup-IsSound (push_message-IsSound m task.id msg v) (pushed task known) none tt)
  ]
    where
      pushed :
          (task : Task C)
          → find id m.tasks ≡ some task
          → find task.id (modify task.id (push_message msg) m.tasks) ≡ some (push_message msg task)
      pushed task known = ground (
        arith,
        known_of_find v id task known,
        find-modify task.id task.id (push_message msg) (λ t. refl) m.tasks,
      )

  -- `ReceiveMessage` keeps the invariants.
  pub receive_message-IsSound :
      (m : TaskManager C) (id : ℕ) → IsSound m → IsSound (receive_message m id).1
  unfolding receive_message
  receive_message-IsSound m id v = elim (Option-cases (find id m.tasks)) [
    | inl gone ↦ rw (gone, receive_message) v
    | inr (task, known) ↦
        rw (known, receive_message)
          (touched-IsSound v id (λ t. record t { msgs = (receive_front task.msgs).1 }) (λ t. refl)
            (λ t. refl) (λ t. refl))
  ]

  -- `NewTask` keeps the invariants while ids do not wrap.
  pub new_task-IsSound :
      (m : TaskManager C) (context : C)
      → IsSound m
      → m.latest_id + 1 < 2 ^ 64
      → IsSound (new_task m context).0
  unfolding new_task
  new_task-IsSound m context v h =
      let e : (m.latest_id + 1) % 2 ^ 64 ≡ m.latest_id + 1 = omega arith in
      rw e (record {
        consistent = record {
          unique = append-IsUnique m.tasks added (new_id (omega arith)) v.consistent.unique;
          fresh = λ i above.
              ground (arith, find-append i m.tasks added, v.consistent.fresh i (omega arith));
          levels = λ i. ground (arith, grown i, v.consistent.levels i);
          queued = λ lv i. ground (arith, grown i, v.consistent.queued lv i, new_id (omega arith));
          top = v.consistent.top;
        };
        scheduled = record {
          level_fits = v.scheduled.level_fits;
          occupied = v.scheduled.occupied;
          priority = v.scheduled.priority;
          idle = v.scheduled.idle;
        };
      })
    where
      added : Task C
      added = record {
        id = m.latest_id + 1;
        context = context;
        msgs = [];
        level = default_level;
        running = false;
      }

      new_id : m.latest_id < m.latest_id + 1 → find (m.latest_id + 1) m.tasks ≡ none
      new_id lt = v.consistent.fresh (m.latest_id + 1) lt

      grown :
          (i : ℕ)
          → find i (m.tasks ++ (added ∷ []))
            ≡ or_else (find i m.tasks) (if added.id == i then some added else none)
      grown i = find-append i m.tasks added
