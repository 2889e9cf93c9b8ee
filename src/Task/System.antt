-- ===== src/Task/System.antt =====
-- The scheduler as a transition system: every state that it can reach is sound.
use mikan_os.Prelude.{ℕ, ◌+◌, ◌^◌, ◌<◌, ◌≡◌, refl, ◌≢◌, Option, some, arith}
use mikan_os.Task.{Task, TaskManager, find, current_task, set_running, switch_task, sleep}
use mikan_os.Task.Invariant.{idle_id}
use mikan_os.Task.Wake.{IsSound}
use mikan_os.Message.{Message}
use mikan_os.Task.Sleep.{switch_task-IsSound, sleep-IsSound}
use mikan_os.Task.Levels.{wakeup-IsSound, IsLevel}
use mikan_os.Task.Finish.{
  finish-IsSound, wait_finish-IsSound, send_message-IsSound, receive_message-IsSound,
  new_task-IsSound,
}
use mikan_os.Task.{
  wakeup, send_message, receive_message, finish, wait_finish, new_task, constructed, set_level,
}

module _ {C : Type 0} where
  -- One call of the scheduler by the kernel. The idle task never sleeps, ends or changes its level.
  pub data Step (m : TaskManager C) : TaskManager C → Type 0 where
    creates : (context : C) → m.latest_id + 1 < 2 ^ 64 → Step m (new_task m context).0
    switches : (ctx : C) → Step m (switch_task m ctx).0
    sleeps :
        (ctx : C) (task : Task C)
        → find task.id m.tasks ≡ some task
        → task.id ≢ idle_id
        → Step m (sleep m ctx task).0
    wakes :
        (task : Task C) (level : Option ℕ)
        → find task.id m.tasks ≡ some task
        → IsLevel task.id level
        → Step m (wakeup m task level)
    sends : (id : ℕ) (msg : Message) → Step m (send_message m id msg).1
    receives : (id : ℕ) → Step m (receive_message m id).1
    finishes :
        (ctx : C) (exit_code : ℕ) → current_task m ≢ idle_id → Step m (finish m ctx exit_code).0
    waits :
        (ctx : C) (task_id : ℕ) → current_task m ≢ idle_id → Step m (wait_finish m ctx task_id).1.0

  pub data Reach (m : TaskManager C) : TaskManager C → Type 0 where
    here : Reach m m
    next : {k l : TaskManager C} → Reach m k → Step k l → Reach m l

  Step-IsSound : {m k : TaskManager C} → IsSound m → Step m k → IsSound k
  Step-IsSound {m} v (Step.creates context h) = new_task-IsSound m context v h
  Step-IsSound v (Step.switches ctx) = switch_task-IsSound v ctx
  Step-IsSound v (Step.sleeps ctx task known not_idle) = sleep-IsSound v ctx known not_idle
  Step-IsSound v (Step.wakes task level known ok) = wakeup-IsSound v known level ok
  Step-IsSound {m} v (Step.sends id msg) = send_message-IsSound m id msg v
  Step-IsSound {m} v (Step.receives id) = receive_message-IsSound m id v
  Step-IsSound {m} v (Step.finishes ctx exit_code not_idle) =
      finish-IsSound m ctx exit_code v not_idle
  Step-IsSound {m} v (Step.waits ctx task_id not_idle) =
      wait_finish-IsSound m ctx task_id v not_idle

  -- The state after `TaskManager::TaskManager` is sound.
  pub constructed-IsSound :
      (main_context idle_context : C) → IsSound (constructed main_context idle_context)
  unfolding constructed new_task set_running set_level
  constructed-IsSound main_context idle_context = record {
    consistent = record {
      unique = (refl, (refl, tt));
      fresh = λ i h. ground arith;
      levels = λ i. ground arith;
      queued = λ lv i. ground arith;
      top = λ lv h. ground arith;
    };
    scheduled = record {
      level_fits = omega arith;
      occupied = refl;
      priority = λ _ lv h. ground arith;
      idle = refl;
    };
  }

  Reach-IsSound : {m k : TaskManager C} → IsSound m → Reach m k → IsSound k
  Reach-IsSound v Reach.here = v
  Reach-IsSound v (Reach.next r st) = Step-IsSound (Reach-IsSound v r) st

  -- In every state that calls of the scheduler reach from its construction, ids are unique, the run
  -- queues hold exactly the running tasks, each once and at its own level from 0 to 3, a task is
  -- current, the idle task is ready, and, unless the levels are to be looked at again, no task waits
  -- at a level above the current one. The calls are those of Step: ids do not wrap, and the idle task
  -- never sleeps, ends or changes its level.
  pub reachable-IsSound :
      (main_context idle_context : C) {m : TaskManager C}
      → Reach (constructed main_context idle_context) m
      → IsSound m
  reachable-IsSound main_context idle_context r =
      Reach-IsSound (constructed-IsSound main_context idle_context) r
