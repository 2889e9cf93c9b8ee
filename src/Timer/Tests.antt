-- ===== src/Timer/Tests.antt =====
-- A tick on a concrete queue of timers, and the instances of the theorems.
use mikan_os.Prelude.{ℕ, ◌≡◌, refl, [], ◌∷◌}
use mikan_os.Task.{TaskManager, constructed, new_task, send_message}
use mikan_os.Timer.{Timer, TimerManager, task_timer_value, timeout_message, push, tick}
use mikan_os.Timer.Due.{ticked, notify, task_due_count, kept, put_back}

-- The task with id 3 sleeps.
tasks : TaskManager ℕ
tasks = (new_task (constructed 10 20) 30).0

abbrev sleep_timer : Timer
sleep_timer = record { timeout = 5; value = 1; task_id = 3 }

abbrev timers : TimerManager
timers = record {
  tick = 4;
  timers =
      sleep_timer
      ∷ record { timeout = 5; value = task_timer_value; task_id = 1 }
      ∷ record { timeout = 9; value = 2; task_id = 3 }
      ∷ [];
}

ticked_timers :
    (ticked timers tasks).timers
    ≡ record { timeout = 7; value = task_timer_value; task_id = 1 }
      ∷ record { timeout = 9; value = 2; task_id = 3 }
      ∷ []
unfolding kept task_due_count put_back push
ticked_timers = refl

notified : notify 5 timers.timers tasks ≡ (send_message tasks 3 (timeout_message sleep_timer)).1
unfolding notify
notified = refl
