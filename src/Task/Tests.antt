-- ===== src/Task/Tests.antt =====
-- Runs of the scheduler, and the instances of its theorems.
use mikan_os.Prelude.{
  ℕ, ◌≡◌, refl, ◌⊎◌, [], ◌∷◌, ◌++◌, true, false, none, some, ◌==◌, if◌then◌else◌, arith,
}
use mikan_os.Error.{Code}
use mikan_os.Message.{Message, MessageArg}
use mikan_os.Task.Wake.{IsSound}
use mikan_os.Task.Queue.{update}
use mikan_os.Task.{
  Task, TaskManager, find, constructed, new_task, wakeup, wakeup_sleeping, switch_task, finish,
  wait_finish, send_message, current_task, set_running, set_level, save_context,
  rotate_current_run_queue,
}
use mikan_os.Task.System.{Step, Reach, reachable-IsSound}
use mikan_os.Task.Fair.{Queues, switch_many, round_robin, preempted_resumes}
use mikan_os.Task.Deliver.{
  inbox, awake, send_message_lem, send_all, receive_all, messages_fifo, wait_finish-finish,
}

-- The registers are numbers here.
abbrev fresh_task : ℕ → ℕ → ℕ → Task ℕ
fresh_task id level context = record {
  id = id;
  context = context;
  msgs = [];
  level = level;
  running = true;
}

-- Three tasks at level 3 and the idle task.
abbrev busy : TaskManager ℕ
busy = record {
  tasks = fresh_task 1 3 10 ∷ fresh_task 2 0 20 ∷ fresh_task 3 3 30 ∷ fresh_task 4 3 40 ∷ [];
  latest_id = 4;
  running = update (update (λ level. []) 3 (1 ∷ 3 ∷ 4 ∷ [])) 0 (2 ∷ []);
  current_level = 3;
  level_changed = false;
  finish_tasks = [];
  finish_waiter = [];
}

-- The first task creates another one, wakes it, and is interrupted by the timer.
started : TaskManager ℕ
started = (new_task (constructed 10 20) 30).0

started_sleeper : Task ℕ
started_sleeper = record { id = 3; context = 30; msgs = []; level = 1; running = false }

switched : TaskManager ℕ
switched = (switch_task (wakeup started started_sleeper (some 3)) 11).0

switched_current : current_task switched ≡ 3
unfolding switched started started_sleeper current_task switch_task wakeup wakeup_sleeping new_task
    constructed rotate_current_run_queue save_context
switched_current = refl

switched-Reach : Reach (constructed 10 20) switched
unfolding switched started started_sleeper set_running set_level
switched-Reach =
    Reach.next
      (Reach.next
        (Reach.next Reach.here (Step.creates 30 (unfold constructed new_task in omega arith)))
        (Step.wakes started_sleeper (some 3)
          (unfold started started_sleeper new_task constructed in refl)
          (omega arith, λ e. omega arith)))
      (Step.switches 11)

reachable-IsSound_example : IsSound switched
reachable-IsSound_example = reachable-IsSound 10 20 switched-Reach

busy-Queues : Queues busy (1 ∷ 3 ∷ 4 ∷ [])
busy-Queues = record { holds = refl; settled = refl }

round_robin_example : current_task (switch_many busy (11 ∷ 31 ∷ []) 0).0 ≡ 4
round_robin_example = round_robin (1 ∷ 3 ∷ []) 4 [] busy (11 ∷ 31 ∷ []) 0 refl busy-Queues

preempted_resumes_example : (switch_many busy (11 ∷ 31 ∷ 41 ∷ []) 0).1 ≡ 11
preempted_resumes_example =
    preempted_resumes 1 (3 ∷ 4 ∷ []) busy 11 (31 ∷ 41 ∷ []) 0 (fresh_task 1 3 10) refl busy-Queues
      refl refl

abbrev timeout_message : Message
timeout_message = record { src_task = 0; arg = MessageArg.timer_timeout 7 1 }

abbrev key_message : Message
key_message = record { src_task = 0; arg = MessageArg.key_push 0 4 97 1 }

send_message_lem_example :
    let (code, m') = send_message busy 3 key_message in
    ((find 3 busy.tasks ≡ none) × (code ≡ Code.no_such_task) × (m' ≡ busy))
    ⊎ ((task : Task ℕ) × (find 3 busy.tasks ≡ some task)
        × (code ≡ Code.success)
        × (awake (find 3 m'.tasks) ≡ true)
        × (inbox (find 3 m'.tasks) ≡ (
            if 3 == 3
            then inbox (find 3 busy.tasks) ++ (key_message ∷ [])
            else inbox (find 3 busy.tasks))))
send_message_lem_example = send_message_lem busy 3 key_message 3

messages_fifo_example :
    receive_all 2 (send_all busy 3 (timeout_message ∷ key_message ∷ [])) 3
    ≡ some timeout_message ∷ some key_message ∷ []
messages_fifo_example =
    messages_fifo (timeout_message ∷ key_message ∷ []) busy 3 (fresh_task 3 3 30) refl refl

wait_finish-finish_example : (wait_finish (finish busy 11 7).0 31 1).0 ≡ some 7
unfolding current_task
wait_finish-finish_example = wait_finish-finish busy 11 31 7
