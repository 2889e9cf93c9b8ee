-- ===== src/Task.antt =====
-- kernel/task.hpp and kernel/task.cpp: the tasks, their message queues, and the scheduler with one run
-- queue for each priority level. A `Task *` is the id of the task; 0 stands for no task. The saved
-- registers are of an abstract type `C`. A function that may switch to another task takes the
-- registers of the caller and returns those that the processor goes on with.
pub mod Queue
pub mod Table
pub mod Invariant
pub mod Rotate
pub mod Wake
pub mod Levels
pub mod Sleep
pub mod Finish
pub mod System
pub mod Fair
pub mod Deliver
mod Tests
use mikan_os.Prelude.{
  ℕ, zero, suc, ◌+◌, ◌%◌, ◌^◌, List, [], ◌∷◌, ◌++◌, Bool, true, false, not, ◌&&◌, ◌||◌, Option,
  none, some, ltb, leb, ◌==◌, if◌then◌else◌,
}
use mikan_os.Error.{Code, WithError}
use mikan_os.Message.{Message}
use Queue.{erase, is_empty, front, pop_front, update}

-- `Task`, without its stack and its files.
pub record Task (C : Type 0) : Type 0 where
  pub id : ℕ
  pub context : C
  pub msgs : List Message
  pub level : ℕ
  pub running : Bool

abbrev pub default_level : ℕ
default_level = 1

abbrev pub max_level : ℕ
max_level = 3

-- `TaskManager`. `running` gives the run queue of each level, front first; the two maps are
-- association lists.
pub record TaskManager (C : Type 0) : Type 0 where
  pub tasks : List (Task C)
  pub latest_id : ℕ
  pub running : ℕ → List ℕ
  pub current_level : ℕ
  pub level_changed : Bool
  pub finish_tasks : List (ℕ × ℕ)
  pub finish_waiter : List (ℕ × ℕ)

-- `std::map` with `operator[]` and `erase`.
abbrev pub assoc_find : ℕ → List (ℕ × ℕ) → Option ℕ
assoc_find k [] = none
assoc_find k ((j, v) ∷ m) = if j == k then some v else assoc_find k m

abbrev pub assoc_erase : ℕ → List (ℕ × ℕ) → List (ℕ × ℕ)
assoc_erase k [] = []
assoc_erase k ((j, v) ∷ m) = if j == k then assoc_erase k m else (j, v) ∷ assoc_erase k m

abbrev pub assoc_set : ℕ → ℕ → List (ℕ × ℕ) → List (ℕ × ℕ)
assoc_set k v m = (k, v) ∷ assoc_erase k m

-- The loop of `RotateCurrentRunQueue`: the highest level from `lv - 1` down with a task.
pub highest : (ℕ → List ℕ) → ℕ → ℕ → ℕ
highest running zero current_level = current_level
highest running (suc lv) current_level =
    let rest = highest running lv current_level in if not (is_empty (running lv)) then lv else rest

-- A level argument, where `none` is a negative level.
abbrev pub level_or : Option ℕ → ℕ → ℕ
level_or none default = default
level_or (some level) default = level

-- The front of the message queue.
pub receive_front : List Message → Option Message × List Message
receive_front [] = (none, [])
receive_front (msg ∷ rest) = (some msg, rest)

module _ {C : Type 0} where
  -- The `std::find_if` over `tasks_`.
  abbrev pub find : ℕ → List (Task C) → Option (Task C)
  find i [] = none
  find i (t ∷ ts) = if t.id == i then some t else find i ts

  -- A change to the task that a pointer names.
  abbrev pub modify : ℕ → (Task C → Task C) → List (Task C) → List (Task C)
  modify i f [] = []
  modify i f (t ∷ ts) = if t.id == i then f t ∷ ts else t ∷ modify i f ts

  -- `tasks_.erase(it)`.
  abbrev pub remove : ℕ → List (Task C) → List (Task C)
  remove i [] = []
  remove i (t ∷ ts) = if t.id == i then ts else t ∷ remove i ts

  pub set_level : ℕ → Task C → Task C
  set_level level t = record t { level = level }

  pub set_running : Bool → Task C → Task C
  set_running running t = record t { running = running }

  -- `NewTask`: a new task is asleep at the default level, with registers that `InitContext` sets.
  pub new_task : TaskManager C → C → TaskManager C × ℕ
  new_task m context =
      let id = (m.latest_id + 1) % 2 ^ 64 in
      (
        record m {
          latest_id = id;
          tasks =
              m.tasks
              ++ (record {
                id = id;
                context = context;
                msgs = [];
                level = default_level;
                running = false;
              }
                  ∷ []);
        },
        id,
      )

  -- `CurrentTask`: the front of the current level's queue.
  pub current_task : TaskManager C → ℕ
  current_task m = front (m.running m.current_level)

  -- `RotateCurrentRunQueue`.
  pub rotate_current_run_queue : TaskManager C → Bool → TaskManager C × ℕ
  rotate_current_run_queue m current_sleep =
      let level_queue = m.running m.current_level in
      let task = front level_queue in
      let popped = pop_front level_queue in
      let queue = if current_sleep then popped else popped ++ (task ∷ []) in
      let running = update m.running m.current_level queue in
      let level_changed = m.level_changed || is_empty queue in
      (
        record m {
          running = running;
          level_changed = false;
          current_level =
              if level_changed
              then highest running (suc max_level) m.current_level
              else m.current_level;
        },
        task,
      )

  -- The registers saved in a task; `default` only where there is no such task.
  pub context_of : TaskManager C → ℕ → C → C
  context_of m i default = elim (find i m.tasks) [ none ↦ default | some t ↦ t.context ]

  pub save_context : ℕ → C → TaskManager C → TaskManager C
  save_context i ctx m = record m { tasks = modify i (λ t. record t { context = ctx }) m.tasks }

  -- `SwitchTask`, from the timer interrupt: the registers returned are `current_ctx` where the
  -- current task goes on.
  pub switch_task : TaskManager C → C → TaskManager C × C
  switch_task m current_ctx =
      let saved = save_context (current_task m) current_ctx m in
      let (m', task) = rotate_current_run_queue saved false in
      (
        m',
        if current_task m' == task
            then current_ctx
            else context_of m' (current_task m') current_ctx,
      )

  -- `Sleep(Task *)`. `SwitchContext` saves the caller's registers in the task that goes to sleep.
  pub sleep_running : TaskManager C → C → Task C → TaskManager C × C
  sleep_running m ctx task =
      let asleep = record m { tasks = modify task.id (set_running false) m.tasks } in
      if task.id == current_task m
      then (let (m', current) = rotate_current_run_queue asleep true in
          let saved = save_context current ctx m' in
          (saved, context_of saved (current_task saved) ctx))
      else (
        record asleep {
          running = update m.running task.level (erase task.id (m.running task.level));
        },
        ctx,
      )

  pub sleep : TaskManager C → C → Task C → TaskManager C × C
  sleep m ctx task = if not task.running then (m, ctx) else sleep_running m ctx task

  -- `Error Sleep(uint64_t id)`.
  pub sleep_id : TaskManager C → C → ℕ → Code × (TaskManager C × C)
  sleep_id m ctx id = elim (find id m.tasks) [
    | none ↦ (Code.no_such_task, (m, ctx))
    | some task ↦ (Code.success, sleep m ctx task)
  ]

  -- The two later parts of `ChangeLevelRunning`, for a level that is not negative and not the task's.
  pub move_level : TaskManager C → Task C → ℕ → TaskManager C
  move_level m task level =
      let tasks = modify task.id (set_level level) m.tasks in
      if not (task.id == current_task m)
      then (let erased = update m.running task.level (erase task.id (m.running task.level)) in
          record m {
            tasks = tasks;
            running = update erased level (erased level ++ (task.id ∷ []));
            level_changed = if ltb m.current_level level then true else m.level_changed;
          })
      else (let popped = update m.running m.current_level (pop_front (m.running m.current_level)) in
          record m {
            tasks = tasks;
            running = update popped level (task.id ∷ popped level);
            current_level = level;
            level_changed = if leb m.current_level level then m.level_changed else true;
          })

  -- `ChangeLevelRunning`; `none` is a negative level.
  pub change_level_running : TaskManager C → Task C → Option ℕ → TaskManager C
  change_level_running m task none = m
  change_level_running m task (some level) =
      if level == task.level then m else move_level m task level

  -- The part of `Wakeup` for a task that sleeps.
  pub wakeup_sleeping : TaskManager C → Task C → ℕ → TaskManager C
  wakeup_sleeping m task level = record m {
    tasks = modify task.id (λ t. set_running true (set_level level t)) m.tasks;
    running = update m.running level (m.running level ++ (task.id ∷ []));
    level_changed = if ltb m.current_level level then true else m.level_changed;
  }

  -- `Wakeup(Task *, int level)`.
  pub wakeup : TaskManager C → Task C → Option ℕ → TaskManager C
  wakeup m task level =
      if task.running
      then change_level_running m task level
      else wakeup_sleeping m task (level_or level task.level)

  -- `Error Wakeup(uint64_t id, int level)`.
  pub wakeup_id : TaskManager C → ℕ → Option ℕ → Code × TaskManager C
  wakeup_id m id level = elim (find id m.tasks) [
    | none ↦ (Code.no_such_task, m)
    | some task ↦ (Code.success, wakeup m task level)
  ]

  pub push_message : Message → Task C → Task C
  push_message msg t = record t { msgs = t.msgs ++ (msg ∷ []) }

  -- `Task::SendMessage`: the message goes to the end, and the task is woken at its level.
  pub deliver : TaskManager C → Task C → Message → TaskManager C
  deliver m task msg =
      wakeup (record m { tasks = modify task.id (push_message msg) m.tasks })
        (push_message msg task) none

  -- `TaskManager::SendMessage`.
  pub send_message : TaskManager C → ℕ → Message → Code × TaskManager C
  send_message m id msg = elim (find id m.tasks) [
    | none ↦ (Code.no_such_task, m)
    | some task ↦ (Code.success, deliver m task msg)
  ]

  -- `Task::ReceiveMessage`.
  pub receive_message : TaskManager C → ℕ → Option Message × TaskManager C
  receive_message m id = elim (find id m.tasks) [
    | none ↦ (none, m)
    | some task ↦
        let (msg, rest) = receive_front task.msgs in
        (msg, record m { tasks = modify id (λ t. record t { msgs = rest }) m.tasks })
  ]

  -- The end of `Finish`: the task that waits for `task_id` is taken out of the map and woken.
  pub wake_waiter : TaskManager C → ℕ → TaskManager C
  wake_waiter m task_id = elim (assoc_find task_id m.finish_waiter) [
    | none ↦ m
    | some waiter ↦
        let m' = record m { finish_waiter = assoc_erase task_id m.finish_waiter } in
        elim (find waiter m.tasks) [ none ↦ m' | some task ↦ wakeup m' task none ]
  ]

  -- `Finish`. The registers of the finished task are not kept; `ctx` is returned only where there is
  -- no task to go on with.
  pub finish : TaskManager C → C → ℕ → TaskManager C × C
  finish m ctx exit_code =
      let (m', task_id) = rotate_current_run_queue m true in
      let ended = record m' {
        tasks = remove task_id m'.tasks;
        finish_tasks = assoc_set task_id exit_code m'.finish_tasks;
      } in
      let woken = wake_waiter ended task_id in (woken, context_of woken (current_task woken) ctx)

  -- One round of the loop of `WaitFinish`: the exit code, or the caller sleeps as the waiter. It
  -- makes the next round when it is woken.
  pub wait_finish : TaskManager C → C → ℕ → Option ℕ × (TaskManager C × C)
  wait_finish m ctx task_id = elim (assoc_find task_id m.finish_tasks) [
    | some exit_code ↦
        (some exit_code, (record m { finish_tasks = assoc_erase task_id m.finish_tasks }, ctx))
    | none ↦
        let waiting = record m {
          finish_waiter = assoc_set task_id (current_task m) m.finish_waiter;
        } in
        (
          none,
          elim (find (current_task m) m.tasks) [
            | none ↦ (waiting, ctx)
            | some task ↦ sleep waiting ctx task
          ],
        )
  ]

  -- `TaskManager::TaskManager`: the first task, which is running at the highest level, and the idle
  -- task at the lowest.
  pub constructed : C → C → TaskManager C
  constructed main_context idle_context =
      let empty : TaskManager C = record {
        tasks = [];
        latest_id = 0;
        running = λ level. [];
        current_level = max_level;
        level_changed = false;
        finish_tasks = [];
        finish_waiter = [];
      } in
      let (m1, task) = new_task empty main_context in
      let m2 = record m1 {
        tasks = modify task (λ t. set_running true (set_level max_level t)) m1.tasks;
        running = update m1.running max_level (m1.running max_level ++ (task ∷ []));
      } in
      let (m3, idle) = new_task m2 idle_context in
      record m3 {
        tasks = modify idle (λ t. set_running true (set_level 0 t)) m3.tasks;
        running = update m3.running 0 (m3.running 0 ++ (idle ∷ []));
      }
