-- ===== src/Timer.antt =====
-- kernel/timer.hpp and kernel/timer.cpp: the timers of the kernel and the timer interrupt.
-- The priority queue is a list in ascending order of the time-outs, a new timer behind those of the
-- same time-out; the C++ library leaves that order open.
pub mod Due
mod Tests
use mikan_os.Prelude.{
  ℕ, zero, suc, ◌+◌, ◌-◌, ◌*◌, ◌^◌, ◌%◌, List, [], ◌∷◌, Bool, true, false, Option, none, some, ltb,
  ◌==◌, if◌then◌else◌,
}
use mikan_os.Message.{Message, MessageArg}
use mikan_os.Task.{TaskManager, send_message, switch_task}

pub record Timer : Type 0 where
  pub timeout : ℕ
  pub value : ℕ
  pub task_id : ℕ

pub record TimerManager : Type 0 where
  pub tick : ℕ
  pub timers : List Timer

-- `kTaskTimerPeriod` is 0.02 seconds at 100 ticks a second.
abbrev pub task_timer_period : ℕ
task_timer_period = 2

-- `kTaskTimerValue`, the greatest `int`.
abbrev pub task_timer_value : ℕ
task_timer_value = 2 ^ 31 - 1

-- `timers_.push`.
pub push : Timer → List Timer → List Timer
push t [] = t ∷ []
push t (u ∷ us) = if ltb t.timeout u.timeout then t ∷ u ∷ us else u ∷ push t us

-- `TimerManager::TimerManager`: the timer that never runs out keeps the queue occupied.
pub constructed : TimerManager
constructed = record {
  tick = 0;
  timers = record { timeout = 2 ^ 64 - 1; value = 0; task_id = 0 } ∷ [];
}

pub add_timer : TimerManager → Timer → TimerManager
add_timer m t = record m { timers = push t m.timers }

-- The timer that replaces a task timer which has run out at `tick`.
abbrev pub renewed : ℕ → Timer
renewed tick = record {
  timeout = (tick + task_timer_period) % 2 ^ 64;
  value = task_timer_value;
  task_id = 1;
}

-- The message for a timer that has run out.
abbrev pub timeout_message : Timer → Message
timeout_message t = record { src_task = 0; arg = MessageArg.timer_timeout t.timeout t.value }

-- Every round takes one timer that has run out away, so one round more than there are timers is
-- enough.
abbrev pub rounds : List Timer → ℕ
rounds [] = 1
rounds (t ∷ timers) = suc (rounds timers)

module _ {C : Type 0} where
  -- The loop of `Tick`, with `task_timer_timeout` as its last argument; `none` means that the fuel ran
  -- out.
  pub tick_loop :
      ℕ → ℕ → List Timer → TaskManager C → Bool → Option (List Timer × TaskManager C × Bool)
  tick_loop zero tick timers tasks task_timeout = none
  tick_loop (suc fuel) tick [] tasks task_timeout = some ([], tasks, task_timeout)
  tick_loop (suc fuel) tick (t ∷ timers) tasks task_timeout =
      let renewing = tick_loop fuel tick (push (renewed tick) timers) tasks true in
      let sending =
        tick_loop fuel tick timers (send_message tasks t.task_id (timeout_message t)).1
          task_timeout in
      if ltb tick t.timeout
      then some (t ∷ timers, tasks, task_timeout)
      else if t.value == task_timer_value
      then renewing
      else sending

  -- `Tick`.
  pub tick : TimerManager → TaskManager C → Option (TimerManager × TaskManager C × Bool)
  tick m tasks =
      let now = (m.tick + 1) % 2 ^ 64 in
      elim (tick_loop (rounds m.timers) now m.timers tasks false) [
        | none ↦ none
        | some (timers, tasks', task_timeout) ↦
            some (record { tick = now; timers = timers }, tasks', task_timeout)
      ]

  -- `LAPICTimerOnInterrupt`: the task is switched where the task timer has run out.
  pub on_interrupt : TimerManager → TaskManager C → C → Option (TimerManager × TaskManager C × C)
  on_interrupt m tasks ctx = elim (tick m tasks) [
    | none ↦ none
    | some (m', tasks', task_timeout) ↦
        let (switched, resumed) = switch_task tasks' ctx in
        some (m', if task_timeout then switched else tasks', if task_timeout then resumed else ctx)
  ]
