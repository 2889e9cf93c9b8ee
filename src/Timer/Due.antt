-- ===== src/Timer/Due.antt =====
-- What one tick does: against the list of the timers that are due.
use mikan_os.Prelude.{
  ℕ, zero, suc, ◌+◌, ◌^◌, ◌≤◌, ◌<◌, List, [], ◌∷◌, Bool, ◌||◌, Option, some, ltb, ◌==◌,
  if◌then◌else◌, arith,
}
use mikan_os.Task.{TaskManager, send_message}
use mikan_os.Timer.{
  Timer, TimerManager, task_timer_value, push, renewed, timeout_message, tick, constructed,
  add_timer,
}

-- The time-outs ascend, from `lo` on.
abbrev pub IsAscending : ℕ → List Timer → Type 0
IsAscending lo [] = Unit {0}
IsAscending lo (t ∷ ts) = (lo ≤ t.timeout) × IsAscending t.timeout ts

-- The timers that have not run out at `now`.
unfoldable pub kept : ℕ → List Timer → List Timer
kept now [] = []
kept now (t ∷ ts) = if ltb now t.timeout then t ∷ kept now ts else kept now ts

-- How many timers have run out, and how many of them are task timers.
pub due_count : ℕ → List Timer → ℕ
due_count now [] = 0
due_count now (t ∷ ts) = if ltb now t.timeout then due_count now ts else suc (due_count now ts)

unfoldable pub task_due_count : ℕ → List Timer → ℕ
task_due_count now [] = 0
task_due_count now (t ∷ ts) =
    if ltb now t.timeout
    then task_due_count now ts
    else if t.value == task_timer_value
    then suc (task_due_count now ts)
    else task_due_count now ts

-- `n` task timers put back.
unfoldable pub put_back : ℕ → ℕ → List Timer → List Timer
put_back now zero ts = ts
put_back now (suc n) ts = put_back now n (push (renewed now) ts)

module _ {C : Type 0} where
  -- A message for each timer that has run out and is no task timer, in order.
  unfoldable pub notify : ℕ → List Timer → TaskManager C → TaskManager C
  notify now [] tasks = tasks
  notify now (t ∷ ts) tasks =
      if ltb now t.timeout || t.value == task_timer_value
      then notify now ts tasks
      else notify now ts (send_message tasks t.task_id (timeout_message t)).1

push-IsAscending :
    (lo : ℕ) (t : Timer) (ts : List Timer)
    → lo ≤ t.timeout
    → IsAscending lo ts
    → IsAscending lo (push t ts)
unfolding push
push-IsAscending lo t [] h a = (h, tt)
push-IsAscending lo t (u ∷ us) h a = ground (arith, push-IsAscending u.timeout t us)

module _ {C : Type 0} (now : ℕ) (small : now + 2 < 2 ^ 64) where
  -- What the loop comes to.
  abbrev pub outcome :
      List Timer → TaskManager C → Bool → Option (List Timer × TaskManager C × Bool)
  outcome ts tasks flag = some (
    put_back now (task_due_count now ts) (kept now ts),
    notify now ts tasks,
    flag || ltb 0 (task_due_count now ts),
  )

-- The timers ascend, and none has run out.
pub record IsOrdered (m : TimerManager) : Type 0 where
  pub ascending : IsAscending (m.tick + 1) m.timers

pub constructed-IsOrdered : IsOrdered constructed
unfolding constructed
constructed-IsOrdered = omega arith

-- `AddTimer` of a timer that lies ahead keeps the order.
pub add_timer-IsOrdered :
    (m : TimerManager) (t : Timer) → IsOrdered m → m.tick < t.timeout → IsOrdered (add_timer m t)
unfolding add_timer
add_timer-IsOrdered m t v h = record {
  ascending = push-IsAscending (m.tick + 1) t m.timers (omega arith) v.ascending;
}

module _ {C : Type 0} (m : TimerManager) (tasks : TaskManager C) where
  -- The new state of the timers after a tick.
  abbrev pub ticked : TimerManager
  ticked =
      let now = m.tick + 1 in
      record { tick = now; timers = put_back now (task_due_count now m.timers) (kept now m.timers) }
