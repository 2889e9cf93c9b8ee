-- ===== src/Task/Invariant.antt =====
-- What holds of the scheduler between its operations.
use mikan_os.Prelude.{
  ℕ, ◌≤◌, ◌<◌, ◌≡◌, List, [], false, Option, none, some, ◌&&◌, ◌==◌, if◌then◌else◌,
}
use mikan_os.Task.Queue.{count, is_empty}
use mikan_os.Task.{Task, TaskManager, find, max_level}
use mikan_os.Task.Table.{IsUnique}

-- No level above `top` has a task.
abbrev pub NoneAbove : (ℕ → List ℕ) → ℕ → Type 0
NoneAbove running top = (lv : ℕ) → top < lv → running lv ≡ []

-- The id of the idle task.
abbrev pub idle_id : ℕ
idle_id = 2

module _ {C : Type 0} where
  -- How often the run queue of `lv` holds a task with this look-up: once, if the task is running at
  -- that level, and else never.
  abbrev pub expected : Option (Task C) → ℕ → ℕ
  expected none lv = 0
  expected (some t) lv = if t.running && t.level == lv then 1 else 0

  -- The level of a task, if there is one.
  abbrev pub level_in : Option (Task C) → ℕ
  level_in none = 0
  level_in (some t) = t.level

  -- The queues hold exactly the running tasks, each once and at its own level.
  abbrev pub IsQueued : TaskManager C → Type 0
  IsQueued m = (lv i : ℕ) → count i (m.running lv) ≡ expected (find i m.tasks) lv

  pub record IsConsistent (m : TaskManager C) : Type 0 where
    pub unique : IsUnique m.tasks
    pub fresh : (i : ℕ) → m.latest_id < i → find i m.tasks ≡ none
    pub levels : (i : ℕ) → level_in (find i m.tasks) ≤ max_level
    pub queued : IsQueued m
    pub top : NoneAbove m.running max_level

  -- A task is current, and no task has a higher priority, unless the levels are to be looked at again.
  pub record IsScheduled (m : TaskManager C) : Type 0 where
    pub level_fits : m.current_level ≤ max_level
    pub occupied : is_empty (m.running m.current_level) ≡ false
    pub priority : m.level_changed ≡ false → NoneAbove m.running m.current_level
    pub idle : count idle_id (m.running 0) ≡ 1
