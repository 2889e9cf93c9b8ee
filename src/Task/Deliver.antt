-- ===== src/Task/Deliver.antt =====
-- What `SendMessage`, `ReceiveMessage`, `Finish` and `WaitFinish` deliver.
use mikan_os.Prelude.{
  ℕ, zero, suc, ◌≡◌, refl, sym, ap, ◌∙◌, subst, ◌⊎◌, inl, inr, List, [], ◌∷◌, ◌++◌, Bool, true,
  false, not, Option, none, some, ◌&&◌, ◌==◌, if◌then◌else◌, arith, Option-cases, ==_yes,
}
use mikan_os.Task.Queue.{front}
use mikan_os.Task.{
  Task, TaskManager, find, modify, current_task, set_running, rotate_current_run_queue,
}
use mikan_os.Task.Table.{apply_to, find-modify}
use mathlib.Core.List.{append-nil, append_assoc}
use mikan_os.Prelude.{length, map, ap₂}
use mikan_os.Error.{Code}
use mikan_os.Message.{Message}
use mikan_os.Task.Table.{find-id}
use mikan_os.Task.{
  wakeup, set_level, wakeup_sleeping, move_level, change_level_running, push_message, deliver,
  send_message, receive_message, receive_front, wake_waiter, finish, wait_finish, assoc_find,
  assoc_set,
}

module _ {C : Type 0} where
  -- The messages of a task, if there is one.
  abbrev pub inbox : Option (Task C) → List Message
  inbox none = []
  inbox (some t) = t.msgs

  -- Whether a task is running.
  abbrev pub awake : Option (Task C) → Bool
  awake none = false
  awake (some t) = t.running

  find-wakeup :
      (m : TaskManager C) (task : Task C) (i : ℕ)
      → find i (wakeup m task none).tasks ≡ (
          if not task.running && task.id == i
          then apply_to (λ t. set_running true (set_level task.level t)) (find i m.tasks)
          else find i m.tasks)
  unfolding wakeup wakeup_sleeping change_level_running set_running set_level
  find-wakeup m task i = ground (
    arith,
    find-modify i task.id (λ t. set_running true (set_level task.level t)) (λ t. refl) m.tasks,
  )

  find-deliver :
      (m : TaskManager C) (task : Task C) (msg : Message) (i : ℕ)
      → find i (deliver m task msg).tasks ≡ (
          if not task.running && task.id == i
          then apply_to
              (λ t. set_running true (set_level task.level t))
              (find i (modify task.id (push_message msg) m.tasks))
          else find i (modify task.id (push_message msg) m.tasks))
  unfolding deliver push_message
  find-deliver m task msg i =
      find-wakeup (record m { tasks = modify task.id (push_message msg) m.tasks })
        (push_message msg task) i

  find-pushed :
      (m : TaskManager C) (task : Task C) (msg : Message) (i : ℕ)
      → find i (modify task.id (push_message msg) m.tasks)
        ≡ (if task.id == i then apply_to (push_message msg) (find i m.tasks) else find i m.tasks)
  unfolding push_message
  find-pushed m task msg i =
      find-modify i task.id (λ t. record t { msgs = t.msgs ++ (msg ∷ []) }) (λ t. refl) m.tasks

  deliver-awake :
      (m : TaskManager C) (task : Task C) (msg : Message)
      → find task.id m.tasks ≡ some task
      → awake (find task.id (deliver m task msg).tasks) ≡ true
  unfolding push_message set_running set_level
  deliver-awake m task msg known =
      ground (arith, find-deliver m task msg task.id, find-pushed m task msg task.id)

  deliver-inbox :
      (m : TaskManager C) (task : Task C) (msg : Message) (i : ℕ)
      → find task.id m.tasks ≡ some task
      → inbox (find i (deliver m task msg).tasks)
        ≡ (if task.id == i then inbox (find i m.tasks) ++ (msg ∷ []) else inbox (find i m.tasks))
  unfolding push_message set_running set_level
  deliver-inbox m task msg i known =
      ground (arith, find-deliver m task msg i, find-pushed m task msg i)

  -- `SendMessage` to a task of the table succeeds: the message goes behind the others of its queue, the
  -- task is running, and no other task's messages change. For an id that no task of the table has, and
  -- only then, it reports the error, and it changes nothing.
  pub send_message_lem :
      (m : TaskManager C) (id : ℕ) (msg : Message) (i : ℕ)
      → let (code, m') = send_message m id msg in
        ((find id m.tasks ≡ none) × (code ≡ Code.no_such_task) × (m' ≡ m))
        ⊎ ((task : Task C) × (find id m.tasks ≡ some task)
            × (code ≡ Code.success)
            × (awake (find id m'.tasks) ≡ true)
            × (inbox (find i m'.tasks) ≡ (
                if id == i then inbox (find i m.tasks) ++ (msg ∷ []) else inbox (find i m.tasks))))
  unfolding send_message
  send_message_lem m id msg i = elim (Option-cases (find id m.tasks)) [
    | inl gone ↦ inl (gone, rw (gone, send_message), rw (gone, send_message))
    | inr (task, known) ↦
        let e = find-id id m.tasks task known in
        let known' : find task.id m.tasks ≡ some task =
          subst (λ j. find j m.tasks ≡ some task) (sym e) known in
        inr (
          task,
          known,
          rw (known, send_message),
          rw (known, send_message)
              (subst (λ j. awake (find j (deliver m task msg).tasks) ≡ true) e
                (deliver-awake m task msg known')),
          rw (known, send_message)
              (subst
                (λ j. inbox (find i (deliver m task msg).tasks) ≡ (
                  if j == i then inbox (find i m.tasks) ++ (msg ∷ []) else inbox (find i m.tasks)))
                e (deliver-inbox m task msg i known')),
        )
  ]

  pub send_message-unknown :
      (m : TaskManager C) (id : ℕ) (msg : Message)
      → find id m.tasks ≡ none
      → send_message m id msg ≡ (Code.no_such_task, m)
  unfolding send_message
  send_message-unknown m id msg gone = rw (send_message, gone) refl

  -- `ReceiveMessage` takes the oldest message of the task.
  receive-some :
      (m : TaskManager C) (id : ℕ) (first : Message) (rest : List Message)
      → inbox (find id m.tasks) ≡ first ∷ rest
      → ((receive_message m id).0 ≡ some first)
        × (inbox (find id (receive_message m id).1.tasks) ≡ rest)
  unfolding receive_front receive_message
  receive-some m id first rest h = elim (Option-cases (find id m.tasks)) [
    | inl gone ↦ absurd (ground arith)
    | inr (task, known) ↦
        let e : task.msgs ≡ first ∷ rest = ground arith in
        (
          simp (known, receive_message, e),
          simp (known, receive_message, e)
              (ground
                (arith, find-modify id id (λ t. record t { msgs = rest }) (λ t. refl) m.tasks)),
        )
  ]

  -- Messages sent one after another to the same task.
  pub send_all : TaskManager C → ℕ → List Message → TaskManager C
  send_all m id [] = m
  send_all m id (msg ∷ msgs) = send_all (send_message m id msg).1 id msgs

  -- `n` calls of `ReceiveMessage` by the same task.
  pub receive_all : ℕ → TaskManager C → ℕ → List (Option Message)
  receive_all zero m id = []
  receive_all (suc n) m id = let (msg, m') = receive_message m id in msg ∷ receive_all n m' id

  inbox-send_all :
      (msgs : List Message) (m : TaskManager C) (id : ℕ) (task : Task C)
      → find id m.tasks ≡ some task
      → inbox (find id (send_all m id msgs).tasks) ≡ inbox (find id m.tasks) ++ msgs
  unfolding send_all
  inbox-send_all [] m id task known = sym (append-nil (inbox (find id m.tasks)))
  inbox-send_all (msg ∷ msgs) m id task known = elim (send_message_lem m id msg id) [
    | inl (gone, _, _) ↦ absurd (ground arith)
    | inr (_, _, _, running, sent) ↦ elim (Option-cases (find id (send_message m id msg).1.tasks)) [
      | inl gone ↦ absurd (ground arith)
      | inr (task', known') ↦
          inbox-send_all msgs (send_message m id msg).1 id task' known'
          ∙ (ap (λ q. q ++ msgs) (ground (arith, sent))
              ∙ append_assoc (inbox (find id m.tasks)) (msg ∷ []) msgs)
    ]
  ]

  receive_all-inbox :
      (msgs : List Message) (m : TaskManager C) (id : ℕ)
      → inbox (find id m.tasks) ≡ msgs
      → receive_all (length msgs) m id ≡ map some msgs
  unfolding receive_all
  receive_all-inbox [] m id h = refl
  receive_all-inbox (msg ∷ msgs) m id h =
      let r = receive-some m id msg msgs h in
      ap₂ ◌∷◌ r.0 (receive_all-inbox msgs (receive_message m id).1 id r.1)

  -- A task with an empty queue receives the messages that it is sent, all of them and in the order in
  -- which they were sent.
  pub messages_fifo :
      (msgs : List Message) (m : TaskManager C) (id : ℕ) (task : Task C)
      → find id m.tasks ≡ some task
      → task.msgs ≡ []
      → receive_all (length msgs) (send_all m id msgs) id ≡ map some msgs
  messages_fifo msgs m id task known empty =
      receive_all-inbox msgs (send_all m id msgs) id
        (inbox-send_all msgs m id task known ∙ ap (λ q. q ++ msgs) (ap inbox known ∙ empty))

  wake_waiter-finish_tasks :
      (m : TaskManager C) (id : ℕ) → (wake_waiter m id).finish_tasks ≡ m.finish_tasks
  unfolding wake_waiter wakeup change_level_running wakeup_sleeping move_level
  wake_waiter-finish_tasks m id = ground arith

  finish-finish_tasks :
      (m : TaskManager C) (ctx : C) (exit_code : ℕ)
      → (finish m ctx exit_code).0.finish_tasks
        ≡ assoc_set (current_task m) exit_code m.finish_tasks
  unfolding finish rotate_current_run_queue current_task
  finish-finish_tasks m ctx exit_code =
      wake_waiter-finish_tasks _ (front (m.running m.current_level))

  wait_finish-some :
      (m : TaskManager C) (waiting : C) (id code : ℕ)
      → assoc_find id m.finish_tasks ≡ some code
      → (wait_finish m waiting id).0 ≡ some code
  unfolding wait_finish
  wait_finish-some m waiting id code h = rw (h, wait_finish)

  -- The exit code that a task gives to `Finish` is what `WaitFinish` on that task returns at once.
  pub wait_finish-finish :
      (m : TaskManager C) (ctx waiting : C) (exit_code : ℕ)
      → (wait_finish (finish m ctx exit_code).0 waiting (current_task m)).0 ≡ some exit_code
  wait_finish-finish m ctx waiting exit_code =
      wait_finish-some (finish m ctx exit_code).0 waiting (current_task m) exit_code (
        rw (finish-finish_tasks m ctx exit_code, ==_yes (current_task m) (current_task m) refl)
          refl)
