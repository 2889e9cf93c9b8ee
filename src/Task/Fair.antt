-- ===== src/Task/Fair.antt =====
-- Round robin: who runs after how many timer interrupts, and with which registers.
use mikan_os.Prelude.{
  ℕ, ◌≡◌, refl, sym, ap, ◌∙◌, subst, ◌≢◌, List, [], ◌∷◌, ◌++◌, false, Option, none, some, ◌==◌,
  if◌then◌else◌, arith,
}
use mikan_os.Task.Queue.{count, front}
use mikan_os.Task.{
  Task, TaskManager, find, current_task, rotate_current_run_queue, save_context, context_of,
  switch_task,
}
use mikan_os.Task.Table.{find-modify}
use mathlib.Core.List.{append_assoc}
use mikan_os.Prelude.{length}
use mikan_os.Task.Wake.{is_empty-append}

module _ {C : Type 0} where
  -- Timer interrupts in a row, each with the registers that it finds; the last registers that the
  -- processor goes on with.
  pub switch_many : TaskManager C → List C → C → TaskManager C × C
  switch_many m [] last = (m, last)
  switch_many m (ctx ∷ ctxs) last =
      let (m', resumed) = switch_task m ctx in switch_many m' ctxs resumed

  -- A level that keeps the processor: its queue holds the listed tasks, and no level is to be looked at.
  pub record Queues (m : TaskManager C) (queue : List ℕ) : Type 0 where
    pub holds : m.running m.current_level ≡ queue
    pub settled : m.level_changed ≡ false

  switch-Queues :
      {m : TaskManager C} {x : ℕ} {xs : List ℕ} (ctx : C)
      → Queues m (x ∷ xs)
      → Queues (switch_task m ctx).0 (xs ++ (x ∷ []))
  unfolding switch_task rotate_current_run_queue save_context current_task
  switch-Queues {m} {x} {xs} ctx q = ground (arith, is_empty-append xs x)

  first_of_queue :
      {m : TaskManager C} {x : ℕ} {xs : List ℕ} → Queues m (x ∷ xs) → current_task m ≡ x
  unfolding current_task
  first_of_queue q = ap front q.holds

  -- The task behind xs in the queue of the current level is current after as many timer interrupts as
  -- xs has tasks, where no level is to be looked at again.
  pub round_robin :
      (xs : List ℕ) (y : ℕ) (ys : List ℕ) (m : TaskManager C) (ctxs : List C) (last : C)
      → length ctxs ≡ length xs
      → Queues m (xs ++ (y ∷ ys))
      → current_task (switch_many m ctxs last).0 ≡ y
  unfolding switch_many
  round_robin [] y ys m [] last h q = unfold current_task in rw (q.holds) refl
  round_robin [] y ys m (c ∷ ctxs) last h q = absurd (omega arith)
  round_robin (x ∷ xs) y ys m [] last h q = absurd (omega arith)
  round_robin (x ∷ xs) y ys m (c ∷ ctxs) last h q =
      round_robin xs y (ys ++ (x ∷ [])) _ ctxs _ (omega arith)
        (subst (Queues (switch_task m c).0) (append_assoc xs (y ∷ ys) (x ∷ [])) (switch-Queues c q))

  -- The registers that the table keeps for a task, if it has the task.
  abbrev pub registers : Option (Task C) → Option C
  registers none = none
  registers (some t) = some t.context

  context_of-registers :
      (m : TaskManager C) (i : ℕ) (ctx default : C)
      → registers (find i m.tasks) ≡ some ctx
      → context_of m i default ≡ ctx
  unfolding context_of
  context_of-registers m i ctx default h = ground arith

  -- A timer interrupt saves the registers of the current task, and of no other.
  registers-switch_task :
      (m : TaskManager C) (ctx : C) (i : ℕ)
      → registers (find i (switch_task m ctx).0.tasks) ≡ (
          if current_task m == i
          then elim (find i m.tasks) [ none ↦ none | some t ↦ some ctx ]
          else registers (find i m.tasks))
  unfolding switch_task rotate_current_run_queue save_context
  registers-switch_task m ctx i =
      ground (
        arith,
        find-modify i (current_task m) (λ t. record t { context = ctx }) (λ t. refl) m.tasks,
      )

  switch_task-resumed :
      (m : TaskManager C) (ctx : C)
      → (switch_task m ctx).1 ≡ (
          if current_task (switch_task m ctx).0 == current_task m
          then ctx
          else context_of (switch_task m ctx).0 (current_task (switch_task m ctx).0) ctx)
  unfolding switch_task rotate_current_run_queue save_context current_task
  switch_task-resumed m ctx = refl

  resumed_other :
      (m : TaskManager C) (ctx saved : C) (y : ℕ)
      → current_task (switch_task m ctx).0 ≡ y
      → current_task m ≢ y
      → registers (find y m.tasks) ≡ some saved
      → (switch_task m ctx).1 ≡ saved
  resumed_other m ctx saved y e ne h = ground (
    arith,
    switch_task-resumed m ctx,
    registers-switch_task m ctx y,
    context_of-registers (switch_task m ctx).0 y saved ctx,
    ap (λ i. context_of (switch_task m ctx).0 i ctx) e,
  )

  resumed_self :
      (m : TaskManager C) (ctx : C)
      → current_task (switch_task m ctx).0 ≡ current_task m
      → (switch_task m ctx).1 ≡ ctx
  resumed_self m ctx e = ground (arith, switch_task-resumed m ctx)

  resumes_later :
      (x : ℕ) (xs : List ℕ) (y : ℕ) (ys : List ℕ) (m : TaskManager C) (c : C) (ctxs : List C)
      (saved last : C)
      → length ctxs ≡ length xs
      → Queues m (x ∷ (xs ++ (y ∷ ys)))
      → count y (x ∷ xs) ≡ 0
      → registers (find y m.tasks) ≡ some saved
      → (switch_many m (c ∷ ctxs) last).1 ≡ saved
  unfolding switch_many
  resumes_later x [] y ys m c [] saved last h q absent kept =
      resumed_other m c saved y (first_of_queue (switch-Queues c q))
        (λ e. ne (sym (first_of_queue q) ∙ e)) kept
    where
      ne : x ≢ y
      ne e = ground arith
  resumes_later x [] y ys m c (d ∷ ctxs) saved last h q absent kept = absurd (omega arith)
  resumes_later x (x' ∷ xs) y ys m c [] saved last h q absent kept = absurd (omega arith)
  resumes_later x (x' ∷ xs) y ys m c (d ∷ ctxs) saved last h q absent kept =
      resumes_later x' xs y (ys ++ (x ∷ [])) (switch_task m c).0 d ctxs saved (switch_task m c).1
        (omega arith)
        (subst (Queues (switch_task m c).0) (append_assoc (x' ∷ xs) (y ∷ ys) (x ∷ []))
          (switch-Queues c q))
        (ground arith) (ground (arith, registers-switch_task m c y, first_of_queue q))

  -- A task that a timer interrupt takes from the processor goes on with the registers that it had,
  -- when its level has gone round, whatever registers the tasks in between leave.
  pub preempted_resumes :
      (a : ℕ) (xs : List ℕ) (m : TaskManager C) (ctx : C) (ctxs : List C) (last : C) (t : Task C)
      → length ctxs ≡ length xs
      → Queues m (a ∷ xs)
      → count a xs ≡ 0
      → find a m.tasks ≡ some t
      → (switch_many m (ctx ∷ ctxs) last).1 ≡ ctx
  unfolding switch_many
  preempted_resumes a [] m ctx [] last t h q absent known =
      resumed_self m ctx (first_of_queue (switch-Queues ctx q) ∙ sym (first_of_queue q))
  preempted_resumes a [] m ctx (d ∷ ctxs) last t h q absent known = absurd (omega arith)
  preempted_resumes a (x ∷ xs) m ctx [] last t h q absent known = absurd (omega arith)
  preempted_resumes a (x ∷ xs) m ctx (d ∷ ctxs) last t h q absent known =
      resumes_later x xs a [] (switch_task m ctx).0 d ctxs ctx (switch_task m ctx).1 (omega arith)
        (switch-Queues ctx q) absent
        (ground (arith, registers-switch_task m ctx a, first_of_queue q))
