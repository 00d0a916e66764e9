-- ===== src/Scheduler/Overlap.antt =====
-- src/task-scheduler.ts over src/group-queue.ts: rounds of the scheduler's loop that follow each other.
use nanoclaw_github_copilot.Base.{
  ℕ, ◌≡◌, refl, String, true, Option, none, some, List, [], ◌∷◌, arith, All, lookup, insert,
  lookup-insert, if_elim, is_some, at_least, includes, ◌||◌,
}
use nanoclaw_github_copilot.Queue.{
  QueuedTask, GroupQueue, task_slot_key, get_slot, peek_slot, store, emit,
}
use nanoclaw_github_copilot.Queue.Run.{begin_task, start_task}
use nanoclaw_github_copilot.Queue.Enqueue.{is_active as slot_active, park, admit_task, enqueue_task}
use nanoclaw_github_copilot.Queue.Tasks.{IsTaken, enqueue_taken, enqueue_task-IsTaken}
use nanoclaw_github_copilot.Scheduler.{ScheduledTask}
use nanoclaw_github_copilot.Scheduler.Rows.{TaskDb, is_active_status, get_due_tasks}
use nanoclaw_github_copilot.Scheduler.Poll.{queued, enqueue_current, poll_tasks, poll}

park_keeps :
    (key slot : String) (t : QueuedTask) (q : GroupQueue)
    → IsTaken slot q
    → IsTaken slot (park key (record q { waiting_task_fns = insert key t q.waiting_task_fns }))
unfolding park
park_keeps key slot t q h =
    if_elim (IsTaken slot) (includes q.waiting_slots key) (λ _. waits) (λ _. waits)
  where
    waits :
        (q.shutting_down
          || slot_active (lookup slot q.slots)
          || is_some (lookup slot (insert key t q.waiting_task_fns)))
        ≡ true
    waits = ground (arith, h, lookup-insert key slot t q.waiting_task_fns)

-- A slot that is taken stays so while other tasks are enqueued.
enqueue_task_keeps :
    (limit : ℕ) (t : QueuedTask) (slot : String) (q : GroupQueue)
    → IsTaken slot q
    → IsTaken slot (enqueue_task limit t q)
unfolding enqueue_task admit_task peek_slot start_task store emit
enqueue_task_keeps limit t slot q h =
    let key = task_slot_key t.group_jid t.id in
    if_elim (IsTaken slot) q.shutting_down (λ _. h)
      λ _.
        if_elim (IsTaken slot) (slot_active (lookup key q.slots)) (λ _. h)
          λ _.
            if_elim (IsTaken slot) (is_some (lookup key q.waiting_task_fns)) (λ _. h)
              λ _.
                if_elim (IsTaken slot) (at_least q.active_count limit)
                  (λ _. park_keeps key slot t q h)
                  (λ _. ground (
                    arith,
                    h,
                    lookup-insert key slot
                        (begin_task t.id (get_slot q key t.group_jid (some t.id))) q.slots,
                  ))

-- The row is not run: it is gone or inactive, or its slot in the queue is taken.
abbrev pub HandledRow : GroupQueue → Option ScheduledTask → Type 0
HandledRow q none = Unit
HandledRow q (some task) =
    is_active_status task.status ≡ true → IsTaken (task_slot_key task.chat_jid task.id) q

abbrev Handled : (String → Option ScheduledTask) → GroupQueue → ScheduledTask → Type 0
Handled current q task = HandledRow q (current task.id)

enqueue_current_keeps :
    (limit : ℕ) (closure : ScheduledTask → ℕ) (row other : Option ScheduledTask) (q : GroupQueue)
    → HandledRow q other
    → HandledRow (enqueue_current limit closure row q) other
enqueue_current_keeps limit closure row none q h = tt
enqueue_current_keeps limit closure none (some other) q h = h
enqueue_current_keeps limit closure (some task) (some other) q h = λ a.
    if_elim (IsTaken (task_slot_key other.chat_jid other.id)) (is_active_status task.status)
      (λ _. enqueue_task_keeps limit (queued closure task) _ q (h a)) (λ _. h a)

enqueue_current-Handled :
    (limit : ℕ) (closure : ScheduledTask → ℕ) (row : Option ScheduledTask) (q : GroupQueue)
    → HandledRow (enqueue_current limit closure row q) row
enqueue_current-Handled limit closure none q = tt
enqueue_current-Handled limit closure (some task) q = λ a.
    if_elim (IsTaken (task_slot_key task.chat_jid task.id)) (is_active_status task.status)
      (λ _. enqueue_task-IsTaken limit (queued closure task) q) (λ off. absurd (cc (a, off)))

enqueue_current_noop :
    (limit : ℕ) (closure : ScheduledTask → ℕ) (row : Option ScheduledTask) (q : GroupQueue)
    → HandledRow q row
    → enqueue_current limit closure row q ≡ q
enqueue_current_noop limit closure none q h = refl
enqueue_current_noop limit closure (some task) q h =
    if_elim (λ (r : GroupQueue). r ≡ q) (is_active_status task.status)
      (λ a. enqueue_taken limit (queued closure task) q (h a)) (λ _. refl)

module _ (limit : ℕ) (current : String → Option ScheduledTask) where
  poll_tasks_keeps :
      (closure : ScheduledTask → ℕ) (tasks : List ScheduledTask) (row : Option ScheduledTask)
      (q : GroupQueue)
      → HandledRow q row
      → HandledRow (poll_tasks limit closure current tasks q) row
  unfolding poll_tasks
  poll_tasks_keeps closure [] row q h = h
  poll_tasks_keeps closure (task ∷ tasks) row q h =
      poll_tasks_keeps closure tasks row _
        (enqueue_current_keeps limit closure (current task.id) row q h)

  pub poll_tasks-Handled :
      (closure : ScheduledTask → ℕ) (tasks : List ScheduledTask) (q : GroupQueue)
      → All (Handled current (poll_tasks limit closure current tasks q)) tasks
  unfolding poll_tasks
  poll_tasks-Handled closure [] q = tt
  poll_tasks-Handled closure (task ∷ tasks) q = (
    poll_tasks_keeps closure tasks (current task.id) _
        (enqueue_current-Handled limit closure (current task.id) q),
    poll_tasks-Handled closure tasks (enqueue_current limit closure (current task.id) q),
  )

  poll_tasks_noop :
      (closure : ScheduledTask → ℕ) (tasks : List ScheduledTask) (q : GroupQueue)
      → All (Handled current q) tasks
      → poll_tasks limit closure current tasks q ≡ q
  unfolding poll_tasks
  poll_tasks_noop closure [] q h = refl
  poll_tasks_noop closure (task ∷ tasks) q h =
      rw (enqueue_current_noop limit closure (current task.id) q h.0)
        (poll_tasks_noop closure tasks q h.1)

-- Two rounds of the scheduler's loop over the same tables leave the queue as one does: a due task that runs
-- already, or waits for a free place, is not started a second time, although its row stays due until the
-- run ends and although the second round hands over new closures.
pub poll_idem :
    (limit now : ℕ) (current : String → Option ScheduledTask) (closure again : ScheduledTask → ℕ)
    (db : TaskDb) (q : GroupQueue)
    → poll limit again current now db (poll limit closure current now db q)
      ≡ poll limit closure current now db q
unfolding poll
poll_idem limit now current closure again db q =
    poll_tasks_noop limit current again (get_due_tasks now db) _
      (poll_tasks-Handled limit current closure (get_due_tasks now db) q)
