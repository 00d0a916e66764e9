-- ===== src/Scheduler/Poll.antt =====
-- src/task-scheduler.ts: one round of the loop of `startSchedulerLoop`, over the queue.
use nanoclaw_github_copilot.Base.{
  ℕ, String, Bool, true, false, Option, none, some, List, [], ◌∷◌, if◌then◌else◌,
}
use nanoclaw_github_copilot.Queue.{QueuedTask, GroupQueue}
use nanoclaw_github_copilot.Queue.Enqueue.{enqueue_task}
use nanoclaw_github_copilot.Scheduler.{ScheduledTask}
use nanoclaw_github_copilot.Scheduler.Rows.{TaskDb, is_active_status, get_due_tasks}

-- The closure `() => runTask(currentTask, deps)` of a row is known by a number.
abbrev pub queued : (ScheduledTask → ℕ) → ScheduledTask → QueuedTask
queued closure task = record { id = task.id; group_jid = task.chat_jid; fn = closure task }

abbrev pub enqueue_current :
    ℕ → (ScheduledTask → ℕ) → Option ScheduledTask → GroupQueue → GroupQueue
enqueue_current limit closure none q = q
enqueue_current limit closure (some task) q =
    if is_active_status task.status then enqueue_task limit (queued closure task) q else q

-- The body of the loop, where `current` is what `getTaskById` answers when the row is checked again: a run
-- that an earlier round started may have written the row.
unfoldable pub poll_tasks :
    ℕ
    → (ScheduledTask → ℕ)
    → (String → Option ScheduledTask)
    → List ScheduledTask
    → GroupQueue
    → GroupQueue
unfolding enqueue_task
poll_tasks limit closure current [] q = q
poll_tasks limit closure current (task ∷ tasks) q =
    poll_tasks limit closure current tasks (enqueue_current limit closure (current task.id) q)

unfoldable pub poll :
    ℕ → (ScheduledTask → ℕ) → (String → Option ScheduledTask) → ℕ → TaskDb → GroupQueue → GroupQueue
unfolding poll_tasks get_due_tasks
poll limit closure current now db q = poll_tasks limit closure current (get_due_tasks now db) q

-- `schedulerRunning`: a second start does nothing. `true` where the loop starts.
unfoldable pub start_scheduler_loop : Bool → Bool × Bool
start_scheduler_loop scheduler_running = if scheduler_running then (true, false) else (true, true)
