-- ===== src/Scheduler/Due.antt =====
-- src/task-scheduler.ts: a task that has run is not due until its next run, on any path of `runTask`.
use nanoclaw_github_copilot.Base.{ℕ, ◌≡◌, refl, ◌≢◌, ◌<◌, String, false, Option, none, some, All}
use nanoclaw_github_copilot.Mounts.Strings.{Text}
use nanoclaw_github_copilot.Scheduler.{cron, ScheduledTask, NextRun, runs_at, never, raised, stuck}
use nanoclaw_github_copilot.Scheduler.Rows.{TaskDb, is_due_row, get_due_tasks}
use nanoclaw_github_copilot.Scheduler.Run.{Progress, returned, threw, running}

-- cron-parser finds the pattern's next instant, and it lies after the given one.
abbrev pub CronAdvances : (Text → ℕ → Option ℕ) → Text → ℕ → Type 0
CronAdvances cron_next value now = (t : ℕ) × (cron_next value now ≡ some t) × (now < t)

-- A task whose schedule has a next run, if it needs the parser for it.
abbrev pub CanAdvance : (Text → ℕ → Option ℕ) → ℕ → ScheduledTask → Type 0
CanAdvance cron_next now task =
    task.schedule_type ≡ cron → CronAdvances cron_next task.schedule_value now

abbrev Ahead : ℕ → NextRun → Type 0
Ahead now (runs_at t) = now < t
Ahead now never = Unit
Ahead now raised = ⊥
Ahead now stuck = ⊥

Option-split {ℓ} :
    {A : Type ℓ} (P : Option A → Type 0) (o : Option A)
    → (o ≡ none → P none)
    → ((a : A) → o ≡ some a → P (some a))
    → P o
Option-split P none f g = f refl
Option-split P (some a) f g = g a refl

-- No row of the task is due.
abbrev pub NotDue : ℕ → String → TaskDb → Type 0
NotDue now id db = All (λ (t : ScheduledTask). t.id ≢ id) (get_due_tasks now db)

abbrev Waits : ℕ → String → ScheduledTask → Type 0
Waits now id t = t.id ≡ id → is_due_row now t ≡ false

-- The path has returned, and the task is not due; or it awaits the agent.
abbrev pub Settled : ℕ → String → Progress → Type 0
Settled now id (returned h) = NotDue now id h.db
Settled now id (threw h) = ⊥
Settled now id (running h) = Unit
