-- ===== src/Queue/Accounting.antt =====
-- src/group-queue.ts: the accounting of runs over a whole history of a `GroupQueue`. The children
-- prove it for each method.
mod Core
mod Drain
mod Calls
mod Ends
mod Steps
mod Exits
mod Quiet
use nanoclaw_github_copilot.Base.{
  ℕ, suc, ◌+◌, ◌≤◌, ◌≡◌, refl, ◌≢◌, ◌⊎◌, inl, inr, String, Bool, true, false, List, [], ◌∷◌, arith,
  sub_ℕ, pos, Bool-cases, if◌then◌else◌,
}
use nanoclaw_github_copilot.Queue.{GroupQueue, init}
use nanoclaw_github_copilot.Queue.Events.{
  Event, messages_arrive, task_due, retry_fires, process_starts, process_exits, run_ends, task_ends,
  sends, sets_cursor, delivered, asks_retry, outputs, idles, marks_idle, task_idles, closes,
  closes_task, aborts, escalates, recycles, shuts_down, force_kills, step, run,
}
use nanoclaw_github_copilot.Queue.Run.{RunOutcome}
use nanoclaw_github_copilot.Queue.Shutdown.{Host}
unfoldable pub use Core.{active_total, active_at}
unfoldable pub use Drain.{CoreOf}
pub use Calls.{Inv}
pub use Ends.{IsStale}
unfoldable pub use Exits.{OwnExit}
use Ends.{finish_run-Inv, finish_run-Inv_stale, finish_task-Inv, finish_task-Inv_stale}
use Steps.{enqueue_message_check-Inv, enqueue_task-Inv, retry_due-Inv}
use Exits.{send_message-Inv, request_delivery_retry-Inv, register_process-Inv, process_exit-Inv}
use Quiet.{
  mark_idle-Inv, close_stdin-Inv, notify_idle-Inv, set_cursor-Inv, notify_user_delivery-Inv,
  notify_agent_output-Inv, kill_active-Inv, escalate-Inv, recycle_idle-Inv, notify_task_idle-Inv,
  close_task_stdin-Inv, begin_shutdown-Inv, finish_shutdown-Inv,
}

-- The drift after an event: the end of a run or a task whose slot is not active any more takes the
-- counter down a second time.
abbrev pub drift : Event → GroupQueue → ℕ → ℕ
drift (run_ends k _) q d = if active_at k q.slots then d else suc d
drift (task_ends k) q d = if active_at k q.slots then d else suc d
drift _ q d = d

-- The events of which the theorems speak: a run or a task ends on its active slot or is stale, and
-- the handler of an exit finds a chat's own slot or does nothing.
abbrev pub Admissible : Event → GroupQueue → Type 0
Admissible (run_ends k _) q = (active_at k q.slots ≡ true) ⊎ IsStale k q
Admissible (task_ends k) q = (active_at k q.slots ≡ true) ⊎ IsStale k q
Admissible (process_exits k _ _ _ _ _) q = OwnExit k q
Admissible _ q = Unit {0}

module _ (limit : ℕ) (host : Host) where
  run_ends-Inv :
      (d : ℕ) (k : String) (o : RunOutcome) (q : GroupQueue)
      → Inv limit d q
      → (active_at k q.slots ≡ true) ⊎ IsStale k q
      → Inv limit (if active_at k q.slots then d else suc d) (step limit host (run_ends k o) q)
  unfolding step
  run_ends-Inv d k o q v (inl on) = rw on (finish_run-Inv k q v o on)
  run_ends-Inv d k o q v (inr st) = rw st.released (finish_run-Inv_stale k q v o st)

  task_ends-Inv :
      (d : ℕ) (k : String) (q : GroupQueue)
      → Inv limit d q
      → (active_at k q.slots ≡ true) ⊎ IsStale k q
      → Inv limit (if active_at k q.slots then d else suc d) (step limit host (task_ends k) q)
  unfolding step
  task_ends-Inv d k q v (inl on) = rw on (finish_task-Inv k q v on)
  task_ends-Inv d k q v (inr st) = rw st.released (finish_task-Inv_stale k q v st)

  -- Every call and event keeps the accounting of the queue: the counter is the number of active
  -- slots less the drift, no waiting slot is active or waits twice, at most `limit + d` slots are
  -- active, and outside shutdown a slot waits only while the counter is at the limit. Only the
  -- stale end of a run or a task raises the drift. The condition is that the event is admissible.
  pub step-Inv :
      (d : ℕ) (e : Event) (q : GroupQueue)
      → Inv limit d q
      → Admissible e q
      → Inv limit (drift e q d) (step limit host e q)
  unfolding step
  step-Inv d (messages_arrive k) q v ok = enqueue_message_check-Inv k q v
  step-Inv d (task_due task) q v ok = enqueue_task-Inv task q v
  step-Inv d (retry_fires k) q v ok = retry_due-Inv k q v
  step-Inv d (process_starts k p name folder) q v ok = register_process-Inv k p name folder q v
  step-Inv d (process_exits k serial p listener fs_ok code) q v ok =
      process_exit-Inv k serial p listener fs_ok code q v ok
  step-Inv d (run_ends k o) q v ok = run_ends-Inv d k o q v ok
  step-Inv d (task_ends k) q v ok = task_ends-Inv d k q v ok
  step-Inv d (sends k text cursor fs_ok) q v ok = send_message-Inv k text cursor fs_ok q v
  step-Inv d (sets_cursor k cursor) q v ok = set_cursor-Inv k cursor q v
  step-Inv d (delivered k) q v ok = notify_user_delivery-Inv k q v
  step-Inv d (asks_retry k fs_ok) q v ok = request_delivery_retry-Inv k fs_ok q v
  step-Inv d (outputs k) q v ok = notify_agent_output-Inv k q v
  step-Inv d (idles k fs_ok) q v ok = notify_idle-Inv k fs_ok q v
  step-Inv d (marks_idle k) q v ok = mark_idle-Inv k q v
  step-Inv d (task_idles chat id) q v ok = notify_task_idle-Inv host chat id q v
  step-Inv d (closes k fs_ok) q v ok = close_stdin-Inv k fs_ok q v
  step-Inv d (closes_task fs_ok chat id) q v ok = close_task_stdin-Inv host fs_ok chat id q v
  step-Inv d (aborts fs_ok k) q v ok = kill_active-Inv host fs_ok k q v
  step-Inv d (escalates p) q v ok = escalate-Inv host p q v
  step-Inv d (recycles k) q v ok = recycle_idle-Inv host k q v
  step-Inv d shuts_down q v ok = begin_shutdown-Inv host q v
  step-Inv d force_kills q v ok = finish_shutdown-Inv host q v

  -- The drift at the end of a history, and histories of admissible events.
  abbrev pub drift_after : List Event → GroupQueue → ℕ → ℕ
  drift_after [] q d = d
  drift_after (e ∷ es) q d = drift_after es (step limit host e q) (drift e q d)

  abbrev pub AdmissibleRun : List Event → GroupQueue → Type 0
  AdmissibleRun [] q = Unit {0}
  AdmissibleRun (e ∷ es) q = Admissible e q × AdmissibleRun es (step limit host e q)

  run-Inv :
      (d : ℕ) (es : List Event) (q : GroupQueue)
      → Inv limit d q
      → AdmissibleRun es q
      → Inv limit (drift_after es q d) (run limit host es q)
  unfolding run
  run-Inv d [] q v ok = v
  run-Inv d (e ∷ es) q v ok =
      run-Inv (drift e q d) es (step limit host e q) (step-Inv d e q v ok.0) ok.1

  init-Inv : Inv limit 0 init
  unfolding init active_total
  init-Inv = record {
    core = record { counted = refl; parked = tt; distinct = tt; plain = tt; capped = omega arith };
    full = λ _ w. absurd (w refl);
  }

  -- After any history of admissible events from a new queue, the active slots are at most the
  -- concurrency limit and the number of stale ends in the history together, and outside shutdown a
  -- slot is left waiting only if that many are active.
  pub run-init_bounds :
      (es : List Event)
      → AdmissibleRun es init
      → (active_total (run limit host es init).slots ≤ limit + drift_after es init 0)
        × ((run limit host es init).shutting_down ≡ false
            → (run limit host es init).waiting_slots ≢ []
            → active_total (run limit host es init).slots ≡ limit + drift_after es init 0)
  run-init_bounds es ok =
      let v = run-Inv 0 es init init-Inv ok in
      (v.core.capped, λ sd w. omega (arith, v.full sd w, v.core.capped))
