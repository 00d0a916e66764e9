-- ===== src/Queue/Events.antt =====
-- src/group-queue.ts: the calls that reach a `GroupQueue`, and the events that it waits for, as
-- steps. Any sequence of events is a history of the queue: the end of a run may come at any time.
use nanoclaw_github_copilot.Base.{ℕ, String, Bool, Option, List, [], ◌∷◌}
use nanoclaw_github_copilot.Queue.{QueuedTask, GroupQueue}
use nanoclaw_github_copilot.Queue.Run.{RunOutcome, finish_run, finish_task}
use nanoclaw_github_copilot.Queue.Enqueue.{enqueue_message_check, enqueue_task, retry_due}
use nanoclaw_github_copilot.Queue.Pipe.{
  send_message, set_current_turn_start_cursor, notify_user_delivery, request_delivery_retry,
  notify_agent_output, mark_idle, close_stdin, notify_idle,
}
use nanoclaw_github_copilot.Queue.Process.{register_process, process_exit}
use nanoclaw_github_copilot.Queue.Shutdown.{
  Host, kill_active, escalate, recycle_idle_for_auth_refresh, notify_task_idle, close_task_stdin,
  begin_shutdown, finish_shutdown,
}

pub data Event : Type 0 where
  messages_arrive : String → Event
  task_due : QueuedTask → Event
  retry_fires : String → Event
  process_starts : String → ℕ → String → Option String → Event
  process_exits : String → ℕ → ℕ → Bool → Bool → Option ℕ → Event
  run_ends : String → RunOutcome → Event
  task_ends : String → Event
  sends : String → String → Option String → Bool → Event
  sets_cursor : String → String → Event
  delivered : String → Event
  asks_retry : String → Bool → Event
  outputs : String → Event
  idles : String → Bool → Event
  marks_idle : String → Event
  task_idles : String → String → Event
  closes : String → Bool → Event
  closes_task : Bool → String → String → Event
  aborts : Bool → String → Event
  escalates : ℕ → Event
  recycles : String → Event
  shuts_down : Event
  force_kills : Event

module _ (limit : ℕ) (host : Host) where
  unfoldable pub step : Event → GroupQueue → GroupQueue
  step (messages_arrive jid) q = enqueue_message_check limit jid q
  step (task_due task) q = enqueue_task limit task q
  step (retry_fires jid) q = retry_due limit jid q
  step (process_starts key p name folder) q = register_process key p name folder q
  step (process_exits key serial p listener fs_ok code) q =
      process_exit limit key serial p listener fs_ok code q
  step (run_ends jid outcome) q = finish_run limit jid outcome q
  step (task_ends key) q = finish_task limit key q
  step (sends jid text cursor fs_ok) q = (send_message limit jid text cursor fs_ok q).0
  step (sets_cursor jid cursor) q = set_current_turn_start_cursor jid cursor q
  step (delivered jid) q = notify_user_delivery jid q
  step (asks_retry jid fs_ok) q = (request_delivery_retry limit jid fs_ok q).0
  step (outputs jid) q = notify_agent_output jid q
  step (idles jid fs_ok) q = notify_idle jid fs_ok q
  step (marks_idle jid) q = mark_idle jid q
  step (task_idles chat id) q = notify_task_idle chat id q
  step (closes jid fs_ok) q = close_stdin jid fs_ok q
  step (closes_task fs_ok chat id) q = close_task_stdin host fs_ok chat id q
  step (aborts fs_ok jid) q = (kill_active host fs_ok jid q).0
  step (escalates p) q = escalate host p q
  step (recycles jid) q = (recycle_idle_for_auth_refresh host jid q).0
  step shuts_down q = (begin_shutdown host q).0
  step force_kills q = finish_shutdown host q

  unfoldable pub run : List Event → GroupQueue → GroupQueue
  run [] q = q
  run (e ∷ es) q = run es (step e q)
