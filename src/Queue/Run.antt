-- ===== src/Queue/Run.antt =====
-- src/group-queue.ts: `runForGroup`, `runTask`, `scheduleRetry`, `drainGroup`, `drainWaiting`.
-- An async method is two functions: what runs up to its first `await`, and its `finally` block.
-- `limit` is MAX_CONCURRENT_CONTAINERS of src/config.ts.
use nanoclaw_github_copilot.Base.{
  ℕ, suc, ◌-◌, ◌*◌, ◌^◌, String, Bool, true, false, not, ◌&&◌, Option, none, some, List, [], ◌∷◌,
  ltb, if◌then◌else◌, lookup, erase, incr, decr, at_least, is_some,
}
use nanoclaw_github_copilot.Queue.{
  QueuedTask, GroupState, process_messages, pipe_messages, run_task_fn, retry_timer, GroupQueue,
  task_slot_key, get_slot, get_group, store, emit,
}

abbrev pub max_retries : ℕ
max_retries = 5

abbrev pub base_retry_ms : ℕ
base_retry_ms = 5000

-- The writes of `runForGroup` to its slot before the first `await`.
unfoldable pub begin_run : GroupState → GroupState
begin_run s = record s {
  active = true;
  idle_waiting = false;
  is_task_container = false;
  pending_messages = false;
  piped_since_output = 0;
  agent_has_output = false;
  in_flight_cursor_rollback = none;
  user_turn_seq = suc s.user_turn_seq;
}

unfoldable pub count_up : GroupQueue → GroupQueue
count_up q = record q { active_count = incr q.active_count }

unfoldable pub count_down : GroupQueue → GroupQueue
count_down q = record q { active_count = decr q.active_count }

-- `runForGroup` up to `await this.processMessagesFn(groupJid)`.
unfoldable pub start_run : String → GroupQueue → GroupQueue
unfolding begin_run count_up
start_run jid q = emit (process_messages jid) (count_up (store jid (begin_run (get_group q jid)) q))

unfoldable pub begin_task : String → GroupState → GroupState
begin_task id s = record s {
  active = true;
  idle_waiting = false;
  is_task_container = true;
  running_task_id = some id;
}

-- `runTask` up to `await task.fn()`.
unfoldable pub start_task : String → String → QueuedTask → GroupQueue → GroupQueue
unfolding begin_task count_up
start_task slot_key chat_jid task q =
    emit (run_task_fn slot_key task) (
      count_up
        (store slot_key (begin_task task.id (get_slot q slot_key chat_jid (some task.id))) q))

-- One round of `drainWaiting`, once the slot is off the waiting list.
unfoldable pub serve_chat : String → GroupState → List QueuedTask → GroupQueue → GroupQueue
serve_chat next s (task ∷ rest) q =
    start_task (task_slot_key next task.id) next task
      (store next (record s { pending_tasks = rest }) q)
serve_chat next s [] q = if s.pending_messages then start_run next q else store next s q

unfoldable pub serve_parked : String → Option QueuedTask → GroupQueue → GroupQueue
unfolding serve_chat
serve_parked next (some task) q =
    start_task next task.group_jid task
      (record q { waiting_task_fns = erase next q.waiting_task_fns })
serve_parked next none q = serve_chat next (get_group q next) (get_group q next).pending_tasks q

unfoldable pub serve_waiting : String → GroupQueue → GroupQueue
unfolding serve_parked
serve_waiting next q = serve_parked next (lookup next q.waiting_task_fns) q

-- The loop of `drainWaiting` over the slots that still wait.
unfoldable pub drain_loop : ℕ → List String → GroupQueue → GroupQueue
drain_loop limit [] q = record q { waiting_slots = [] }
drain_loop limit (next ∷ rest) q =
    let served = drain_loop limit rest (serve_waiting next (record q { waiting_slots = rest })) in
    if at_least q.active_count limit then record q { waiting_slots = next ∷ rest } else served

unfoldable pub drain_waiting : ℕ → GroupQueue → GroupQueue
unfolding drain_loop
drain_waiting limit q = drain_loop limit q.waiting_slots q

-- `state.process && !state.process.killed`
unfoldable pub not_killed : GroupQueue → Option ℕ → Bool
not_killed q none = false
not_killed q (some p) = not (q.procs p).killed

-- `state.process && state.process.exitCode === null && !state.process.killed`
unfoldable pub process_alive : GroupQueue → Option ℕ → Bool
process_alive q none = false
process_alive q (some p) = not (is_some (q.procs p).exit_code) && not (q.procs p).killed

-- `drainGroup` where messages are pending: pipe them to an idle agent, or run anew.
unfoldable pub drain_messages : String → GroupState → GroupQueue → GroupQueue
unfolding not_killed
drain_messages jid s q =
    if s.active && s.idle_waiting && not_killed q s.process
    then emit (pipe_messages jid) (store jid (record s { pending_messages = false }) q)
    else start_run jid q

unfoldable pub drain_pending : ℕ → String → GroupState → List QueuedTask → GroupQueue → GroupQueue
unfolding drain_messages
drain_pending limit jid s (task ∷ rest) q =
    start_task (task_slot_key jid task.id) jid task
      (store jid (record s { pending_tasks = rest }) q)
drain_pending limit jid s [] q =
    if s.pending_messages then drain_messages jid s q else drain_waiting limit (store jid s q)

unfoldable pub drain_group : ℕ → String → GroupQueue → GroupQueue
unfolding drain_pending
drain_group limit jid q =
    if q.shutting_down
    then q
    else drain_pending limit jid (get_group q jid) (get_group q jid).pending_tasks q

-- `scheduleRetry` on the slot of the chat.
unfoldable pub schedule_retry : String → GroupQueue → GroupQueue
schedule_retry jid q =
    let s = get_group q jid in
    let retries = suc s.retry_count in
    if ltb max_retries retries
    then store jid (record s { retry_count = 0 }) q
    else emit (retry_timer jid (base_retry_ms * 2 ^ (retries - 1)))
        (store jid (record s { retry_count = retries }) q)

-- How `await this.processMessagesFn(groupJid)` ends.
pub data RunOutcome : Type 0 where
  succeeded failed threw : RunOutcome

unfoldable pub settle_run : RunOutcome → String → GroupQueue → GroupQueue
unfolding schedule_retry
settle_run succeeded jid q = store jid (record (get_group q jid) { retry_count = 0 }) q
settle_run failed jid q = schedule_retry jid q
settle_run threw jid q = schedule_retry jid q

unfoldable pub release_run : GroupState → GroupState
release_run s = record s {
  active = false;
  process = none;
  container_name = none;
  group_folder = none;
}

-- The `finally` block of `runForGroup` up to `drainGroup`.
unfoldable pub close_run : String → GroupQueue → GroupQueue
unfolding process_alive release_run count_down
close_run jid q =
    if process_alive q (get_group q jid).process && (get_group q jid).idle_waiting
    then q
    else count_down (store jid (release_run (get_group q jid)) q)

-- `runForGroup` from the end of its `await` on.
unfoldable pub finish_run : ℕ → String → RunOutcome → GroupQueue → GroupQueue
unfolding settle_run close_run drain_group
finish_run limit jid outcome q = drain_group limit jid (close_run jid (settle_run outcome jid q))

-- The `finally` block of `runTask`. The slot leaves the map, so the writes to it are not seen
-- again: an exit handler that still holds the object finds it inactive.
unfoldable pub finish_task : ℕ → String → GroupQueue → GroupQueue
unfolding count_down
finish_task limit slot_key q =
    drain_waiting limit (count_down (record q { slots = erase slot_key q.slots }))
