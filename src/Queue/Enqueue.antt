-- ===== src/Queue/Enqueue.antt =====
-- src/group-queue.ts: `enqueueMessageCheck`, `enqueueTask` and the retry timer's callback.
use nanoclaw_github_copilot.Base.{
  ℕ, String, Bool, true, false, Option, none, some, [], ◌∷◌, ◌++◌, if◌then◌else◌, lookup, insert,
  at_least, is_some, includes,
}
use nanoclaw_github_copilot.Queue.{
  QueuedTask, GroupState, GroupQueue, task_slot_key, get_group, peek_slot, store,
}
use nanoclaw_github_copilot.Queue.Run.{start_run, start_task}

-- `if (!this.waitingSlots.includes(key)) this.waitingSlots.push(key)`
unfoldable pub park : String → GroupQueue → GroupQueue
park slot_key q =
    if includes q.waiting_slots slot_key
    then q
    else record q { waiting_slots = q.waiting_slots ++ slot_key ∷ [] }

-- `enqueueMessageCheck` after its `shuttingDown` guard.
unfoldable pub admit_messages : ℕ → String → GroupState → GroupQueue → GroupQueue
unfolding park
admit_messages limit jid s q =
    if s.active
    then store jid (record s { pending_messages = true }) q
    else if at_least q.active_count limit
    then park jid (store jid (record s { pending_messages = true }) q)
    else start_run jid q

unfoldable pub enqueue_message_check : ℕ → String → GroupQueue → GroupQueue
unfolding admit_messages
enqueue_message_check limit jid q =
    if q.shutting_down then q else admit_messages limit jid (get_group q jid) q

abbrev pub is_active : Option GroupState → Bool
is_active none = false
is_active (some s) = s.active

-- `enqueueTask` after its guards.
unfoldable pub admit_task : ℕ → String → QueuedTask → GroupQueue → GroupQueue
unfolding park
admit_task limit slot_key task q =
    if at_least q.active_count limit
    then park slot_key (record q { waiting_task_fns = insert slot_key task q.waiting_task_fns })
    else start_task slot_key task.group_jid task q

-- `enqueueTask`: a task whose slot is active, or that waits already, is skipped.
unfoldable pub enqueue_task : ℕ → QueuedTask → GroupQueue → GroupQueue
unfolding admit_task
enqueue_task limit task q =
    let slot_key = task_slot_key task.group_jid task.id in
    if q.shutting_down
    then q
    else if is_active (peek_slot q slot_key)
    then q
    else if is_some (lookup slot_key q.waiting_task_fns)
    then q
    else admit_task limit slot_key task q

-- The callback that `scheduleRetry` hands to `setTimeout`.
unfoldable pub retry_due : ℕ → String → GroupQueue → GroupQueue
unfolding enqueue_message_check
retry_due limit jid q = if q.shutting_down then q else enqueue_message_check limit jid q
