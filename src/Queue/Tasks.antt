-- ===== src/Queue/Tasks.antt =====
-- src/group-queue.ts: detached tasks: at most one run of a task at a time, and no write to the slot
-- of any chat.
use nanoclaw_github_copilot.Base.{
  ℕ, ◌≡◌, refl, ◌≢◌, String, true, some, arith, lookup, insert, lookup-insert, eq_refl, eq_iff,
  if_elim, is_some, at_least, includes, ◌||◌,
}
use nanoclaw_github_copilot.Queue.{
  QueuedTask, GroupQueue, task_slot_key, get_slot, peek_slot, store, emit,
}
use nanoclaw_github_copilot.Queue.Run.{begin_task, start_task}
use nanoclaw_github_copilot.Queue.Enqueue.{is_active, park, admit_task, enqueue_task}

-- What makes `enqueueTask` skip a task: the queue shuts down, its slot is active, or it waits.
abbrev pub IsTaken : String → GroupQueue → Type 0
IsTaken key q =
    (q.shutting_down || is_active (lookup key q.slots) || is_some (lookup key q.waiting_task_fns))
    ≡ true

pub enqueue_taken :
    (limit : ℕ) (t : QueuedTask) (q : GroupQueue)
    → IsTaken (task_slot_key t.group_jid t.id) q
    → enqueue_task limit t q ≡ q
unfolding enqueue_task peek_slot
enqueue_taken limit t q h =
    let key = task_slot_key t.group_jid t.id in
    if_elim (λ r. r ≡ q) q.shutting_down (λ _. refl)
      λ sd.
        if_elim (λ r. r ≡ q) (is_active (lookup key q.slots)) (λ _. refl)
          λ a.
            if_elim (λ r. r ≡ q) (is_some (lookup key q.waiting_task_fns)) (λ _. refl)
              λ w. absurd (ground (arith, sd, a, w))

start_task-IsTaken :
    (key chat : String) (t : QueuedTask) (q : GroupQueue) → IsTaken key (start_task key chat t q)
unfolding start_task store emit
start_task-IsTaken key chat t q = ground (
  arith,
  lookup-insert key key (begin_task t.id (get_slot q key chat (some t.id))) q.slots,
  eq_refl key,
)

park-IsTaken :
    (key : String) (t : QueuedTask) (q : GroupQueue)
    → IsTaken key (park key (record q { waiting_task_fns = insert key t q.waiting_task_fns }))
unfolding park
park-IsTaken key t q =
    if_elim (IsTaken key) (includes q.waiting_slots key) (λ _. waits) (λ _. waits)
  where
    waits :
        (q.shutting_down
          || is_active (lookup key q.slots)
          || is_some (lookup key (insert key t q.waiting_task_fns)))
        ≡ true
    waits = ground (arith, lookup-insert key key t q.waiting_task_fns, eq_refl key)

pub enqueue_task-IsTaken :
    (limit : ℕ) (t : QueuedTask) (q : GroupQueue)
    → IsTaken (task_slot_key t.group_jid t.id) (enqueue_task limit t q)
unfolding enqueue_task admit_task peek_slot
enqueue_task-IsTaken limit t q =
    let key = task_slot_key t.group_jid t.id in
    if_elim (IsTaken key) q.shutting_down (λ sd. ground (arith, sd))
      λ _.
        if_elim (IsTaken key) (is_active (lookup key q.slots)) (λ a. ground (arith, a))
          λ _.
            if_elim (IsTaken key) (is_some (lookup key q.waiting_task_fns)) (λ w. ground (arith, w))
              λ _.
                if_elim (IsTaken key) (at_least q.active_count limit) (λ _. park-IsTaken key t q)
                  (λ _. start_task-IsTaken key t.group_jid t q)

-- A task that is enqueued again before anything else happens changes nothing: it is run, or it
-- waits, once.
pub enqueue_task_idem :
    (limit : ℕ) (t : QueuedTask) (q : GroupQueue)
    → enqueue_task limit t (enqueue_task limit t q) ≡ enqueue_task limit t q
enqueue_task_idem limit t q =
    enqueue_taken limit t (enqueue_task limit t q) (enqueue_task-IsTaken limit t q)

-- Enqueuing a task leaves every slot but the task's own as it was: the chat's messages go on.
pub enqueue_task-frame :
    (limit : ℕ) (t : QueuedTask) (j : String) (q : GroupQueue)
    → task_slot_key t.group_jid t.id ≢ j
    → peek_slot (enqueue_task limit t q) j ≡ peek_slot q j
unfolding enqueue_task admit_task peek_slot park start_task store emit
enqueue_task-frame limit t j q h =
    let key = task_slot_key t.group_jid t.id in
    let P : GroupQueue → Type 0 = λ r. lookup j r.slots ≡ lookup j q.slots in
    if_elim P q.shutting_down (λ _. refl)
      λ _.
        if_elim P (is_active (lookup key q.slots)) (λ _. refl)
          λ _.
            if_elim P (is_some (lookup key q.waiting_task_fns)) (λ _. refl)
              λ _.
                if_elim P (at_least q.active_count limit)
                  (λ _. if_elim P (includes q.waiting_slots key) (λ _. refl) (λ _. refl))
                  (λ _. ground (
                    arith,
                    lookup-insert key j (begin_task t.id (get_slot q key t.group_jid (some t.id)))
                        q.slots,
                    eq_iff key j,
                  ))
