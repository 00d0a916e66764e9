-- ===== src/Queue/Accounting/Steps.antt =====
-- src/group-queue.ts: the calls that admit work, pipe messages or see a process exit.
use nanoclaw_github_copilot.Base.{
  ℕ, ◌+◌, ◌≤◌, ◌<◌, ◌≡◌, refl, ◌≢◌, ◌∙◌, sym, String, true, false, List, [], ◌∷◌, arith, lookup,
  insert, Avoids, if_elim, at_least, at_least-sub_ℕ, includes, includes-Avoids, Distinct-snoc,
  All-append, is_some,
}
use nanoclaw_github_copilot.Queue.{
  QueuedTask, GroupState, GroupQueue, task_slot_key, get_group, peek_slot, store, emit,
}
use nanoclaw_github_copilot.Queue.Run.{start_run, start_task}
use nanoclaw_github_copilot.Queue.Enqueue.{
  is_active, park, admit_messages, enqueue_message_check, admit_task, enqueue_task, retry_due,
}
use nanoclaw_github_copilot.Queue.Accounting.Core.{active_total, active_at, active_total-insert}
use nanoclaw_github_copilot.Queue.Accounting.Drain.{
  get_group-plain, get_group-active, start_run-Core, start_task-Core,
}
use nanoclaw_github_copilot.Queue.Accounting.Calls.{Inv, store-Inv, active_at-store}

-- Outside shutdown a slot waits only while the counter is at the limit.
full_of_at_least :
    {limit d : ℕ} (q : GroupQueue)
    → Inv limit d q
    → at_least q.active_count limit ≡ true
    → limit + d ≤ active_total q.slots
full_of_at_least {limit} {d} q v h =
    (at_least-sub_ℕ (active_total q.slots) d limit).0 (rw (← v.core.counted) h)

room_of_at_least :
    {limit d : ℕ} (q : GroupQueue)
    → Inv limit d q
    → at_least q.active_count limit ≡ false
    → active_total q.slots < limit + d
room_of_at_least {limit} {d} q v h =
    ground (arith, v.core.counted, h, at_least-sub_ℕ (active_total q.slots) d limit)

empty_of_room :
    (k : String) (ws : List String) (limit n : ℕ) → (ws ≢ [] → limit ≤ n) → n < limit → Avoids k ws
empty_of_room k [] limit n f h = tt
empty_of_room k (w ∷ ws) limit n f h = absurd (omega (arith, f (λ e. cc)))

module _ {limit d : ℕ} (k : String) (q : GroupQueue) (v : Inv limit d q)
    (live : q.shutting_down ≡ false) where
  apart_of_room : at_least q.active_count limit ≡ false → Avoids k q.waiting_slots
  apart_of_room h =
      empty_of_room k q.waiting_slots (limit + d) (active_total q.slots) (v.full live)
        (room_of_at_least q v h)

  park-Inv : active_at k q.slots ≡ false → limit + d ≤ active_total q.slots → Inv limit d (park k q)
  unfolding park
  park-Inv off full =
      if_elim (Inv limit d) (includes q.waiting_slots k) (λ _. v)
        λ new. record {
          core = record {
            counted = v.core.counted;
            parked =
                All-append (λ w. active_at w q.slots ≡ false) q.waiting_slots (k ∷ []) v.core.parked
                  (off, tt);
            distinct =
                Distinct-snoc q.waiting_slots k v.core.distinct
                  (includes-Avoids q.waiting_slots k new);
            plain = v.core.plain;
            capped = v.core.capped;
          };
          full = λ _ _. full;
        }

  start_run-Inv :
      active_at k q.slots ≡ false
      → at_least q.active_count limit ≡ false
      → Inv limit d (start_run k q)
  unfolding start_run store emit
  start_run-Inv off h = record {
    core = start_run-Core q v.core k off (apart_of_room h) (room_of_at_least q v h);
    full = λ _ w. absurd (omega (arith, v.full live w, room_of_at_least q v h));
  }

  start_task-Inv :
      (chat : String) (task : QueuedTask)
      → active_at k q.slots ≡ false
      → at_least q.active_count limit ≡ false
      → Inv limit d (start_task k chat task q)
  unfolding start_task store emit
  start_task-Inv chat task off h = record {
    core = start_task-Core q v.core k chat task off (apart_of_room h) (room_of_at_least q v h);
    full = λ _ w. absurd (omega (arith, v.full live w, room_of_at_least q v h));
  }

-- A write to a slot of the chat that keeps its activity and its task list.
pub quiet-Inv :
    {limit d : ℕ} (q : GroupQueue) (k : String) (s : GroupState)
    → Inv limit d q
    → s.pending_tasks ≡ (get_group q k).pending_tasks
    → s.active ≡ (get_group q k).active
    → Inv limit d (store k s q)
quiet-Inv q k s v e a =
    store-Inv q k s v (e ∙ get_group-plain q v.core k) (a ∙ get_group-active q k)

module _ {limit d : ℕ} (k : String) (q : GroupQueue) (v : Inv limit d q) where
  admit_messages-Inv :
      q.shutting_down ≡ false → Inv limit d (admit_messages limit k (get_group q k) q)
  unfolding admit_messages
  admit_messages-Inv live =
      let s = record (get_group q k) { pending_messages = true } in
      if_elim (Inv limit d) (get_group q k).active (λ _. quiet-Inv q k s v refl refl)
        λ off.
          if_elim (Inv limit d) (at_least q.active_count limit)
            (λ full.
              park-Inv k (store k s q) (quiet-Inv q k s v refl refl) (unfold store in live)
                (active_at-store q k s ∙ off)
                (stored s (sym (get_group-active q k) ∙ off) off (full_of_at_least q v full)))
            (λ room. start_run-Inv k q v live (sym (get_group-active q k) ∙ off) room)
    where
      stored :
          (s : GroupState)
          → active_at k q.slots ≡ false
          → s.active ≡ false
          → limit + d ≤ active_total q.slots
          → limit + d ≤ active_total (store k s q).slots
      stored s was off full = unfold store in ground (arith, active_total-insert k s q.slots)

  pub enqueue_message_check-Inv : Inv limit d (enqueue_message_check limit k q)
  unfolding enqueue_message_check
  enqueue_message_check-Inv =
      if_elim (Inv limit d) q.shutting_down (λ _. v) (λ live. admit_messages-Inv live)

  pub retry_due-Inv : Inv limit d (retry_due limit k q)
  unfolding retry_due
  retry_due-Inv = if_elim (Inv limit d) q.shutting_down (λ _. v) (λ _. enqueue_message_check-Inv)

  admit_task-Inv :
      (task : QueuedTask)
      → q.shutting_down ≡ false
      → active_at k q.slots ≡ false
      → Inv limit d (admit_task limit k task q)
  unfolding admit_task
  admit_task-Inv task live off =
      if_elim (Inv limit d) (at_least q.active_count limit)
        (λ full.
          park-Inv k (record q { waiting_task_fns = insert k task q.waiting_task_fns })
            (record { core = v.core; full = v.full }) live off (full_of_at_least q v full))
        (λ room. start_task-Inv k q v live task.group_jid task off room)

pub enqueue_task-Inv :
    {limit d : ℕ} (task : QueuedTask) (q : GroupQueue)
    → Inv limit d q
    → Inv limit d (enqueue_task limit task q)
unfolding enqueue_task peek_slot
enqueue_task-Inv {limit} {d} task q v =
    let key = task_slot_key task.group_jid task.id in
    if_elim (Inv limit d) q.shutting_down (λ _. v)
      λ live.
        if_elim (Inv limit d) (is_active (lookup key q.slots)) (λ _. v)
          λ off.
            if_elim (Inv limit d) (is_some (lookup key q.waiting_task_fns)) (λ _. v)
              λ _. admit_task-Inv key q v task live off
