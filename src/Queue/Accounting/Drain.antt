-- ===== src/Queue/Accounting/Drain.antt =====
-- src/group-queue.ts: starting a run, `drainWaiting` and `drainGroup` keep the accounting.
use nanoclaw_github_copilot.Base.{
  ℕ, ◌+◌, ◌≤◌, ◌<◌, ◌≡◌, refl, ◌≢◌, inl, inr, String, false, Option, none, some, List, [], ◌∷◌,
  arith, ℤ, at_least, at_least-sub_ℕ, lookup, erase, All, Avoids, Bool-cases, if_elim,
}
use nanoclaw_github_copilot.Queue.{
  QueuedTask, GroupState, GroupQueue, get_slot, get_group, fresh_slot, or_fresh, store, emit,
}
use nanoclaw_github_copilot.Queue.Enqueue.{is_active}
use nanoclaw_github_copilot.Queue.Run.{
  start_run, start_task, serve_chat, serve_parked, serve_waiting, drain_loop,
}
use nanoclaw_github_copilot.Queue.Accounting.Core.{
  Slots, active_total, active_at, Core, plain-lookup, Core-insert_same, Core-insert_up,
}

abbrev pub CoreOf : ℕ → ℕ → List String → GroupQueue → Type 0
CoreOf limit d ws q = Core limit d ws q.slots q.active_count

pub or_fresh-plain :
    (serial : ℕ) (k chat : String) (t : Option String) (m : Slots) (o : Option GroupState)
    → All (λ e. e.1.pending_tasks ≡ []) m
    → lookup k m ≡ o
    → (or_fresh serial chat t o).pending_tasks ≡ []
unfolding fresh_slot
or_fresh-plain serial k chat t m none h e = refl
or_fresh-plain serial k chat t m (some s) h e = plain-lookup k m s h e

or_fresh-active :
    (serial : ℕ) (chat : String) (t : Option String) (o : Option GroupState)
    → (or_fresh serial chat t o).active ≡ is_active o
unfolding fresh_slot
or_fresh-active serial chat t none = refl
or_fresh-active serial chat t (some s) = refl

-- A slot that `getSlot` returns is active exactly if the map holds an active one.
pub get_slot-active :
    (q : GroupQueue) (k chat : String) (t : Option String)
    → (get_slot q k chat t).active ≡ active_at k q.slots
unfolding get_slot
get_slot-active q k chat t = or_fresh-active q.next_serial chat t (lookup k q.slots)

pub get_group-active : (q : GroupQueue) (k : String) → (get_group q k).active ≡ active_at k q.slots
unfolding get_group
get_group-active q k = get_slot-active q k k none

module _ {limit d : ℕ} {ws : List String} (q : GroupQueue) (c : CoreOf limit d ws q) where
  pub get_slot-plain :
      (k chat : String) (t : Option String) → (get_slot q k chat t).pending_tasks ≡ []
  unfolding get_slot
  get_slot-plain k chat t = or_fresh-plain q.next_serial k chat t q.slots _ c.plain refl

  pub get_group-plain : (k : String) → (get_group q k).pending_tasks ≡ []
  unfolding get_group
  get_group-plain k = get_slot-plain k k none

  pub start_run-Core :
      (k : String)
      → active_at k q.slots ≡ false
      → Avoids k ws
      → active_total q.slots < limit + d
      → CoreOf limit d ws (start_run k q)
  unfolding start_run store emit
  start_run-Core k a v h = Core-insert_up c k _ (get_group-plain k) refl a v h

  pub start_task-Core :
      (k chat : String) (task : QueuedTask)
      → active_at k q.slots ≡ false
      → Avoids k ws
      → active_total q.slots < limit + d
      → CoreOf limit d ws (start_task k chat task q)
  unfolding start_task store emit
  start_task-Core k chat task a v h =
      Core-insert_up c k _ (get_slot-plain k chat (some task.id)) refl a v h

  -- A write that leaves the slot's activity alone.
  pub store-Core :
      (k : String) (s : GroupState)
      → s.pending_tasks ≡ []
      → s.active ≡ active_at k q.slots
      → CoreOf limit d ws (store k s q)
  unfolding store
  store-Core k s e a = Core-insert_same c k s e a

  serve_chat-Core :
      (k : String) (s : GroupState) (ts : List QueuedTask)
      → ts ≡ []
      → s.pending_tasks ≡ []
      → s.active ≡ active_at k q.slots
      → active_at k q.slots ≡ false
      → Avoids k ws
      → active_total q.slots < limit + d
      → CoreOf limit d ws (serve_chat k s ts q)
  unfolding serve_chat
  serve_chat-Core k s (t ∷ ts) n e sa a v h = absurd (cc n)
  serve_chat-Core k s [] n e sa a v h =
      if_elim (CoreOf limit d ws) s.pending_messages (λ _. start_run-Core k a v h)
        (λ _. store-Core k s e sa)

module _ {limit d : ℕ} {ws : List String} (q : GroupQueue) (c : CoreOf limit d ws q) where
  serve_parked-Core :
      (k : String) (o : Option QueuedTask)
      → active_at k q.slots ≡ false
      → Avoids k ws
      → active_total q.slots < limit + d
      → CoreOf limit d ws (serve_parked k o q)
  unfolding serve_parked
  serve_parked-Core k (some task) a v h =
      start_task-Core (record q { waiting_task_fns = erase k q.waiting_task_fns }) c k
        task.group_jid task a v h
  serve_parked-Core k none a v h =
      serve_chat-Core q c k (get_group q k) (get_group q k).pending_tasks (get_group-plain q c k)
        (get_group-plain q c k) (get_group-active q k) a v h

-- The head of the waiting list leaves it for a run.
pub unpark :
    {limit d : ℕ} {w : String} {ws : List String} {m : Slots} {z : ℤ}
    → Core limit d (w ∷ ws) m z
    → Core limit d ws m z
unpark c = record {
  counted = c.counted;
  parked = c.parked.1;
  distinct = c.distinct.1;
  plain = c.plain;
  capped = c.capped;
}

-- What `drainWaiting` leaves: the accounting, and a full house if anyone still waits.
pub record Drained (limit d : ℕ) (q : GroupQueue) : Type 0 where
  pub core : CoreOf limit d q.waiting_slots q
  pub full : q.waiting_slots ≢ [] → limit + d ≤ active_total q.slots

pub drain_loop-Drained :
    {limit d : ℕ} (ws : List String) (q : GroupQueue)
    → CoreOf limit d ws q
    → Drained limit d (drain_loop limit ws q)
unfolding drain_loop
drain_loop-Drained [] q c = record { core = c; full = λ e. absurd (e refl) }
drain_loop-Drained {limit} {d} (w ∷ ws) q c = elim (Bool-cases (at_least q.active_count limit)) [
  | inl busy ↦ rw busy (record {
    core = c;
    full = λ _. (at_least-sub_ℕ (active_total q.slots) d limit).0 (rw (← c.counted) busy);
  })
  | inr room ↦ rw room (
      drain_loop-Drained ws (serve_waiting w (record q { waiting_slots = ws })) (
        serve_waiting-Core
          (ground (arith, c.counted, at_least-sub_ℕ (active_total q.slots) d limit))))
]
  where
    serve_waiting-Core :
        active_total q.slots < limit + d
        → CoreOf limit d ws (serve_waiting w (record q { waiting_slots = ws }))
    serve_waiting-Core h =
        unfold serve_waiting in
        serve_parked-Core (record q { waiting_slots = ws }) (unpark c) w _ c.parked.0 c.distinct.0 h
