-- ===== src/Queue/Accounting/Calls.antt =====
-- src/group-queue.ts: the end of a run or of a task, and `drainGroup`, keep the accounting.
use nanoclaw_github_copilot.Base.{
  ℕ, suc, ◌+◌, ◌≤◌, ◌<◌, ◌≡◌, ◌≢◌, String, true, false, ◌&&◌, List, [], ◌∷◌, arith, lookup-insert,
  eq_refl, Avoids, if_elim,
}
use nanoclaw_github_copilot.Queue.{
  QueuedTask, GroupState, Effect, pipe_messages, GroupQueue, get_slot, get_group, store, emit,
}
use nanoclaw_github_copilot.Queue.Run.{
  begin_run, start_run, drain_waiting, not_killed, drain_messages, drain_pending, drain_group,
}
use nanoclaw_github_copilot.Queue.Accounting.Core.{
  active_total, active_at, active_total-insert, active_at-insert,
}
use nanoclaw_github_copilot.Queue.Accounting.Drain.{
  CoreOf, get_group-plain, get_group-active, start_run-Core, store-Core, drain_loop-Drained,
}

-- The accounting of the queue between two calls. `counted`, `parked`, … of `core`: the counter is
-- the number of active slots less the drift, no waiting slot is active, none waits twice, and at
-- most `limit + d` are active. `full`: a slot waits only while the house is full.
pub record Inv (limit d : ℕ) (q : GroupQueue) : Type 0 where
  pub core : CoreOf limit d q.waiting_slots q
  pub full : q.shutting_down ≡ false → q.waiting_slots ≢ [] → limit + d ≤ active_total q.slots

pub store-Inv :
    {limit d : ℕ} (q : GroupQueue) (k : String) (s : GroupState)
    → Inv limit d q
    → s.pending_tasks ≡ []
    → s.active ≡ active_at k q.slots
    → Inv limit d (store k s q)
unfolding store
store-Inv q k s v e a = record {
  core = store-Core q v.core k s e a;
  full = λ sd w. ground (arith, active_total-insert k s q.slots, v.full sd w);
}

pub emit-Inv : {limit d : ℕ} (e : Effect) (q : GroupQueue) → Inv limit d q → Inv limit d (emit e q)
unfolding emit
emit-Inv e q v = record { core = v.core; full = v.full }

-- A slot that was just written is what `getGroup` returns.
pub get_group-store : (q : GroupQueue) (k : String) (s : GroupState) → get_group (store k s q) k ≡ s
unfolding get_group get_slot store
get_group-store q k s = ground (arith, lookup-insert k k s q.slots, eq_refl k)

pub active_at-store :
    (q : GroupQueue) (k : String) (s : GroupState) → active_at k (store k s q).slots ≡ s.active
unfolding store
active_at-store q k s = ground (arith, active_at-insert k k s q.slots, eq_refl k)

pub drain_waiting-Inv :
    {limit d : ℕ} (q : GroupQueue)
    → CoreOf limit d q.waiting_slots q
    → Inv limit d (drain_waiting limit q)
unfolding drain_waiting
drain_waiting-Inv q c =
    let r = drain_loop-Drained q.waiting_slots q c in record { core = r.core; full = λ _. r.full }

-- What `drainGroup` finds: either the slot was released and one more run fits, or an idle agent is
-- still there to take the messages.
pub record Ready (limit d : ℕ) (k : String) (q : GroupQueue) : Type 0 where
  pub core : CoreOf limit d q.waiting_slots q
  pub apart : Avoids k q.waiting_slots
  pub room : active_at k q.slots ≡ false → active_total q.slots < limit + d
  pub idle :
      active_at k q.slots ≡ true
      → ((get_group q k).idle_waiting && not_killed q (get_group q k).process) ≡ true
  pub kept :
      active_at k q.slots ≡ true
      → q.shutting_down ≡ false
      → q.waiting_slots ≢ []
      → limit + d ≤ active_total q.slots
  pub near : q.shutting_down ≡ false → q.waiting_slots ≢ [] → limit + d ≤ suc (active_total q.slots)

module _ {limit d : ℕ} (k : String) (q : GroupQueue) (r : Ready limit d k q) where
  start_run-Inv : active_at k q.slots ≡ false → Inv limit d (start_run k q)
  unfolding start_run store emit
  start_run-Inv a = record {
    core = start_run-Core q r.core k a r.apart (r.room a);
    full = λ sd w.
        ground (arith, active_total-insert k (begin_run (get_group q k)) q.slots, r.near sd w);
  }

  pipe-Inv :
      active_at k q.slots ≡ true
      → Inv limit d
          (emit (pipe_messages k) (store k (record (get_group q k) { pending_messages = false }) q))
  pipe-Inv on = emit-Inv _ _ (
      store-Inv q k _ (record { core = r.core; full = r.kept on }) (get_group-plain q r.core k)
        (get_group-active q k))

  drain_messages-Inv : Inv limit d (drain_messages k (get_group q k) q)
  unfolding drain_messages
  drain_messages-Inv =
      if_elim (Inv limit d)
        ((get_group q k).active
          && (get_group q k).idle_waiting
          && not_killed q (get_group q k).process)
        (λ t. pipe-Inv (ground (arith, get_group-active q k)))
        (λ f. start_run-Inv (ground (arith, get_group-active q k, r.idle)))

  drain_pending-Inv :
      (ts : List QueuedTask) → ts ≡ [] → Inv limit d (drain_pending limit k (get_group q k) ts q)
  unfolding drain_pending store
  drain_pending-Inv (t ∷ ts) e = absurd (cc e)
  drain_pending-Inv [] e =
      if_elim (Inv limit d) (get_group q k).pending_messages (λ _. drain_messages-Inv)
        λ _. drain_waiting-Inv (store k (get_group q k) q) (
          store-Core q r.core k (get_group q k) (get_group-plain q r.core k) (get_group-active q k))

  pub drain_group-Inv : Inv limit d (drain_group limit k q)
  unfolding drain_group
  drain_group-Inv =
      if_elim (Inv limit d) q.shutting_down
        (λ sd. record { core = r.core; full = λ off _. absurd (cc (sd, off)) })
        (λ _. drain_pending-Inv (get_group q k).pending_tasks (get_group-plain q r.core k))
