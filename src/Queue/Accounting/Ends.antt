-- ===== src/Queue/Accounting/Ends.antt =====
-- src/group-queue.ts: the release of a slot, the end of a run and the end of a task.
use nanoclaw_github_copilot.Base.{
  ℕ, suc, ◌≡◌, refl, ◌∙◌, ap, String, true, false, ◌&&◌, Option, none, some, [], arith, eq_refl,
  Avoids, if_elim, ltb,
}
use nanoclaw_github_copilot.Queue.{
  GroupState, GroupQueue, retry_timer, get_slot, get_group, store, emit,
}
use nanoclaw_github_copilot.Queue.Run.{
  process_alive, not_killed, max_retries, schedule_retry, RunOutcome, succeeded, failed, threw,
  settle_run, release_run, close_run, count_down, finish_run, finish_task,
}
use nanoclaw_github_copilot.Queue.Accounting.Core.{
  active_at, active_total-insert, active_at-insert, Avoids-of_active, Core-insert_down,
  Core-insert_stale, Core-erase_down, Core-erase_stale,
}
use nanoclaw_github_copilot.Queue.Accounting.Drain.{get_group-plain, get_group-active}
use nanoclaw_github_copilot.Queue.Accounting.Calls.{
  Inv, Ready, store-Inv, emit-Inv, get_group-store, active_at-store, drain_waiting-Inv,
  drain_group-Inv,
}

module _ {limit d : ℕ} (q : GroupQueue) (k : String) (s : GroupState) (v : Inv limit d q)
    (e : s.pending_tasks ≡ []) (off : s.active ≡ false) where
  -- The owner of an active slot releases it.
  pub release-Ready : active_at k q.slots ≡ true → Ready limit d k (count_down (store k s q))
  unfolding count_down store
  release-Ready on = record {
    core = Core-insert_down v.core k s e off on;
    apart = Avoids-of_active k q.slots q.waiting_slots on v.core.parked;
    room = λ _. ground (arith, active_total-insert k s q.slots, v.core.capped);
    idle = λ a. absurd (ground (arith, a, active_at-insert k k s q.slots, eq_refl k));
    kept = λ a. absurd (ground (arith, a, active_at-insert k k s q.slots, eq_refl k));
    near = λ sd w. ground (arith, active_total-insert k s q.slots, v.full sd w);
  }

  -- The release of a slot that was released before.
  pub release-Ready_stale :
      active_at k q.slots ≡ false
      → Avoids k q.waiting_slots
      → Ready limit (suc d) k (count_down (store k s q))
  unfolding count_down store
  release-Ready_stale was apart = record {
    core = Core-insert_stale v.core k s e off was;
    apart = apart;
    room = λ _. ground (arith, active_total-insert k s q.slots, v.core.capped);
    idle = λ a. absurd (ground (arith, a, active_at-insert k k s q.slots, eq_refl k));
    kept = λ a. absurd (ground (arith, a, active_at-insert k k s q.slots, eq_refl k));
    near = λ sd w. ground (arith, active_total-insert k s q.slots, v.full sd w);
  }

-- What `scheduleRetry` and a success leave of the slot that `runForGroup` holds.
record Settled (k : String) (q r : GroupQueue) : Type 0 where
  active : active_at k r.slots ≡ active_at k q.slots
  idle : (get_group r k).idle_waiting ≡ (get_group q k).idle_waiting
  process : (get_group r k).process ≡ (get_group q k).process
  procs : r.procs ≡ q.procs
  waiting : r.waiting_slots ≡ q.waiting_slots

retried-Settled :
    (k : String) (q : GroupQueue) (n : ℕ)
    → Settled k q (store k (record (get_group q k) { retry_count = n }) q)
retried-Settled k q n = record {
  active = active_at-store q k _ ∙ get_group-active q k;
  idle =
      ap (λ s. s.idle_waiting) (get_group-store q k (record (get_group q k) { retry_count = n }));
  process = ap (λ s. s.process) (get_group-store q k (record (get_group q k) { retry_count = n }));
  procs = unfold store in refl;
  waiting = unfold store in refl;
}

emit-Settled :
    (k : String) (q r : GroupQueue) (n : ℕ) → Settled k q r → Settled k q (emit (retry_timer k n) r)
unfolding emit get_group get_slot
emit-Settled k q r n s = record {
  active = s.active;
  idle = s.idle;
  process = s.process;
  procs = s.procs;
  waiting = s.waiting;
}

schedule_retry-Settled : (k : String) (q : GroupQueue) → Settled k q (schedule_retry k q)
unfolding schedule_retry
schedule_retry-Settled k q =
    if_elim (Settled k q) (ltb max_retries (suc (get_group q k).retry_count))
      (λ _. retried-Settled k q 0) (λ _. emit-Settled k q _ _ (retried-Settled k q _))

settle_run-Settled : (o : RunOutcome) (k : String) (q : GroupQueue) → Settled k q (settle_run o k q)
unfolding settle_run
settle_run-Settled succeeded k q = retried-Settled k q 0
settle_run-Settled failed k q = schedule_retry-Settled k q
settle_run-Settled threw k q = schedule_retry-Settled k q

module _ {limit d : ℕ} (k : String) (q : GroupQueue) (v : Inv limit d q) where
  retried-Inv : (n : ℕ) → Inv limit d (store k (record (get_group q k) { retry_count = n }) q)
  retried-Inv n = store-Inv q k _ v (get_group-plain q v.core k) (get_group-active q k)

  schedule_retry-Inv : Inv limit d (schedule_retry k q)
  unfolding schedule_retry
  schedule_retry-Inv =
      if_elim (Inv limit d) (ltb max_retries (suc (get_group q k).retry_count)) (λ _. retried-Inv 0)
        (λ _. emit-Inv _ _ (retried-Inv _))

  settle_run-Inv : (o : RunOutcome) → Inv limit d (settle_run o k q)
  unfolding settle_run
  settle_run-Inv succeeded = retried-Inv 0
  settle_run-Inv failed = schedule_retry-Inv
  settle_run-Inv threw = schedule_retry-Inv

alive-not_killed :
    (q : GroupQueue) (o : Option ℕ) → process_alive q o ≡ true → not_killed q o ≡ true
unfolding process_alive not_killed
alive-not_killed q none h = cc
alive-not_killed q (some p) h = ground arith

alive-procs :
    (r q : GroupQueue) (o : Option ℕ) → r.procs ≡ q.procs → process_alive r o ≡ process_alive q o
unfolding process_alive
alive-procs r q none e = refl
alive-procs r q (some p) e = rw e

module _ {limit d : ℕ} (k : String) (q : GroupQueue) (v : Inv limit d q) where
  close_run-Ready : active_at k q.slots ≡ true → Ready limit d k (close_run k q)
  unfolding close_run release_run
  close_run-Ready on =
      if_elim (Ready limit d k)
        (process_alive q (get_group q k).process && (get_group q k).idle_waiting)
        (λ alive. record {
          core = v.core;
          apart = Avoids-of_active k q.slots q.waiting_slots on v.core.parked;
          room = λ off. absurd (cc (on, off));
          idle = λ _. ground (arith, alive, alive-not_killed q (get_group q k).process);
          kept = λ _. v.full;
          near = λ sd w. omega (arith, v.full sd w);
        })
        (λ _.
          release-Ready q k (release_run (get_group q k)) v (get_group-plain q v.core k) refl on)

  close_run-Ready_stale :
      active_at k q.slots ≡ false
      → Avoids k q.waiting_slots
      → (process_alive q (get_group q k).process && (get_group q k).idle_waiting) ≡ false
      → Ready limit (suc d) k (close_run k q)
  unfolding close_run release_run
  close_run-Ready_stale off apart gone = rw gone (
      release-Ready_stale q k (release_run (get_group q k)) v (get_group-plain q v.core k) refl off
        apart)

-- The finish of a run or task is stale if an exit handler or `sendMessage` released its slot before. The
-- condition is also that no slot of that key waits and no live agent idles on it; both can fail, since a new
-- message may come between the release and the finish.
pub record IsStale (k : String) (q : GroupQueue) : Type 0 where
  pub released : active_at k q.slots ≡ false
  pub apart : Avoids k q.waiting_slots
  pub gone : (process_alive q (get_group q k).process && (get_group q k).idle_waiting) ≡ false

module _ {limit d : ℕ} (k : String) (q : GroupQueue) (v : Inv limit d q) where
  pub finish_run-Inv :
      (o : RunOutcome) → active_at k q.slots ≡ true → Inv limit d (finish_run limit k o q)
  unfolding finish_run
  finish_run-Inv o on = drain_group-Inv k _ (
      close_run-Ready k (settle_run o k q) (settle_run-Inv k q v o)
        ((settle_run-Settled o k q).active ∙ on))

  pub finish_run-Inv_stale :
      (o : RunOutcome) → IsStale k q → Inv limit (suc d) (finish_run limit k o q)
  unfolding finish_run
  finish_run-Inv_stale o st =
      let s = settle_run-Settled o k q in
      drain_group-Inv k _ (
        close_run-Ready_stale k (settle_run o k q) (settle_run-Inv k q v o) (s.active ∙ st.released)
          (rw s.waiting st.apart) (gone s))
    where
      gone :
          Settled k q (settle_run o k q)
          → (process_alive (settle_run o k q) (get_group (settle_run o k q) k).process
              && (get_group (settle_run o k q) k).idle_waiting)
            ≡ false
      gone s =
          rw (s.process, s.idle, alive-procs (settle_run o k q) q (get_group q k).process s.procs)
            st.gone

  pub finish_task-Inv : active_at k q.slots ≡ true → Inv limit d (finish_task limit k q)
  unfolding finish_task count_down
  finish_task-Inv on = drain_waiting-Inv _ (Core-erase_down v.core k on)

  pub finish_task-Inv_stale : IsStale k q → Inv limit (suc d) (finish_task limit k q)
  unfolding finish_task count_down
  finish_task-Inv_stale st = drain_waiting-Inv _ (Core-erase_stale v.core k st.released st.apart)
