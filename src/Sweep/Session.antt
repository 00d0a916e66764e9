-- ===== src/Sweep/Session.antt =====
-- src/host-sweep.ts: `enforceRunningContainerSla` and `sweepSession` of one session, whose agent group
-- exists and whose inbound.db opens. What the container manager, the file system and the recurrence
-- module answer are arguments.
use nanoclaw_github_copilot.Base.{
  ℕ, suc, ◌/◌, Bool, true, false, not, ◌&&◌, Option, none, some, List, [], ◌∷◌, ltb, leb,
  if◌then◌else◌,
}
use nanoclaw_github_copilot.Sweep.{
  Text, ContainerState, StuckDecision, ok, kill_ceiling, kill_claim, decide_stuck_action, MessageIn,
  is_pending, SessionDb, get_processing_claims, reset_stuck_processing_rows, sync_processing_acks,
}

abbrev is_due_at : ℕ → Option ℕ → Bool
is_due_at now none = true
is_due_at now (some t) = leb (t / 1000) (now / 1000)

-- `countDueMessages`, which compares instants by the second.
unfoldable pub count_due_messages : ℕ → List MessageIn → ℕ
count_due_messages now [] = 0
count_due_messages now (m ∷ ms) =
    let rest = count_due_messages now ms in
    if is_pending m.status && m.trigger && is_due_at now m.process_after then suc rest else rest

pub record Surroundings : Type 0 where
  pub now : ℕ
  pub date_parse : Text → Option ℕ
  pub heartbeat_mtime_ms : ℕ
  pub container_state : Option ContainerState
  pub ceiling_ms : ℕ
  pub claim_stuck : ℕ
  pub wake_ok : Bool
  pub out_opens : Bool
  pub rw_ok : Bool
  pub recur : List MessageIn → List MessageIn

pub record SweptSession : Type 0 where
  pub db : SessionDb
  pub running : Bool

unfoldable pub carry_out : Surroundings → StuckDecision → SweptSession → SweptSession
carry_out env ok s = s
carry_out env (kill_ceiling _ _) s = record {
  db = reset_stuck_processing_rows env.now env.rw_ok s.db;
  running = false;
}
carry_out env (kill_claim _ _ _) s = record {
  db = reset_stuck_processing_rows env.now env.rw_ok s.db;
  running = false;
}

-- `enforceRunningContainerSla`
unfoldable pub enforce_running_container_sla : Surroundings → SweptSession → SweptSession
unfolding carry_out
enforce_running_container_sla env s =
    carry_out env
      (decide_stuck_action env.date_parse env.now env.heartbeat_mtime_ms env.container_state
        (get_processing_claims s.db.acks) (some env.ceiling_ms) (some env.claim_stuck))
      s

-- Step 1.
unfoldable pub synced : Surroundings → SweptSession → SweptSession
synced env s =
    if env.out_opens
    then record s {
      db = record s.db { messages_in = sync_processing_acks s.db.acks s.db.messages_in };
    }
    else s

-- Step 2.
unfoldable pub woken : Surroundings → SweptSession → SweptSession
woken env s =
    if ltb 0 (count_due_messages env.now s.db.messages_in) && not s.running
    then record s { running = env.wake_ok }
    else s

-- Steps 3 and 4.
unfoldable pub checked : Surroundings → SweptSession → SweptSession
unfolding enforce_running_container_sla
checked env s =
    if not env.out_opens
    then s
    else if s.running
    then enforce_running_container_sla env s
    else record s { db = reset_stuck_processing_rows env.now env.rw_ok s.db }

-- Step 5.
unfoldable pub recurred : Surroundings → SweptSession → SweptSession
recurred env s = record s { db = record s.db { messages_in = env.recur s.db.messages_in } }

-- `sweepSession`
unfoldable pub sweep_session : Surroundings → SweptSession → SweptSession
unfolding synced woken checked recurred
sweep_session env s = recurred env (checked env (woken env (synced env s)))
