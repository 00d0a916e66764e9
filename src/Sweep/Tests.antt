-- ===== src/Sweep/Tests.antt =====
-- src/host-sweep.ts: the sweep run on concrete sessions.
use nanoclaw_github_copilot.Base.{
  ℕ, max, ◌≤◌, ◌≡◌, refl, ◌↔◌, ◌⊎◌, String, true, false, Option, none, some, [], ◌∷◌, arith, All,
}
use nanoclaw_github_copilot.Sweep.{
  Text, ProcessingClaim, ok, decide_stuck_action, bash_timeout_ms, MessageIn, pending, failed,
  processing, SessionDb, get_processing_claims, reset_stuck_processing_rows, reset_claims,
  reset_message, reset_row, seconds_from, sync_processing_acks, absolute_ceiling_ms, claim_stuck_ms,
  or_zero,
}
use nanoclaw_github_copilot.Sweep.Session.{
  Surroundings, SweptSession, carry_out, enforce_running_container_sla, synced, woken, checked,
  recurred, sweep_session, count_due_messages,
}
use nanoclaw_github_copilot.Sweep.Decide.{Stuck, PastCeiling, decide_ok_iff}
use nanoclaw_github_copilot.Sweep.Reset.{
  Bounded, reset_stuck_processing_rows-Bounded, sweep_session-no_orphans,
}

abbrev local_text : Text
local_text = b'1' ∷ b'0' ∷ b':' ∷ b'0' ∷ b'0' ∷ []

abbrev claimed_text : Text
claimed_text = b'1' ∷ b'Z' ∷ []

-- A clock that reads every text as the instant 1,000,000.
abbrev million : Text → Option ℕ
million _ = some 1000000

abbrev claim_of : String → ProcessingClaim
claim_of id = record { message_id = id; status_changed = claimed_text }

abbrev message_of : String → ℕ → MessageIn
message_of id tries = record {
  id = id;
  status = pending;
  tries = tries;
  process_after = none;
  trigger = true;
}

abbrev two_messages : SessionDb
two_messages = record {
  messages_in = message_of "a" 2 ∷ message_of "b" 5 ∷ [];
  acks =
      record { claim = claim_of "a"; ack = processing }
      ∷ record { claim = claim_of "b"; ack = processing }
      ∷ [];
}

-- A running container with two claims, two hours after its last sign of life.
abbrev hung : Surroundings
hung = record {
  now = 9000000;
  date_parse = million;
  heartbeat_mtime_ms = 1000000;
  container_state = none;
  ceiling_ms = absolute_ceiling_ms;
  claim_stuck = claim_stuck_ms;
  wake_ok = true;
  out_opens = true;
  rw_ok = true;
  recur = λ ms. ms;
}

abbrev hung_session : SweptSession
hung_session = record { db = two_messages; running = true }

hung-killed : (sweep_session hung hung_session).running ≡ false
unfolding sweep_session synced woken checked recurred count_due_messages
    enforce_running_container_sla carry_out decide_stuck_action bash_timeout_ms sync_processing_acks
    get_processing_claims
hung-killed = refl

-- The reset charges the first message a third try, due in 20 seconds, and fails the second.
hung-rows :
    (sweep_session hung hung_session).db.messages_in
    ≡ record (message_of "a" 3) { process_after = some 9020000 }
      ∷ record (message_of "b" 5) { status = failed }
      ∷ []
unfolding sweep_session synced woken checked recurred count_due_messages
    enforce_running_container_sla carry_out decide_stuck_action bash_timeout_ms sync_processing_acks
    get_processing_claims reset_stuck_processing_rows reset_claims reset_message reset_row
    seconds_from
hung-rows = refl

decide_ok_iff_example :
    (decide_stuck_action million 1070000 1000000 none
        (claim_of "a" ∷ [])
        (some absolute_ceiling_ms)
        (some claim_stuck_ms)
      ≡ ok)
    ↔ ((¬ PastCeiling 1070000 1000000 absolute_ceiling_ms (or_zero (bash_timeout_ms none)))
        × ((claim_stuck_ms ≡ 0)
            ⊎ All
                (λ c.
                  ¬ Stuck million 1070000 1000000
                    (max claim_stuck_ms (or_zero (bash_timeout_ms none)))
                    c)
                (claim_of "a" ∷ [])))
decide_ok_iff_example =
    decide_ok_iff million 1070000 1000000 none (claim_of "a" ∷ []) absolute_ceiling_ms
      claim_stuck_ms

undelayed : (t : ℕ) → none ≡ some t → t ≤ 9080000
undelayed t e = absurd (cc e)

reset_stuck_processing_rows-Bounded_example :
    All (Bounded 9000000) (reset_stuck_processing_rows 9000000 true two_messages).messages_in
reset_stuck_processing_rows-Bounded_example =
    reset_stuck_processing_rows-Bounded 9000000 true two_messages
      ((omega arith, undelayed), ((omega arith, undelayed), tt))

sweep_session-no_orphans_example :
    get_processing_claims (sweep_session hung hung_session).db.acks ≡ []
sweep_session-no_orphans_example = sweep_session-no_orphans hung hung_session refl refl hung-killed
