-- ===== src/Outbound/Tests.antt =====
-- src/delivery.ts: polls and failures on concrete sessions.
use nanoclaw_github_copilot.Base.{
  ◌≡◌, ◌≢◌, refl, arith, eq_iff, Distinct, String, true, false, none, some, List, [], ◌∷◌, includes,
  lookup, insert, erase, All, ltb,
}
use nanoclaw_github_copilot.Outbound.{
  Content, OutboundMessage, Session, threw, returned, Outside, handed, outbox_cleared,
  typing_paused, delivered, failed, Delivery,
}
use nanoclaw_github_copilot.Outbound.Message.{
  is_authorized, track_question, deliver_to_channel, record_call, insert_or_ignore, deliver_content,
  deliver_message,
}
use nanoclaw_github_copilot.Outbound.Drain.{
  get_due_outbound_messages, not_delivered, add_receipt, mark_delivered, mark_delivery_failed,
  forget_attempts, pause_typing, note_failure, settle_message, deliver_next, LeftOut,
}
use nanoclaw_github_copilot.Outbound.Polls.{
  without, start_delivery, take_drain, advance, continue_delivery, Step, polls, continues, step,
  run, init,
}
use nanoclaw_github_copilot.Outbound.Accepted.{was_accepted, Once}
use nanoclaw_github_copilot.Outbound.Waiting.{DeliversOnce}
use nanoclaw_github_copilot.Outbound.Once.{PrimaryKey, run-Once}
use nanoclaw_github_copilot.Outbound.Apart.{message_ids}
use nanoclaw_github_copilot.Outbound.Permission.{hand_count, Minds, deliver_message-Permitted}
use nanoclaw_github_copilot.Outbound.Unsent.{deliver_next-unsent}
use nanoclaw_github_copilot.Outbound.Attempts.{again, Retried, again-gives_up}

abbrev plain : Content
plain = record {
  action = "";
  is_question = false;
  question_id = none;
  title = none;
  has_options = false;
}

abbrev note : String → OutboundMessage
note id = record {
  id = id;
  kind = "chat";
  platform_id = some "room";
  channel_type = some "slack";
  content = some plain;
  deliver_after = none;
}

abbrev home : Session
home = record { id = "s"; agent_group_id = "g"; messaging_group_id = some "mg" }

-- An adapter that works from its second call on.
abbrev flaky : Outside
flaky = record {
  has_adapter = true;
  deliver = λ n _. elim (ltb n 1) [ true ↦ threw | false ↦ returned (some "p") ];
  action_handler = λ _. none;
  has_agent_destinations = true;
  route_agent_message = λ _ _. true;
  messaging_group_id = λ _ _. some "mg";
  has_destination = λ _ _. false;
  has_pending_questions = true;
}

abbrev down : Outside
down = record flaky { deliver = λ _ _. threw }

abbrev both : List OutboundMessage
both = note "m" ∷ note "n" ∷ []

-- The sweep polls while the active poll is between two messages; the message that failed first comes
-- with the next poll.
abbrev crossing : List Step
crossing =
    polls 1000 home both
    ∷ continues "s"
    ∷ polls 1500 home both
    ∷ continues "s"
    ∷ continues "s"
    ∷ polls 2000 home both
    ∷ continues "s"
    ∷ []

machine : Unit {0}
unfolding init run step start_delivery continue_delivery take_drain advance without
    get_due_outbound_messages not_delivered deliver_next settle_message note_failure pause_typing
    forget_attempts mark_delivered mark_delivery_failed add_receipt deliver_message deliver_content
    deliver_to_channel track_question is_authorized record_call insert_or_ignore lookup insert erase
    includes
machine = tt

crossing_calls :
    (run flaky crossing init).calls
    ≡ typing_paused "s"
      ∷ outbox_cleared "s" "m"
      ∷ handed "s" "m" true
      ∷ typing_paused "s"
      ∷ outbox_cleared "s" "n"
      ∷ handed "s" "n" true
      ∷ handed "s" "m" false
      ∷ []
unfolding machine
crossing_calls = refl

abbrev m_id : String
m_id = "m"

abbrev n_id : String
n_id = "n"

n_not_m : n_id ≢ m_id
n_not_m e = ground (arith, eq_iff n_id m_id, e)

ids : Distinct (message_ids both)
ids = ((n_not_m, tt), (tt, tt))

ids_differ : All PrimaryKey crossing
ids_differ = (ids, (tt, (ids, (tt, (tt, (ids, (tt, tt)))))))

run-Once_example : Once (run flaky crossing init).calls
run-Once_example = run-Once flaky crossing ids_differ

fresh_start : DeliversOnce init
unfolding init was_accepted
fresh_start = record { once = tt; receipted = λ s i h. absurd (cc h); waiting = tt; apart = tt }

down-throws : (e : Delivery) → (deliver_message down (note "m") home e).0 ≡ threw
unfolding machine
down-throws e = refl

nothing_counted : lookup "m" init.delivery_attempts ≡ none
unfolding machine
nothing_counted = refl

no_receipt : lookup "m" (init.receipts "s") ≡ none
unfolding machine
no_receipt = refl

again-gives_up_example :
    Retried down (note "m") home both (again down (note "m") home 1 init)
    × Retried down (note "m") home both (again down (note "m") home 2 init)
    × (lookup "m" ((again down (note "m") home 3 init).receipts "s")
        ≡ some (record { platform_message_id = none; status = failed }))
    × LeftOut "m" (not_delivered ((again down (note "m") home 3 init).receipts "s") both)
again-gives_up_example =
    again-gives_up down (note "m") home down-throws init both nothing_counted no_receipt

deliver_message-Permitted_example :
    Minds flaky (note "m") home init (deliver_message flaky (note "m") home init).1
deliver_message-Permitted_example = deliver_message-Permitted flaky (note "m") home init

abbrev unset : Outside
unset = record flaky { has_adapter = false }

deliver_next-unsent_example :
    (lookup "m" ((deliver_next unset (note "m") home init).receipts "s")
      ≡ some (record { platform_message_id = none; status = delivered }))
    × (hand_count (deliver_next unset (note "m") home init).calls ≡ hand_count init.calls)
    × LeftOut "m" (not_delivered ((deliver_next unset (note "m") home init).receipts "s") both)
deliver_next-unsent_example = deliver_next-unsent unset (note "m") home init both refl no_receipt
