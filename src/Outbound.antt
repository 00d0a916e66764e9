-- ===== src/Outbound.antt =====
-- src/delivery.ts: the messages that a session's agent writes, handed to the channels. A session's
-- `delivered` table of inbound.db, and the central tables that the delivery reads, are as in
-- src/db/session-db.ts and src/db/sessions.ts; a statement on an open database succeeds. The files of a
-- message that the adapter gets beside it, and log lines, are left out.
pub mod Message
pub mod Drain
pub mod Polls
pub mod Accepted
pub mod Rounds
pub mod Apart
pub mod Waiting
pub mod Once
pub mod Permission
pub mod Attempts
pub mod Unsent
pub mod Tests
use nanoclaw_github_copilot.Base.{ℕ, String, Bool, Option, List, Table}

-- `JSON.parse(msg.content)`: the members that the delivery reads.
pub record Content : Type 0 where
  pub action : String
  pub is_question : Bool
  pub question_id : Option String
  pub title : Option String
  pub has_options : Bool

-- A row of `messages_out`; the content of one that does not parse is `none`.
pub record OutboundMessage : Type 0 where
  pub id : String
  pub kind : String
  pub platform_id : Option String
  pub channel_type : Option String
  pub content : Option Content
  pub deliver_after : Option ℕ

pub record Session : Type 0 where
  pub id : String
  pub agent_group_id : String
  pub messaging_group_id : Option String

-- How a call ends: it throws, or returns the platform's message id if there is one.
pub data Outcome : Type 0 where
  threw : Outcome
  returned : Option String → Outcome

-- A run of the handler of a system action: it may throw, and may call the adapter itself, as the requests
-- for an approval in src/modules/approvals/primitive.ts do.
pub record ActionRun : Type 0 where
  pub succeeds : Bool
  pub sends : ℕ

-- What the delivery asks of the outside: the adapter that is set, the handlers of system actions, the
-- agent-to-agent module and the central tables. The number counts the calls, so that one that failed
-- may succeed later.
pub record Outside : Type 0 where
  pub has_adapter : Bool
  pub deliver : ℕ → OutboundMessage → Outcome
  pub action_handler : String → Option (ℕ → ActionRun)
  pub has_agent_destinations : Bool
  pub route_agent_message : ℕ → OutboundMessage → Bool
  pub messaging_group_id : String → String → Option String
  pub has_destination : String → String → Bool
  pub has_pending_questions : Bool

pub data DeliveredStatus : Type 0 where
  delivered failed : DeliveredStatus

-- A row of `delivered` without its id and its instant.
pub record Receipt : Type 0 where
  pub platform_message_id : Option String
  pub status : DeliveredStatus

-- What the delivery did to the outside, the last first.
pub data Call : Type 0 where
  handed : (session id : String) (accepted : Bool) → Call
  acted : (session action : String) (sends : ℕ) → Call
  routed : (session id : String) → Call
  outbox_cleared : (session id : String) → Call
  typing_paused : (session : String) → Call

-- `deliverSessionMessages` between two awaits: the session, and the messages still to deliver.
pub record Draining : Type 0 where
  pub session : Session
  pub undelivered : List OutboundMessage

pub record Delivery : Type 0 where
  pub delivery_attempts : Table ℕ
  pub inflight_deliveries : List String
  pub receipts : String → Table Receipt
  pub pending_questions : Table String
  pub drains : List Draining
  pub calls : List Call
  pub clock : ℕ
