-- ===== src/Outbound/Polls.antt =====
-- src/delivery.ts: `deliverSessionMessages` as the two poll chains call it. Each call is a start and one
-- round per message; the rounds of two calls may interleave between any two messages. `deliverMessage`, with its
-- awaits, and the row that follows it are one step.
use nanoclaw_github_copilot.Base.{
  ℕ, String, Option, none, some, List, [], ◌∷◌, if◌then◌else◌, includes, str_eq,
}
use nanoclaw_github_copilot.Outbound.{OutboundMessage, Session, Outside, Draining, Delivery}
use nanoclaw_github_copilot.Outbound.Drain.{get_due_outbound_messages, not_delivered, deliver_next}

-- `inflightDeliveries.delete(id)`
unfoldable pub without : String → List String → List String
without id [] = []
without id (x ∷ xs) = let rest = without id xs in if str_eq x id then rest else x ∷ rest

-- `deliverSessionMessages` up to its first message. `rows` is what outbound.db holds: nothing if the
-- agent group is gone or a database does not open.
unfoldable pub start_delivery : ℕ → Session → List OutboundMessage → Delivery → Delivery
unfolding get_due_outbound_messages not_delivered
start_delivery now session rows d =
    if includes d.inflight_deliveries session.id then d else record d {
      inflight_deliveries = session.id ∷ d.inflight_deliveries;
      drains =
          record {
            session = session;
            undelivered =
                not_delivered (d.receipts session.id) (get_due_outbound_messages now rows);
          }
          ∷ d.drains;
    }

-- The calls in progress, less one that takes its next step: the drain of this session.
unfoldable pub take_drain : String → List Draining → Option Draining × List Draining
take_drain id [] = (none, [])
take_drain id (x ∷ xs) =
    let (found, rest) = take_drain id xs in
    if str_eq x.session.id id then (some x, xs) else (found, x ∷ rest)

unfoldable pub advance : Outside → Draining → List OutboundMessage → Delivery → Delivery
unfolding deliver_next without
advance out drain [] d = record d {
  inflight_deliveries = without drain.session.id d.inflight_deliveries;
}
advance out drain (m ∷ ms) d =
    deliver_next out m drain.session
      (record d { drains = record drain { undelivered = ms } ∷ d.drains })

abbrev pub advance_found : Outside → Option Draining × List Draining → Delivery → Delivery
advance_found out (none, rest) d = d
advance_found out (some drain, rest) d =
    advance out drain drain.undelivered (record d { drains = rest })

-- The next round of the call for this session, or its `finally` block.
unfoldable pub continue_delivery : Outside → String → Delivery → Delivery
unfolding take_drain advance
continue_delivery out id d = advance_found out (take_drain id d.drains) d

pub data Step : Type 0 where
  polls : (now : ℕ) (session : Session) (rows : List OutboundMessage) → Step
  continues : (session : String) → Step

unfoldable pub step : Outside → Step → Delivery → Delivery
unfolding start_delivery continue_delivery
step out (polls now session rows) d = start_delivery now session rows d
step out (continues session) d = continue_delivery out session d

unfoldable pub run : Outside → List Step → Delivery → Delivery
unfolding step
run out [] d = d
run out (s ∷ steps) d = run out steps (step out s d)

unfoldable pub init : Delivery
init = record {
  delivery_attempts = [];
  inflight_deliveries = [];
  receipts = λ _. [];
  pending_questions = [];
  drains = [];
  calls = [];
  clock = 0;
}
