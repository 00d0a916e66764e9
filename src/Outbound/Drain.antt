-- ===== src/Outbound/Drain.antt =====
-- src/delivery.ts: `drainSession`.
use nanoclaw_github_copilot.Base.{
  ℕ, suc, ◌/◌, String, Bool, true, not, ◌&&◌, Option, none, some, List, [], ◌∷◌, if◌then◌else◌, leb,
  is_some, str_eq, eq_iff, if_elim, All, arith, ◌≡◌, refl, false, Table, lookup, insert, erase,
}
use nanoclaw_github_copilot.Outbound.{
  OutboundMessage, Session, Outcome, threw, returned, Outside, typing_paused, delivered, failed,
  Receipt, Delivery,
}
use nanoclaw_github_copilot.Outbound.Message.{
  is_text, record_call, insert_or_ignore, deliver_message,
}

abbrev pub max_delivery_attempts : ℕ
max_delivery_attempts = 3

-- `deliver_after <= datetime('now')` by the second, which is the order of the texts where both have the format
-- of `datetime`.
abbrev pub is_due : ℕ → Option ℕ → Bool
is_due now none = true
is_due now (some t) = leb (t / 1000) (now / 1000)

-- `getDueOutboundMessages` on the rows in the order of their instants.
unfoldable pub get_due_outbound_messages : ℕ → List OutboundMessage → List OutboundMessage
get_due_outbound_messages now [] = []
get_due_outbound_messages now (m ∷ ms) =
    let rest = get_due_outbound_messages now ms in
    if is_due now m.deliver_after then m ∷ rest else rest

-- `allDue.filter((m) => !delivered.has(m.id))`
unfoldable pub not_delivered : Table Receipt → List OutboundMessage → List OutboundMessage
not_delivered receipts [] = []
not_delivered receipts (m ∷ ms) =
    let rest = not_delivered receipts ms in
    if is_some (lookup m.id receipts) then rest else m ∷ rest

-- No message of that id is left to deliver.
abbrev pub LeftOut : String → List OutboundMessage → Type 0
LeftOut id = All (λ (m : OutboundMessage). str_eq m.id id ≡ false)

-- A message with a row in `delivered` is filtered out, whichever messages are due.
pub not_delivered-LeftOut :
    (id : String) (receipts : Table Receipt) (due : List OutboundMessage)
    → is_some (lookup id receipts) ≡ true
    → LeftOut id (not_delivered receipts due)
unfolding not_delivered
not_delivered-LeftOut id receipts [] h = tt
not_delivered-LeftOut id receipts (m ∷ ms) h =
    let rest = not_delivered-LeftOut id receipts ms h in
    if_elim (LeftOut id) (is_some (lookup m.id receipts)) (λ _. rest)
      (λ e. (ground (arith, e, h, eq_iff m.id id), rest))

-- A message without a row stays.
pub not_delivered-new :
    (m : OutboundMessage) (receipts : Table Receipt) (due : List OutboundMessage)
    → lookup m.id receipts ≡ none
    → not_delivered receipts (m ∷ due) ≡ m ∷ not_delivered receipts due
unfolding not_delivered
not_delivered-new m receipts due h = rw h refl

-- A row of the session's `delivered` table, kept if there is one.
unfoldable pub add_receipt : String → String → Receipt → Delivery → Delivery
unfolding insert_or_ignore
add_receipt session id receipt d = record d {
  receipts = λ asked.
      if str_eq session asked
      then insert_or_ignore id receipt (d.receipts session)
      else d.receipts asked;
}

-- `markDelivered`
unfoldable pub mark_delivered : String → String → Option String → Delivery → Delivery
unfolding add_receipt
mark_delivered session id platform_id =
    add_receipt session id (record { platform_message_id = platform_id; status = delivered })

-- `markDeliveryFailed`
unfoldable pub mark_delivery_failed : String → String → Delivery → Delivery
unfolding add_receipt
mark_delivery_failed session id =
    add_receipt session id (record { platform_message_id = none; status = failed })

unfoldable pub forget_attempts : String → Delivery → Delivery
forget_attempts id d = record d { delivery_attempts = erase id d.delivery_attempts }

abbrev pub or_zero : Option ℕ → ℕ
or_zero none = 0
or_zero (some n) = n

-- `pauseTypingRefreshAfterDelivery` for what the user sees.
unfoldable pub pause_typing : OutboundMessage → Session → Delivery → Delivery
unfolding record_call
pause_typing msg session d =
    if not (str_eq msg.kind "system") && not (is_text msg.channel_type "agent")
    then record_call (typing_paused session.id) d
    else d

-- The `catch` block of the loop.
unfoldable pub note_failure : OutboundMessage → Session → Delivery → Delivery
unfolding mark_delivery_failed forget_attempts
note_failure msg session d =
    let attempts = suc (or_zero (lookup msg.id d.delivery_attempts)) in
    let noted = record d { delivery_attempts = insert msg.id attempts d.delivery_attempts } in
    if leb max_delivery_attempts attempts
    then forget_attempts msg.id (mark_delivery_failed session.id msg.id noted)
    else noted

-- What follows `await deliverMessage(…)`.
unfoldable pub settle_message : OutboundMessage → Session → Outcome × Delivery → Delivery
unfolding note_failure mark_delivered forget_attempts pause_typing
settle_message msg session (threw, d) = note_failure msg session d
settle_message msg session (returned platform_id, d) =
    pause_typing msg session
      (forget_attempts msg.id (mark_delivered session.id msg.id platform_id d))

-- One round of the loop of `drainSession`.
unfoldable pub deliver_next : Outside → OutboundMessage → Session → Delivery → Delivery
unfolding settle_message deliver_message
deliver_next out msg session d = settle_message msg session (deliver_message out msg session d)
