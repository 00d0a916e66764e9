-- ===== src/Outbound/Message.antt =====
-- src/delivery.ts: `deliverMessage` and `handleSystemAction`.
use nanoclaw_github_copilot.Base.{
  ℕ, suc, String, Bool, true, false, not, ◌&&◌, Option, none, some, ◌∷◌, if◌then◌else◌, truthy,
  is_some, str_eq, Table, lookup, insert,
}
use nanoclaw_github_copilot.Outbound.{
  Content, OutboundMessage, Session, Outcome, threw, returned, ActionRun, Outside, Call, handed,
  acted, routed, outbox_cleared, Delivery,
}

abbrev pub is_text : Option String → String → Bool
is_text none s = false
is_text (some t) s = str_eq t s

abbrev pub or_empty : Option String → String
or_empty none = ""
or_empty (some s) = s

unfoldable pub record_call : Call → Delivery → Delivery
record_call c d = record d { calls = c ∷ d.calls; clock = suc d.clock }

-- `INSERT OR IGNORE`
unfoldable pub insert_or_ignore {ℓ} : {V : Type ℓ} → String → V → Table V → Table V
insert_or_ignore key value table =
    if is_some (lookup key table) then table else insert key value table

abbrev pub run_handler : Session → String → Option (ℕ → ActionRun) → Delivery → Outcome × Delivery
run_handler session action none d = (returned none, d)
run_handler session action (some handler) d = (
  if (handler d.clock).succeeds then returned none else threw,
  record_call (acted session.id action (handler d.clock).sends) d,
)

-- `handleSystemAction`
unfoldable pub handle_system_action : Outside → Content → Session → Delivery → Outcome × Delivery
unfolding record_call
handle_system_action out content session d =
    run_handler session content.action (out.action_handler content.action) d

-- The branch of `deliverMessage` for the messages of one agent to another.
unfoldable pub deliver_to_agent :
    Outside → OutboundMessage → Session → Delivery → Outcome × Delivery
unfolding record_call
deliver_to_agent out msg session d = if not out.has_agent_destinations then (threw, d) else (
  if out.route_agent_message d.clock msg then returned none else threw,
  record_call (routed session.id msg.id) d,
)

abbrev pub may_reach : Outside → Session → Option String → Bool
may_reach out session none = false
may_reach out session (some mg) =
    if not (is_text session.messaging_group_id mg) && out.has_agent_destinations
    then out.has_destination session.agent_group_id mg
    else true

abbrev pub has_address : OutboundMessage → Bool
has_address msg = truthy msg.channel_type && truthy msg.platform_id

-- The permission check of `deliverMessage`: false where it throws.
unfoldable pub is_authorized : Outside → OutboundMessage → Session → Bool
is_authorized out msg session =
    if has_address msg
    then may_reach out session
        (out.messaging_group_id (or_empty msg.channel_type) (or_empty msg.platform_id))
    else true

-- `createPendingQuestion` where `deliverMessage` calls it.
unfoldable pub track_question : Outside → Content → OutboundMessage → Delivery → Delivery
unfolding insert_or_ignore
track_question out content msg d =
    if content.is_question && truthy content.question_id && out.has_pending_questions
    then if not (truthy content.title && content.has_options) then d else record d {
      pending_questions =
          insert_or_ignore (or_empty content.question_id) msg.id d.pending_questions;
    }
    else d

abbrev pub finish_delivery : OutboundMessage → Session → Outcome → Delivery → Outcome × Delivery
finish_delivery msg session threw d = (threw, record_call (handed session.id msg.id false) d)
finish_delivery msg session (returned platform_id) d = (
  returned platform_id,
  record_call (outbox_cleared session.id msg.id) (record_call (handed session.id msg.id true) d),
)

-- The end of `deliverMessage`, from the channel delivery on.
unfoldable pub deliver_to_channel :
    Outside → OutboundMessage → Session → Delivery → Outcome × Delivery
unfolding record_call
deliver_to_channel out msg session d =
    if not (has_address msg)
    then (returned none, d)
    else finish_delivery msg session (out.deliver d.clock msg) d

unfoldable pub deliver_content :
    Outside → OutboundMessage → Session → Option Content → Delivery → Outcome × Delivery
unfolding handle_system_action deliver_to_agent is_authorized track_question deliver_to_channel
deliver_content out msg session none d = (threw, d)
deliver_content out msg session (some content) d =
    if str_eq msg.kind "system"
    then handle_system_action out content session d
    else if is_text msg.channel_type "agent"
    then deliver_to_agent out msg session d
    else if not (is_authorized out msg session)
    then (threw, d)
    else deliver_to_channel out msg session (track_question out content msg d)

-- `deliverMessage`
unfoldable pub deliver_message : Outside → OutboundMessage → Session → Delivery → Outcome × Delivery
unfolding deliver_content
deliver_message out msg session d =
    if not out.has_adapter
    then (returned none, d)
    else deliver_content out msg session msg.content d
