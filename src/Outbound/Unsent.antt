-- ===== src/Outbound/Unsent.antt =====
-- src/delivery.ts: a message that comes up while no adapter is set.
use nanoclaw_github_copilot.Base.{
  ◌≡◌, false, none, some, arith, List, eq_refl, lookup, lookup-insert,
}
use nanoclaw_github_copilot.Outbound.{
  OutboundMessage, Session, Outside, Receipt, delivered, Delivery,
}
use nanoclaw_github_copilot.Outbound.Message.{record_call, insert_or_ignore, deliver_message}
use nanoclaw_github_copilot.Outbound.Drain.{
  add_receipt, mark_delivered, forget_attempts, pause_typing, settle_message, deliver_next,
  not_delivered, LeftOut, not_delivered-LeftOut,
}
use nanoclaw_github_copilot.Outbound.Permission.{hand_count}

-- While no adapter is set, a round records the message as delivered although no channel was called, and the
-- filter of a poll then leaves it out, whatever is due. The condition is that it has no row yet.
pub deliver_next-unsent :
    (out : Outside) (msg : OutboundMessage) (session : Session) (d : Delivery)
    (due : List OutboundMessage)
    → out.has_adapter ≡ false
    → lookup msg.id (d.receipts session.id) ≡ none
    → (lookup msg.id ((deliver_next out msg session d).receipts session.id)
        ≡ some (record { platform_message_id = none; status = delivered }))
      × (hand_count (deliver_next out msg session d).calls ≡ hand_count d.calls)
      × LeftOut msg.id (not_delivered ((deliver_next out msg session d).receipts session.id) due)
unfolding deliver_next deliver_message settle_message pause_typing forget_attempts mark_delivered
    add_receipt insert_or_ignore record_call
deliver_next-unsent out msg session d due unset new =
    (recorded, ground (arith, unset), not_delivered-LeftOut msg.id _ due (ground (arith, recorded)))
  where
    receipt : Receipt
    receipt = record { platform_message_id = none; status = delivered }

    recorded :
        lookup msg.id ((deliver_next out msg session d).receipts session.id)
        ≡ some (record { platform_message_id = none; status = delivered })
    recorded = ground (
      arith,
      unset,
      new,
      lookup-insert msg.id msg.id receipt (d.receipts session.id),
      eq_refl msg.id,
      eq_refl session.id,
    )
