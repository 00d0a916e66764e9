-- ===== src/Outbound/Rounds.antt =====
-- src/delivery.ts: what one round of `drainSession` does to the accepted messages and their receipts.
use nanoclaw_github_copilot.Base.{
  ◌≡◌, sym, subst, suc, leb, String, Bool, true, not, ◌&&◌, ◌||◌, Option, none, arith, if_elim,
  is_some, str_eq, eq_iff, eq_refl, Table, lookup, lookup-insert,
}
use nanoclaw_github_copilot.Outbound.{
  OutboundMessage, Session, Outcome, threw, returned, Outside, Receipt, delivered, failed, Delivery,
}
use nanoclaw_github_copilot.Outbound.Message.{
  is_text, record_call, insert_or_ignore, deliver_message,
}
use nanoclaw_github_copilot.Outbound.Drain.{
  add_receipt, mark_delivered, mark_delivery_failed, forget_attempts, pause_typing, note_failure,
  settle_message, deliver_next, max_delivery_attempts, or_zero,
}
use nanoclaw_github_copilot.Outbound.Accepted.{
  was_accepted, Adds, Delivered, deliver_message-Delivered,
}

-- What a round of `drainSession` does: every message that the adapter took has a row in `delivered`, and
-- no row is lost.
pub record Settled (msg : OutboundMessage) (session : Session) (d later : Delivery) : Type 0 where
  pub taken : Bool
  pub adds : Adds session.id msg.id taken d.calls later.calls
  pub keeps :
      (t j : String)
      → is_some (lookup j (d.receipts t)) ≡ true
      → is_some (lookup j (later.receipts t)) ≡ true
  pub noted : taken ≡ true → is_some (lookup msg.id (later.receipts session.id)) ≡ true
  pub same_drains : later.drains ≡ d.drains
  pub same_inflight : later.inflight_deliveries ≡ d.inflight_deliveries

lookup-insert_or_ignore :
    (k j : String) (v : Receipt) (table : Table Receipt)
    → is_some (lookup j (insert_or_ignore k v table)) ≡ (str_eq k j || is_some (lookup j table))
unfolding insert_or_ignore
lookup-insert_or_ignore k j v table = ground (arith, lookup-insert k j v table, eq_iff k j)

add_receipt-keeps :
    (s i t j : String) (v : Receipt) (d : Delivery)
    → is_some (lookup j ((add_receipt s i v d).receipts t))
      ≡ (str_eq s t && str_eq i j || is_some (lookup j (d.receipts t)))
unfolding add_receipt
add_receipt-keeps s i t j v d =
    ground (arith, lookup-insert_or_ignore i j v (d.receipts s), eq_iff s t)

module _ (msg : OutboundMessage) (session : Session) (d : Delivery) where
  -- The row that a round adds leaves the others.
  keeps-add_receipt :
      (e : Delivery) (v : Receipt)
      → e.receipts ≡ d.receipts
      → (t j : String) → is_some (lookup j (d.receipts t)) ≡ true
      → is_some (lookup j ((add_receipt session.id msg.id v e).receipts t)) ≡ true
  keeps-add_receipt e v same t j h =
      ground (arith, add_receipt-keeps session.id msg.id t j v e, kept)
    where
      kept : is_some (lookup j (e.receipts t)) ≡ true
      kept = subst (λ f. is_some (lookup j (f t)) ≡ true) (sym same) h

  note_failure-Settled :
      (e : Delivery)
      → Delivered msg session d (threw, e)
      → Settled msg session d (note_failure msg session e)
  unfolding note_failure mark_delivery_failed forget_attempts add_receipt
  note_failure-Settled e h =
      if_elim (Settled msg session d)
        (leb max_delivery_attempts (suc (or_zero (lookup msg.id e.delivery_attempts))))
        (λ _. record {
          taken = h.taken;
          adds = h.adds;
          keeps = keeps-add_receipt e failed_receipt h.same_receipts;
          noted = λ k. absurd (cc (h.told k).1);
          same_drains = h.same_drains;
          same_inflight = h.same_inflight;
        })
        (λ _. record {
          taken = h.taken;
          adds = h.adds;
          keeps = λ t j. subst (λ f. is_some (lookup j (f t)) ≡ true) (sym h.same_receipts);
          noted = λ k. absurd (cc (h.told k).1);
          same_drains = h.same_drains;
          same_inflight = h.same_inflight;
        })
    where
      failed_receipt : Receipt
      failed_receipt = record { platform_message_id = none; status = failed }

  mark_delivered-Settled :
      (e : Delivery) (p : Option String)
      → Delivered msg session d (returned p, e)
      → Settled msg session d
          (pause_typing msg session (forget_attempts msg.id (mark_delivered session.id msg.id p e)))
  unfolding pause_typing forget_attempts mark_delivered add_receipt record_call was_accepted
  mark_delivered-Settled e p h =
      if_elim (Settled msg session d)
        (not (str_eq msg.kind "system") && not (is_text msg.channel_type "agent"))
        (λ _. record {
          taken = h.taken;
          adds = h.adds;
          keeps = keeps-add_receipt e receipt h.same_receipts;
          noted = λ _. new;
          same_drains = h.same_drains;
          same_inflight = h.same_inflight;
        })
        (λ _. record {
          taken = h.taken;
          adds = h.adds;
          keeps = keeps-add_receipt e receipt h.same_receipts;
          noted = λ _. new;
          same_drains = h.same_drains;
          same_inflight = h.same_inflight;
        })
    where
      receipt : Receipt
      receipt = record { platform_message_id = p; status = delivered }

      new :
          is_some (lookup msg.id ((add_receipt session.id msg.id receipt e).receipts session.id))
          ≡ true
      new = ground (
        arith,
        add_receipt-keeps session.id msg.id session.id msg.id receipt e,
        eq_refl session.id,
        eq_refl msg.id,
      )

pub deliver_next-Settled :
    (out : Outside) (msg : OutboundMessage) (session : Session) (d : Delivery)
    → Settled msg session d (deliver_next out msg session d)
unfolding deliver_next
deliver_next-Settled out msg session d =
    settled (deliver_message out msg session d) (deliver_message-Delivered out msg session d)
  where
    settled :
        (r : Outcome × Delivery)
        → Delivered msg session d r
        → Settled msg session d (settle_message msg session r)
    settled (threw, e) h = unfold settle_message in note_failure-Settled msg session d e h
    settled (returned p, e) h = unfold settle_message in mark_delivered-Settled msg session d e p h
