-- ===== src/Outbound/Attempts.antt =====
-- src/delivery.ts: a message whose delivery throws each time.
use nanoclaw_github_copilot.Base.{
  ℕ, zero, suc, ◌<◌, ◌≡◌, refl, ap, ◌∙◌, not, Option, none, some, List, ◌∷◌, arith, if_elim, str_eq,
  eq_refl, lookup, lookup-insert,
}
use nanoclaw_github_copilot.Outbound.{
  Content, OutboundMessage, Session, Outcome, threw, returned, ActionRun, Outside, Receipt, failed,
  Delivery,
}
use nanoclaw_github_copilot.Outbound.Message.{
  is_text, has_address, record_call, insert_or_ignore, handle_system_action, run_handler,
  deliver_to_agent, is_authorized, track_question, finish_delivery, deliver_to_channel,
  deliver_content, deliver_message,
}
use nanoclaw_github_copilot.Outbound.Drain.{
  or_zero, add_receipt, mark_delivery_failed, forget_attempts, note_failure, settle_message,
  deliver_next, not_delivered, LeftOut, not_delivered-LeftOut, not_delivered-new,
}
use nanoclaw_github_copilot.Outbound.Accepted.{deliver_message-Delivered}

module _ (out : Outside) (msg : OutboundMessage) (session : Session) where
  abbrev Same : Delivery → Outcome × Delivery → Type 0
  Same d r = r.1.delivery_attempts ≡ d.delivery_attempts

  finish_delivery-Same : (o : Outcome) (d : Delivery) → Same d (finish_delivery msg session o d)
  unfolding record_call
  finish_delivery-Same threw d = refl
  finish_delivery-Same (returned p) d = refl

  handle_system_action-Same :
      (content : Content) (d : Delivery) → Same d (handle_system_action out content session d)
  unfolding handle_system_action record_call
  handle_system_action-Same content d = ran (out.action_handler content.action)
    where
      ran : (h : Option (ℕ → ActionRun)) → Same d (run_handler session content.action h d)
      ran none = refl
      ran (some h) = refl

  track_question-attempts :
      (content : Content) (d : Delivery)
      → (track_question out content msg d).delivery_attempts ≡ d.delivery_attempts
  unfolding track_question
  track_question-attempts content d = ground arith

  deliver_content-Same :
      (content : Option Content) (d : Delivery) → Same d (deliver_content out msg session content d)
  unfolding deliver_content deliver_to_agent record_call deliver_to_channel
  deliver_content-Same none d = refl
  deliver_content-Same (some content) d =
      if_elim (Same d) (str_eq msg.kind "system") (λ _. handle_system_action-Same content d)
        (λ _.
          if_elim (Same d) (is_text msg.channel_type "agent")
            (λ _. if_elim (Same d) (not out.has_agent_destinations) (λ _. refl) (λ _. refl))
            (λ _.
              if_elim (Same d) (not (is_authorized out msg session)) (λ _. refl)
                (λ _.
                  if_elim (Same d) (not (has_address msg)) (λ _. track_question-attempts content d)
                    (λ _.
                      finish_delivery-Same (out.deliver e.clock msg) e
                      ∙ track_question-attempts content d))))
    where
      e : Delivery
      e = track_question out content msg d

  -- `deliverMessage` leaves the counts of attempts alone.
  deliver_message-Same : (d : Delivery) → Same d (deliver_message out msg session d)
  unfolding deliver_message
  deliver_message-Same d =
      if_elim (Same d) (not out.has_adapter) (λ _. refl) (λ _. deliver_content-Same msg.content d)

  settle_message-threw :
      (r : Outcome × Delivery)
      → r.0 ≡ threw
      → settle_message msg session r ≡ note_failure msg session r.1
  unfolding settle_message
  settle_message-threw (threw, e) h = refl
  settle_message-threw (returned p, e) h = absurd (cc h)

  -- `n` attempts failed, and the message has no row in `delivered`.
  abbrev Pending : ℕ → Delivery → Type 0
  Pending n d =
      (or_zero (lookup msg.id d.delivery_attempts) ≡ n)
      × (lookup msg.id (d.receipts session.id) ≡ none)

  note_failure-Pending :
      (n : ℕ) (d : Delivery)
      → suc n < 3
      → Pending n d
      → Pending (suc n) (note_failure msg session d)
  unfolding note_failure
  note_failure-Pending n d few p = ground (
    arith,
    p.0,
    p.1,
    few,
    lookup-insert msg.id msg.id (suc n) d.delivery_attempts,
    eq_refl msg.id,
  )

  note_failure-last :
      (d : Delivery)
      → Pending 2 d
      → lookup msg.id ((note_failure msg session d).receipts session.id)
        ≡ some (record { platform_message_id = none; status = failed })
  unfolding note_failure forget_attempts mark_delivery_failed add_receipt insert_or_ignore
  note_failure-last d p = ground (
    arith,
    p.0,
    p.1,
    lookup-insert msg.id msg.id failed_receipt (d.receipts session.id),
    eq_refl msg.id,
    eq_refl session.id,
  )
    where
      failed_receipt : Receipt
      failed_receipt = record { platform_message_id = none; status = failed }

  -- The message has no row, and the filter of a poll keeps it before the others that are due.
  abbrev pub Retried : List OutboundMessage → Delivery → Type 0
  Retried due d =
      (lookup msg.id (d.receipts session.id) ≡ none)
      × (not_delivered (d.receipts session.id) (msg ∷ due)
          ≡ msg ∷ not_delivered (d.receipts session.id) due)

  retried :
      (due : List OutboundMessage) (d : Delivery)
      → lookup msg.id (d.receipts session.id) ≡ none
      → Retried due d
  retried due d h = (h, not_delivered-new msg (d.receipts session.id) due h)

  -- So many rounds on the message.
  abbrev pub again : ℕ → Delivery → Delivery
  again zero d = d
  again (suc n) d = deliver_next out msg session (again n d)

  module _ (fails : (e : Delivery) → (deliver_message out msg session e).0 ≡ threw) where
    called : Delivery → Delivery
    called d = (deliver_message out msg session d).1

    deliver_next-fails :
        (d : Delivery) → deliver_next out msg session d ≡ note_failure msg session (called d)
    unfolding deliver_next called
    deliver_next-fails d = settle_message-threw (deliver_message out msg session d) (fails d)

    called-Pending : (n : ℕ) (d : Delivery) → Pending n d → Pending n (called d)
    unfolding called
    called-Pending n d p = (
      (ap (λ t. or_zero (lookup msg.id t)) (deliver_message-Same d) ∙ p.0),
      (ap (λ f. lookup msg.id (f session.id))
            (deliver_message-Delivered out msg session d).same_receipts
          ∙ p.1),
    )

    deliver_next-Pending :
        (n : ℕ) (d : Delivery)
        → suc n < 3
        → Pending n d
        → Pending (suc n) (deliver_next out msg session d)
    deliver_next-Pending n d few p =
        rw (deliver_next-fails d) (note_failure-Pending n (called d) few (called-Pending n d p))

    deliver_next-last :
        (d : Delivery)
        → Pending 2 d
        → lookup msg.id ((deliver_next out msg session d).receipts session.id)
          ≡ some (record { platform_message_id = none; status = failed })
    deliver_next-last d p =
        rw (deliver_next-fails d) (note_failure-last (called d) (called-Pending 2 d p))

    -- A message whose delivery throws every time is left for the next poll twice, with no row in
    -- `delivered`, so that the filter of a poll keeps it; the third failure records it as failed, and
    -- the filter then leaves it out, whatever is due. The conditions are that no failure is counted
    -- before and that there is no row.
    pub again-gives_up :
        (d : Delivery) (due : List OutboundMessage)
        → lookup msg.id d.delivery_attempts ≡ none
        → lookup msg.id (d.receipts session.id) ≡ none
        → Retried due (again 1 d)
          × Retried due (again 2 d)
          × (lookup msg.id ((again 3 d).receipts session.id)
              ≡ some (record { platform_message_id = none; status = failed }))
          × LeftOut msg.id (not_delivered ((again 3 d).receipts session.id) due)
    again-gives_up d due z r =
        let one = deliver_next-Pending 0 d (omega arith) ((ap or_zero z), r) in
        let two = deliver_next-Pending 1 (again 1 d) (omega arith) one in
        let last = deliver_next-last (again 2 d) two in
        (
          retried due (again 1 d) one.1,
          retried due (again 2 d) two.1,
          last,
          not_delivered-LeftOut msg.id _ due (ground (arith, last)),
        )
