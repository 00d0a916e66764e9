-- ===== src/Outbound/Accepted.antt =====
-- src/delivery.ts: which messages a channel has accepted, and what `deliverMessage` does to that.
use nanoclaw_github_copilot.Base.{
  ℕ, ◌≡◌, refl, String, Bool, true, false, not, ◌&&◌, ◌||◌, Option, none, some, List, [], ◌∷◌,
  if_elim, truthy, str_eq, Table,
}
use nanoclaw_github_copilot.Outbound.{
  Content, OutboundMessage, Session, Outcome, threw, returned, ActionRun, Outside, Call, handed,
  acted, routed, outbox_cleared, typing_paused, Delivery,
}
use nanoclaw_github_copilot.Outbound.Message.{
  is_text, or_empty, has_address, record_call, insert_or_ignore, handle_system_action, run_handler,
  deliver_to_agent, is_authorized, track_question, finish_delivery, deliver_to_channel,
  deliver_content, deliver_message,
}

-- The adapter took this session's message.
unfoldable pub was_accepted : String → String → List Call → Bool
was_accepted session id [] = false
was_accepted session id (handed s i taken ∷ calls) =
    taken && str_eq s session && str_eq i id || was_accepted session id calls
was_accepted session id (acted _ _ _ ∷ calls) = was_accepted session id calls
was_accepted session id (routed _ _ ∷ calls) = was_accepted session id calls
was_accepted session id (outbox_cleared _ _ ∷ calls) = was_accepted session id calls
was_accepted session id (typing_paused _ ∷ calls) = was_accepted session id calls

-- No message was taken twice.
abbrev pub Once : List Call → Type 0
Once [] = Unit {0}
Once (handed s i true ∷ calls) = (was_accepted s i calls ≡ false) × Once calls
Once (handed s i false ∷ calls) = Once calls
Once (acted _ _ _ ∷ calls) = Once calls
Once (routed _ _ ∷ calls) = Once calls
Once (outbox_cleared _ _ ∷ calls) = Once calls
Once (typing_paused _ ∷ calls) = Once calls

-- The later calls are the earlier ones and others, of which one hands over this message if `taken`.
abbrev pub Adds : (session id : String) → Bool → List Call → List Call → Type 0
Adds s i taken calls later =
    ((t j : String)
      → was_accepted t j later ≡ (taken && str_eq s t && str_eq i j || was_accepted t j calls))
    × ((taken ≡ true → was_accepted s i calls ≡ false) → Once calls → Once later)

-- What `deliverMessage` does to the calls; the rest is as before, and it does not throw after the
-- adapter took the message.
pub record Delivered (msg : OutboundMessage) (session : Session) (d : Delivery)
    (r : Outcome × Delivery) : Type 0 where
  pub taken : Bool
  pub adds : Adds session.id msg.id taken d.calls r.1.calls
  pub same_receipts : r.1.receipts ≡ d.receipts
  pub same_drains : r.1.drains ≡ d.drains
  pub same_inflight : r.1.inflight_deliveries ≡ d.inflight_deliveries
  pub told : taken ≡ true → (p : Option String) × (r.0 ≡ returned p)

module _ (out : Outside) (msg : OutboundMessage) (session : Session) where
  not_taken :
      {o : Outcome} {d e : Delivery}
      → e.receipts ≡ d.receipts
      → e.drains ≡ d.drains
      → e.inflight_deliveries ≡ d.inflight_deliveries
      → Adds session.id msg.id false d.calls e.calls
      → Delivered msg session d (o, e)
  not_taken receipts drains inflight adds = record {
    taken = false;
    adds = adds;
    same_receipts = receipts;
    same_drains = drains;
    same_inflight = inflight;
    told = λ k. absurd (cc k);
  }

  untouched : (o : Outcome) (d : Delivery) → Delivered msg session d (o, d)
  untouched o d = not_taken refl refl refl ((λ t j. refl), λ _ h. h)

  handle_system_action-Delivered :
      (content : Content) (d : Delivery)
      → Delivered msg session d (handle_system_action out content session d)
  unfolding handle_system_action record_call was_accepted
  handle_system_action-Delivered content d = ran (out.action_handler content.action)
    where
      ran :
          (h : Option (ℕ → ActionRun))
          → Delivered msg session d (run_handler session content.action h d)
      ran none = untouched (returned none) d
      ran (some h) = not_taken refl refl refl ((λ t j. refl), λ _ h. h)

  deliver_to_agent-Delivered :
      (d : Delivery) → Delivered msg session d (deliver_to_agent out msg session d)
  unfolding deliver_to_agent record_call was_accepted
  deliver_to_agent-Delivered d =
      if_elim (Delivered msg session d) (not out.has_agent_destinations) (λ _. untouched threw d)
        (λ _. not_taken refl refl refl ((λ t j. refl), λ _ h. h))

  finish_delivery-Delivered :
      (q : Table String) (d : Delivery) (o : Outcome)
      → Delivered msg session d (finish_delivery msg session o (record d { pending_questions = q }))
  unfolding record_call was_accepted
  finish_delivery-Delivered q d threw = not_taken refl refl refl ((λ t j. refl), λ _ h. h)
  finish_delivery-Delivered q d (returned p) = record {
    taken = true;
    adds = ((λ t j. refl), λ fresh h. (fresh refl, h));
    same_receipts = refl;
    same_drains = refl;
    same_inflight = refl;
    told = λ _. (p, refl);
  }

  deliver_to_channel-Delivered :
      (q : Table String) (d : Delivery)
      → Delivered msg session d
          (deliver_to_channel out msg session (record d { pending_questions = q }))
  unfolding deliver_to_channel
  deliver_to_channel-Delivered q d =
      if_elim (Delivered msg session d) (not (has_address msg))
        (λ _. not_taken refl refl refl ((λ t j. refl), λ _ h. h))
        (λ _. finish_delivery-Delivered q d (out.deliver d.clock msg))

  track_question-Delivered :
      (content : Content) (d : Delivery)
      → Delivered msg session d
          (deliver_to_channel out msg session (track_question out content msg d))
  unfolding track_question
  track_question-Delivered content d =
      if_elim P (content.is_question && truthy content.question_id && out.has_pending_questions)
        (λ _.
          if_elim P (not (truthy content.title && content.has_options)) (λ _. plain)
            (λ _.
              deliver_to_channel-Delivered
                (insert_or_ignore (or_empty content.question_id) msg.id d.pending_questions) d))
        (λ _. plain)
    where
      P : Delivery → Type 0
      P e = Delivered msg session d (deliver_to_channel out msg session e)

      plain : P d
      plain = deliver_to_channel-Delivered d.pending_questions d

  deliver_content-Delivered :
      (content : Option Content) (d : Delivery)
      → Delivered msg session d (deliver_content out msg session content d)
  unfolding deliver_content
  deliver_content-Delivered none d = untouched threw d
  deliver_content-Delivered (some content) d =
      if_elim P (str_eq msg.kind "system") (λ _. handle_system_action-Delivered content d)
        (λ _.
          if_elim P (is_text msg.channel_type "agent") (λ _. deliver_to_agent-Delivered d)
            (λ _.
              if_elim P (not (is_authorized out msg session)) (λ _. untouched threw d)
                (λ _. track_question-Delivered content d)))
    where
      P : Outcome × Delivery → Type 0
      P = Delivered msg session d

  pub deliver_message-Delivered :
      (d : Delivery) → Delivered msg session d (deliver_message out msg session d)
  unfolding deliver_message
  deliver_message-Delivered d =
      if_elim (Delivered msg session d) (not out.has_adapter) (λ _. untouched (returned none) d)
        (λ _. deliver_content-Delivered msg.content d)
