-- ===== src/Outbound/Permission.antt =====
-- src/delivery.ts: when `deliverMessage` calls the adapter.
use nanoclaw_github_copilot.Base.{
  ℕ, suc, ◌+◌, ◌≡◌, refl, sym, ap, ◌⊎◌, inl, inr, String, true, false, not, ◌&&◌, Option, none,
  some, List, [], ◌∷◌, arith, if_elim, truthy, str_eq, eq_iff, Bool-cases, Table,
}
use nanoclaw_github_copilot.Outbound.{
  Content, OutboundMessage, Session, Outcome, threw, returned, ActionRun, Outside, Call, handed,
  acted, routed, outbox_cleared, typing_paused, Delivery,
}
use nanoclaw_github_copilot.Outbound.Message.{
  is_text, or_empty, has_address, record_call, insert_or_ignore, handle_system_action, run_handler,
  deliver_to_agent, may_reach, is_authorized, track_question, finish_delivery, deliver_to_channel,
  deliver_content, deliver_message,
}

-- How often the adapter was called, by the handlers of system actions too.
abbrev pub hand_count : List Call → ℕ
hand_count [] = 0
hand_count (handed _ _ _ ∷ calls) = suc (hand_count calls)
hand_count (acted _ _ sends ∷ calls) = sends + hand_count calls
hand_count (routed _ _ ∷ calls) = hand_count calls
hand_count (outbox_cleared _ _ ∷ calls) = hand_count calls
hand_count (typing_paused _ ∷ calls) = hand_count calls

-- The chat of that id is the one the session came from, or there is no table of destinations, or the
-- agent group has a row for it.
abbrev pub MayReach : Outside → Session → String → Type 0
MayReach out session mg =
    (session.messaging_group_id ≡ some mg)
    ⊎ (out.has_agent_destinations ≡ false)
    ⊎ (out.has_destination session.agent_group_id mg ≡ true)

-- The message is for a channel, names a chat that is known, and the agent may write there.
pub record Permitted (out : Outside) (msg : OutboundMessage) (session : Session) : Type 0 where
  pub no_action : str_eq msg.kind "system" ≡ false
  pub no_agent : is_text msg.channel_type "agent" ≡ false
  pub addressed : has_address msg ≡ true
  pub known :
      (mg : String) × (out.messaging_group_id (or_empty msg.channel_type) (or_empty msg.platform_id)
        ≡ some mg)
      × MayReach out session mg

abbrev pub run_sends : Option (ℕ → ActionRun) → ℕ → ℕ
run_sends none clock = 0
run_sends (some handler) clock = (handler clock).sends

-- What the handler of the action sends, if there is one.
abbrev pub action_sends : Outside → Option Content → ℕ → ℕ
action_sends out none clock = 0
action_sends out (some content) clock = run_sends (out.action_handler content.action) clock

-- The adapter was not called, or by the handler of a system action, or once and then by permission.
abbrev pub MindsOf :
    Outside → OutboundMessage → Session → Option Content → Delivery → Delivery → Type 0
MindsOf out msg session content d later =
    (hand_count later.calls ≡ hand_count d.calls)
    ⊎ ((str_eq msg.kind "system" ≡ true)
        × (hand_count later.calls ≡ action_sends out content d.clock + hand_count d.calls))
    ⊎ ((hand_count later.calls ≡ suc (hand_count d.calls)) × Permitted out msg session)

abbrev pub Minds : Outside → OutboundMessage → Session → Delivery → Delivery → Type 0
Minds out msg session = MindsOf out msg session msg.content

module _ (out : Outside) (msg : OutboundMessage) (session : Session) where
  is_text-some : (o : Option String) (s : String) → is_text o s ≡ true → o ≡ some s
  is_text-some none s h = absurd (cc h)
  is_text-some (some t) s h = ground (arith, eq_iff t s, h)

  may_reach-MayReach :
      (o : Option String)
      → may_reach out session o ≡ true
      → (mg : String) × (o ≡ some mg) × MayReach out session mg
  may_reach-MayReach none h = absurd (cc h)
  may_reach-MayReach (some mg) h = (
    mg,
    refl,
    elim (Bool-cases (is_text session.messaging_group_id mg)) [
      | inl own ↦ inl (is_text-some session.messaging_group_id mg own)
      | inr other ↦ inr (elim (Bool-cases out.has_agent_destinations) [
        | inl table ↦ inr (ground (arith, h, other, table))
        | inr no_table ↦ inl no_table
      ])
    ],
  )

  abbrev M : Option Content → Delivery → Outcome × Delivery → Type 0
  M content d r = MindsOf out msg session content d r.1

  finish_delivery-Minds :
      Permitted out msg session
      → (sent : Option Content) (o : Outcome) (q : Table String) (d : Delivery)
      → M sent d (finish_delivery msg session o (record d { pending_questions = q }))
  unfolding record_call
  finish_delivery-Minds p sent threw q d = inr (inr (refl, p))
  finish_delivery-Minds p sent (returned _) q d = inr (inr (refl, p))

  deliver_to_channel-Minds :
      (has_address msg ≡ true → Permitted out msg session)
      → (sent : Option Content) (q : Table String) (d : Delivery)
      → M sent d (deliver_to_channel out msg session (record d { pending_questions = q }))
  unfolding deliver_to_channel
  deliver_to_channel-Minds p sent q d =
      if_elim (M sent d) (not (has_address msg)) (λ _. inl refl)
        (λ h. finish_delivery-Minds (p (ground (arith, h))) sent (out.deliver d.clock msg) q d)

  track_question-Minds :
      (has_address msg ≡ true → Permitted out msg session)
      → (content : Content) (d : Delivery)
      → M (some content) d (deliver_to_channel out msg session (track_question out content msg d))
  unfolding track_question
  track_question-Minds p content d =
      if_elim P (content.is_question && truthy content.question_id && out.has_pending_questions)
        (λ _.
          if_elim P (not (truthy content.title && content.has_options)) (λ _. plain)
            (λ _.
              deliver_to_channel-Minds p (some content)
                (insert_or_ignore (or_empty content.question_id) msg.id d.pending_questions) d))
        (λ _. plain)
    where
      P : Delivery → Type 0
      P e = M (some content) d (deliver_to_channel out msg session e)

      plain : P d
      plain = deliver_to_channel-Minds p (some content) d.pending_questions d

  handle_system_action-Minds :
      (content : Content) (d : Delivery)
      → str_eq msg.kind "system" ≡ true
      → M (some content) d (handle_system_action out content session d)
  unfolding handle_system_action record_call
  handle_system_action-Minds content d k = ran (out.action_handler content.action) refl
    where
      ran :
          (h : Option (ℕ → ActionRun))
          → out.action_handler content.action ≡ h
          → M (some content) d (run_handler session content.action h d)
      ran none e = inl refl
      ran (some h) e =
          inr (
            inl (k, ap (λ (n : ℕ). n + hand_count d.calls) (ap (λ o. run_sends o d.clock) (sym e))))

  deliver_content-Minds :
      (content : Option Content) (d : Delivery)
      → M content d (deliver_content out msg session content d)
  unfolding deliver_content is_authorized deliver_to_agent record_call
  deliver_content-Minds none d = inl refl
  deliver_content-Minds (some content) d =
      if_elim (M (some content) d) (str_eq msg.kind "system") (handle_system_action-Minds content d)
        (λ k.
          if_elim (M (some content) d) (is_text msg.channel_type "agent")
            (λ _.
              if_elim (M (some content) d) (not out.has_agent_destinations) (λ _. inl refl)
                (λ _. inl refl))
            (λ a.
              if_elim (M (some content) d) (not (is_authorized out msg session)) (λ _. inl refl)
                (λ ok.
                  track_question-Minds
                    (λ addressed. record {
                      no_action = k;
                      no_agent = a;
                      addressed = addressed;
                      known =
                          may_reach-MayReach
                            (out.messaging_group_id (or_empty msg.channel_type)
                              (or_empty msg.platform_id))
                            (ground (arith, ok, addressed));
                    })
                    content d)))

  -- `deliverMessage` calls the adapter at most once, apart from what the handler of a system action sends
  -- itself, and only for a message that is no system action and not for an agent, that names a known chat, and where the chat is the session's own, the agent
  -- group has a destination row for it, or the table of destinations does not exist.
  pub deliver_message-Permitted :
      (d : Delivery) → Minds out msg session d (deliver_message out msg session d).1
  unfolding deliver_message
  deliver_message-Permitted d =
      if_elim (M msg.content d) (not out.has_adapter) (λ _. inl refl)
        (λ _. deliver_content-Minds msg.content d)
