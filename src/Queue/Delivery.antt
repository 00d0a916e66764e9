-- ===== src/Queue/Delivery.antt =====
-- src/group-queue.ts: the messages piped to a live agent, the cursors that they leave, the busy
-- ack, and the retry of a turn whose delivery failed.
use nanoclaw_github_copilot.Base.{
  ℕ, ◌+◌, ◌≡◌, refl, ◌≢◌, ◌∙◌, ap, String, Bool, true, false, not, Option, none, some, List, [],
  ◌∷◌, arith, lookup-insert, eq_refl, eq_iff, if_elim, if◌then◌else◌, truthy, length, ◌==◌,
}
use nanoclaw_github_copilot.Queue.{
  GroupState, GroupQueue, IpcFile, message, get_slot, get_group, store,
}
use nanoclaw_github_copilot.Queue.Lines.{turn_text, turn_text-join}
use nanoclaw_github_copilot.Queue.Pipe.{
  write_ipc, has_exited, keep_first, piped, can_receive, send_message, reopened, restore_turn,
  retry_turn, request_delivery_retry, should_send_busy_ack,
}

get_group-store : (q : GroupQueue) (k : String) (s : GroupState) → get_group (store k s q) k ≡ s
unfolding get_group get_slot store
get_group-store q k s = ground (arith, lookup-insert k k s q.slots, eq_refl k)

-- `sendMessage` for each text in turn, with its cursor, while every write succeeds.
unfoldable pub send_all : ℕ → String → List (String × Option String) → GroupQueue → GroupQueue
unfolding send_message
send_all limit k [] q = q
send_all limit k ((text, cursor) ∷ rest) q =
    send_all limit k rest (send_message limit k text cursor true q).0

-- A live agent: `sendMessage` writes the file.
pub record IsLive (k : String) (q : GroupQueue) : Type 0 where
  pub receives : can_receive (get_group q k) ≡ true
  pub runs : has_exited q (get_group q k).process ≡ false

-- The first cursor of the messages that is set, or what there was if none is.
abbrev pub first_set : List (String × Option String) → Option String → Option String
first_set [] held = held
first_set ((_, cursor) ∷ rest) held = if truthy cursor then cursor else first_set rest held

abbrev pub first_cursor : Option String → List (String × Option String) → Option String
first_cursor held ms = if truthy held then held else first_set ms held

first_cursor-keep_first :
    (held cursor : Option String) (text : String) (rest : List (String × Option String))
    → first_cursor (keep_first held cursor) rest ≡ first_cursor held ((text, cursor) ∷ rest)
unfolding keep_first
first_cursor-keep_first held cursor text rest = ground arith

-- What a turn of messages leaves in the slot.
pub record Sent (k : String) (ms : List (String × Option String)) (s : GroupState) (r : GroupQueue)
    : Type 0 where
  pub counted : (get_group r k).piped_since_output ≡ s.piped_since_output + length ms
  pub turns : (get_group r k).user_turn_seq ≡ s.user_turn_seq + length ms
  pub rollback :
      (get_group r k).in_flight_cursor_rollback ≡ first_cursor s.in_flight_cursor_rollback ms
  pub start :
      (get_group r k).current_turn_start_cursor ≡ first_cursor s.current_turn_start_cursor ms
  pub text : (get_group r k).current_turn_text ≡ turn_text s.current_turn_text ms
  pub silent : (get_group r k).agent_has_output ≡ s.agent_has_output

send_message_live :
    (limit : ℕ) (k text : String) (cursor : Option String) (q : GroupQueue)
    → IsLive k q
    → send_message limit k text cursor true q ≡ (
      write_ipc
          (get_group q k).group_folder
          (message text)
          (store k (piped text cursor (get_group q k)) q),
      true,
    )
unfolding send_message
send_message_live limit k text cursor q l = ground (arith, l.receives, l.runs)

get_group-write_ipc :
    (o : Option String) (file : IpcFile) (q : GroupQueue) (k : String)
    → get_group (write_ipc o file q) k ≡ get_group q k
unfolding write_ipc get_group get_slot
get_group-write_ipc none file q k = refl
get_group-write_ipc (some f) file q k = refl

procs-write_ipc :
    (o : Option String) (file : IpcFile) (q : GroupQueue) → (write_ipc o file q).procs ≡ q.procs
unfolding write_ipc
procs-write_ipc none file q = refl
procs-write_ipc (some f) file q = refl

get_group-send :
    (limit : ℕ) (k text : String) (cursor : Option String) (q : GroupQueue)
    → IsLive k q
    → get_group (send_message limit k text cursor true q).0 k ≡ piped text cursor (get_group q k)
get_group-send limit k text cursor q l =
    rw (send_message_live limit k text cursor q l, get_group-write_ipc)
      (get_group-store q k (piped text cursor (get_group q k)))

has_exited-procs :
    (q r : GroupQueue) (o : Option ℕ) → r.procs ≡ q.procs → has_exited r o ≡ has_exited q o
unfolding has_exited
has_exited-procs q r none e = refl
has_exited-procs q r (some p) e = rw e

procs-send :
    (limit : ℕ) (k text : String) (cursor : Option String) (q : GroupQueue)
    → IsLive k q
    → (send_message limit k text cursor true q).0.procs ≡ q.procs
procs-send limit k text cursor q l =
    rw (send_message_live limit k text cursor q l, procs-write_ipc) (unfold store in refl)

send-IsLive :
    (limit : ℕ) (k text : String) (cursor : Option String) (q : GroupQueue)
    → IsLive k q
    → IsLive k (send_message limit k text cursor true q).0
unfolding piped can_receive
send-IsLive limit k text cursor q l = record {
  receives = rw (get_group-send limit k text cursor q l) l.receives;
  runs =
      rw
        (
          get_group-send limit k text cursor q l,
          has_exited-procs q (send_message limit k text cursor true q).0 (get_group q k).process
              (procs-send limit k text cursor q l),
        )
        l.runs;
}

send_all-Sent_from :
    (limit : ℕ) (k : String) (ms : List (String × Option String)) (q : GroupQueue) (s : GroupState)
    → IsLive k q
    → get_group q k ≡ s
    → Sent k ms s (send_all limit k ms q)
unfolding send_all piped
send_all-Sent_from limit k [] q s l e = ground (arith, e)
send_all-Sent_from limit k ((text, cursor) ∷ rest) q s l e =
    let ih =
      send_all-Sent_from limit k rest (send_message limit k text cursor true q).0
        (piped text cursor s) (send-IsLive limit k text cursor q l)
        (get_group-send limit k text cursor q l ∙ ap (piped text cursor) e) in
    record {
      counted = omega (arith, ih.counted);
      turns = omega (arith, ih.turns);
      rollback = ih.rollback ∙ first_cursor-keep_first s.in_flight_cursor_rollback cursor text rest;
      start = ih.start ∙ first_cursor-keep_first s.current_turn_start_cursor cursor text rest;
      text = ih.text ∙ turn_text-join s.current_turn_text cursor text rest;
      silent = ih.silent;
    }

-- A turn of messages piped to a live agent, every write succeeding: each counts as a piped message
-- and as a user turn, the rollback cursor and the start of the turn are the first that was set, and
-- the text of the turn is the one it held and the texts in order, a line end between each two, without
-- the empty ones at the front.
pub send_all-Sent :
    (limit : ℕ) (k : String) (ms : List (String × Option String)) (q : GroupQueue)
    → IsLive k q
    → Sent k ms (get_group q k) (send_all limit k ms q)
send_all-Sent limit k ms q l = send_all-Sent_from limit k ms q (get_group q k) l refl

-- While the agent is silent since its last output, the busy ack is due after the second piped
-- message and after no other number of them.
pub busy_ack-send_all :
    (limit : ℕ) (k : String) (ms : List (String × Option String)) (q : GroupQueue)
    → IsLive k q
    → (get_group q k).piped_since_output ≡ 0
    → (get_group q k).agent_has_output ≡ false
    → should_send_busy_ack (send_all limit k ms q) k ≡ (if length ms == 2 then some 2 else none)
unfolding should_send_busy_ack
busy_ack-send_all limit k ms q l z o =
    let r = send_all-Sent limit k ms q l in ground (arith, r.counted, r.silent)

restored :
    (limit : ℕ) (k cursor text : String) (r : GroupQueue × Bool)
    → (r.1 ≡ true
        → ((get_group r.0 k).current_turn_start_cursor ≡ some cursor)
          × ((get_group r.0 k).current_turn_text ≡ some text))
    → ((get_group (restore_turn k cursor text r) k).current_turn_start_cursor ≡ some cursor)
      × ((get_group (restore_turn k cursor text r) k).current_turn_text ≡ some text)
unfolding restore_turn
restored limit k cursor text (q, true) h = h refl
restored limit k cursor text (q, false) h = rw get_group-store (refl, refl)

sent_of_true :
    (limit : ℕ) (k text : String) (cursor : Option String) (fs_ok : Bool) (q : GroupQueue)
    → (send_message limit k text cursor fs_ok q).1 ≡ true
    → get_group (send_message limit k text cursor fs_ok q).0 k ≡ piped text cursor (get_group q k)
unfolding send_message
sent_of_true limit k text cursor fs_ok q =
    let s = get_group q k in
    let P : GroupQueue × Bool → Type 0 = λ r. r.1 ≡ true → get_group r.0 k ≡ piped text cursor s in
    if_elim P (not (can_receive s)) (λ _ e. absurd (cc e))
      λ _.
        if_elim P (has_exited q s.process) (λ _ e. absurd (cc e))
          λ _.
            if_elim P fs_ok
              (λ _ _. rw get_group-write_ipc (get_group-store q k (piped text cursor s)))
              (λ _ e. absurd (cc e))

keep_first-none : (cursor : String) → cursor ≢ "" → keep_first none (some cursor) ≡ some cursor
unfolding keep_first
keep_first-none cursor h = ground (arith, eq_iff cursor "")

-- `retry_turn` at the cursor and the text that the slot holds.
retry_turn-turn :
    (limit : ℕ) (k : String) (fs_ok : Bool) (c t : Option String) (q : GroupQueue)
    → (get_group q k).current_turn_start_cursor ≡ c
    → (get_group q k).current_turn_text ≡ t
    → c ≢ some ""
    → let r = retry_turn limit k fs_ok c t q in
      (r.1 ≡ c)
      × ((get_group r.0 k).current_turn_start_cursor ≡ c)
      × ((get_group r.0 k).current_turn_text ≡ t)
unfolding retry_turn reopened
retry_turn-turn limit k fs_ok none t q ec et h =
    (refl, rw get_group-store ec, rw get_group-store et)
retry_turn-turn limit k fs_ok (some cursor) none q ec et h =
    (refl, rw get_group-store ec, rw get_group-store et)
retry_turn-turn limit k fs_ok (some cursor) (some text) q ec et h =
    if_elim
      (λ (r : GroupQueue × Option String).
        (r.1 ≡ some cursor)
        × ((get_group r.0 k).current_turn_start_cursor ≡ some cursor)
        × ((get_group r.0 k).current_turn_text ≡ some text))
      (not (truthy (some text))) (λ _. (refl, rw get_group-store ec, rw get_group-store et))
      (λ _. let (a, b) = restored limit k cursor text sent again in (refl, a, b))
  where
    opened : GroupQueue
    opened = store k (reopened (get_group q k)) q

    sent : GroupQueue × Bool
    sent = send_message limit k text (some cursor) fs_ok opened

    again :
        sent.1 ≡ true
        → ((get_group sent.0 k).current_turn_start_cursor ≡ some cursor)
          × ((get_group sent.0 k).current_turn_text ≡ some text)
    again e =
        rw
          (
            sent_of_true limit k text (some cursor) fs_ok opened e,
            get_group-store q k (reopened (get_group q k)),
          )
          (unfold piped in (keep_first-none cursor (λ p. h (ap some p)), refl))

-- `requestDeliveryRetry` returns the start cursor of the turn, and leaves the turn's cursor and text
-- as they were, whether the text was written again, the write failed, or the agent was gone. The
-- condition is that the cursor is not the empty string.
pub request_delivery_retry-turn :
    (limit : ℕ) (k : String) (fs_ok : Bool) (q : GroupQueue)
    → (get_group q k).current_turn_start_cursor ≢ some ""
    → let r = request_delivery_retry limit k fs_ok q in
      (r.1 ≡ (get_group q k).current_turn_start_cursor)
      × ((get_group r.0 k).current_turn_start_cursor ≡ (get_group q k).current_turn_start_cursor)
      × ((get_group r.0 k).current_turn_text ≡ (get_group q k).current_turn_text)
unfolding request_delivery_retry
request_delivery_retry-turn limit k fs_ok q h =
    retry_turn-turn limit k fs_ok (get_group q k).current_turn_start_cursor
      (get_group q k).current_turn_text q refl refl h
