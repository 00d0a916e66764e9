-- ===== src/Coalescer/Latest.antt =====
-- src/flash-edit-coalescer.ts: the text that an idle slot shows.
use nanoclaw_github_copilot.Base.{
  ℕ, suc, ◌<◌, ◌≡◌, ◌≢◌, refl, String, Option, none, some, List, [], ◌∷◌, arith, ◌==◌,
  if◌then◌else◌, if_elim, str_eq, eq_iff, eq_refl, lookup, insert, lookup-insert, discard,
  lookup-discard, inl, inr, Bool-cases,
}
use nanoclaw_github_copilot.Coalescer.{
  Slot, Call, edit_message, delete_message, on_orphan, edit_ended, Coalescer, Outcome, edited,
  fell_back, failed, set_slot, send_edit, kick_off, overwrite, open_slot, enqueue_at, enqueue, idle,
  next_round, settle_edit, settle_at, settle, drop_slot, clear, Event, enqueues, settles, drains,
  clears, step, run, init,
}

-- The text of the last edit that the worker of this slot sent.
unfoldable pub last_edit : ℕ → List Call → Option String
last_edit n [] = none
last_edit n (edit_message m _ text _ ∷ calls) = if m == n then some text else last_edit n calls
last_edit n (delete_message _ ∷ calls) = last_edit n calls
last_edit n (on_orphan ∷ calls) = last_edit n calls
last_edit n (edit_ended _ ∷ calls) = last_edit n calls

abbrev text_or : String → Option String → String
text_or latest none = latest
text_or latest (some snapshot) = snapshot

-- What the last edit of the slot shows: the snapshot in flight, else the latest text.
abbrev pub shown : Slot → String
shown s = text_or s.latest s.in_flight

-- What is known of the slot that the map holds for a message.
abbrev pub Shows : Coalescer → String → ℕ → Type 0
Shows c id n =
    (n < c.next) × ((c.slots n).msg_id ≡ id) × (last_edit n c.calls ≡ some (shown (c.slots n)))

-- Every slot in the map shows its latest text, or is about to.
abbrev pub UpToDate : Coalescer → Type 0
UpToDate c = (id : String) (n : ℕ) → lookup id c.queue ≡ some n → Shows c id n

send_edit-UpToDate :
    (n : ℕ) (s : Slot) (c : Coalescer)
    → ((id : String) (m : ℕ) → lookup id c.queue ≡ some m → m ≢ n → Shows c id m)
    → ((id : String) → lookup id c.queue ≡ some n → (n < c.next) × (s.msg_id ≡ id))
    → UpToDate (send_edit n s c)
unfolding send_edit last_edit
send_edit-UpToDate n s c others mine id m h = elim (Bool-cases (n == m)) [
  | inl e ↦
      let p = mine id (ground (arith, e, h)) in
      (ground (arith, e, p.0), ground (arith, e, p.1), ground (arith, e))
  | inr e ↦
      let p = others id m h (λ k. absurd (ground (arith, e, k))) in
      (p.0, ground (arith, e, p.1), ground (arith, e, p.2))
]

-- A slot whose calls stay shows the same after a change that keeps what it shows.
set_slot-UpToDate :
    (n : ℕ) (s : Slot) (c : Coalescer)
    → UpToDate c
    → s.msg_id ≡ (c.slots n).msg_id
    → (last_edit n c.calls ≡ some (shown (c.slots n)) → last_edit n c.calls ≡ some (shown s))
    → UpToDate (set_slot n s c)
set_slot-UpToDate n s c v own keeps id m h = elim (Bool-cases (n == m)) [
  | inl e ↦
      let p = v id n (ground (arith, e, h)) in
      let q = keeps p.2 in
      (ground (arith, e, p.0), ground (arith, e, own, p.1), ground (arith, e, q))
  | inr e ↦ let p = v id m h in (p.0, ground (arith, e, p.1), ground (arith, e, p.2))
]

overwrite-UpToDate :
    (text : String) (opts : Option String) (n : ℕ) (c : Coalescer)
    → UpToDate c
    → UpToDate (overwrite text opts n c)
unfolding overwrite
overwrite-UpToDate text opts n c v = kicked (c.slots n).in_flight refl
  where
    s : Slot
    s = record (c.slots n) { latest = text; opts = opts }

    kicked : (o : Option String) → (c.slots n).in_flight ≡ o → UpToDate (kick_off n s o c)
    kicked none e =
        send_edit-UpToDate n s c (λ id m h _. v id m h) (λ id h. ((v id n h).0, (v id n h).1))
    kicked (some snapshot) e = set_slot-UpToDate n s c v refl (λ h. ground (arith, e, h))

open_slot-UpToDate :
    (id text : String) (opts : Option String) (c : Coalescer)
    → lookup id c.queue ≡ none
    → UpToDate c
    → UpToDate (open_slot id text opts c)
unfolding open_slot
open_slot-UpToDate id text opts c new v =
    send_edit-UpToDate c.next fresh grown
      (λ j m h ne. later j m (v j m (ground (arith, h, ne, lookup-insert id j c.next c.queue))))
      (λ j h. (omega arith, own j h))
  where
    fresh : Slot
    fresh = record { msg_id = id; latest = text; opts = opts; in_flight = none }

    grown : Coalescer
    grown = record c { queue = insert id c.next c.queue; next = suc c.next }

    own : (j : String) → lookup j grown.queue ≡ some c.next → id ≡ j
    own j h = elim (Bool-cases (str_eq id j)) [
      | inl e ↦ (eq_iff id j).0 e
      | inr e ↦
          absurd (
            omega (arith, (v j c.next (ground (arith, e, h, lookup-insert id j c.next c.queue))).0))
    ]

    later : (j : String) (m : ℕ) → Shows c j m → Shows grown j m
    later j m p = (omega (arith, p.0), p.1, p.2)

enqueue-UpToDate :
    (id text : String) (opts : Option String) (c : Coalescer)
    → UpToDate c
    → UpToDate (enqueue id text opts c)
unfolding enqueue
enqueue-UpToDate id text opts c v = at (lookup id c.queue) refl
  where
    at : (o : Option ℕ) → lookup id c.queue ≡ o → UpToDate (enqueue_at id text opts o c)
    at none e = open_slot-UpToDate id text opts c e v
    at (some n) e = overwrite-UpToDate text opts n c v

discard-UpToDate :
    (id : String) (c : Coalescer) → UpToDate c → UpToDate (record c { queue = discard id c.queue })
discard-UpToDate id c v j m h = v j m (ground (arith, h, lookup-discard id j c.queue))

next_round-UpToDate :
    (n : ℕ) (snapshot : String) (c : Coalescer)
    → (c.slots n).in_flight ≡ some snapshot
    → UpToDate c
    → UpToDate (next_round n (c.slots n) snapshot c)
unfolding next_round
next_round-UpToDate n snapshot c e v =
    if_elim UpToDate (str_eq (c.slots n).latest snapshot)
      (λ k.
        set_slot-UpToDate n (idle (c.slots n)) c v refl
          (λ h. ground (arith, e, h, k, eq_iff (c.slots n).latest snapshot)))
      (λ _.
        send_edit-UpToDate n (c.slots n) c (λ id m h _. v id m h)
          (λ id h. ((v id n h).0, (v id n h).1)))

settle_edit-UpToDate :
    (n : ℕ) (snapshot : String) (outcome : Outcome) (c : Coalescer)
    → (c.slots n).in_flight ≡ some snapshot
    → UpToDate c
    → UpToDate (settle_edit n (c.slots n) snapshot outcome c)
unfolding settle_edit last_edit
settle_edit-UpToDate n snapshot edited c e v = next_round-UpToDate n snapshot c e v
settle_edit-UpToDate n snapshot failed c e v = next_round-UpToDate n snapshot c e v
settle_edit-UpToDate n snapshot (fell_back new_id) c e v =
    if_elim UpToDate (str_eq new_id (c.slots n).msg_id) (λ _. next_round-UpToDate n snapshot c e v)
      (λ _. dropped)
  where
    dropped : UpToDate (
        set_slot n (idle (c.slots n)) (record c {
          queue = discard (c.slots n).msg_id c.queue;
          calls = on_orphan ∷ delete_message new_id ∷ c.calls;
        }))
    dropped id m h = elim (Bool-cases (n == m)) [
      | inl k ↦
          absurd
            (ground (arith, k, h, p.1, lookup-discard (c.slots n).msg_id id c.queue, eq_refl id))
      | inr k ↦ (p.0, ground (arith, k, p.1), ground (arith, k, p.2))
    ]
      where
        p : Shows c id m
        p = v id m (ground (arith, h, lookup-discard (c.slots n).msg_id id c.queue))

-- Every event keeps: the slot that the map holds for a message has sent the latest text of the message
-- as its last edit, or an earlier text that is still in flight.
pub step-UpToDate : (e : Event) (c : Coalescer) → UpToDate c → UpToDate (step e c)
unfolding step settle drop_slot clear lookup last_edit
step-UpToDate (enqueues id text opts) c v = enqueue-UpToDate id text opts c v
step-UpToDate (settles n outcome) c v = at (c.slots n).in_flight refl
  where
    at :
        (o : Option String)
        → (c.slots n).in_flight ≡ o
        → UpToDate (settle_at n (c.slots n) o outcome c)
    at none e = v
    at (some snapshot) e =
        settle_edit-UpToDate n snapshot outcome (record c { calls = edit_ended n ∷ c.calls }) e v
step-UpToDate (drains id) c v = discard-UpToDate id c v
step-UpToDate clears c v = λ id n h. absurd (cc h)

pub run-UpToDate : (es : List Event) (c : Coalescer) → UpToDate c → UpToDate (run es c)
unfolding run
run-UpToDate [] c v = v
run-UpToDate (e ∷ es) c v = run-UpToDate es (step e c) (step-UpToDate e c v)

pub init-UpToDate : UpToDate init
unfolding init lookup
init-UpToDate id n h = absurd (cc h)

-- After any sequence of enqueues, ends of edits, drains and clears, the slot that the map holds for a
-- message, if it has no edit in flight, has sent its latest text as its last edit: coalescing skips
-- texts in between and never the last.
pub run-latest :
    (es : List Event) (id : String) (n : ℕ)
    → lookup id (run es init).queue ≡ some n
    → ((run es init).slots n).in_flight ≡ none
    → last_edit n (run es init).calls ≡ some ((run es init).slots n).latest
run-latest es id n h quiet =
    let p = run-UpToDate es init init-UpToDate id n h in ground (arith, p.2, quiet)
