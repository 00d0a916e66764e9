-- ===== src/Coalescer/Single.antt =====
-- src/flash-edit-coalescer.ts: the edits of one message that are in flight at a time.
use nanoclaw_github_copilot.Base.{
  ℕ, suc, ◌+◌, ◌<◌, ◌≡◌, refl, String, Option, none, some, List, [], ◌∷◌, arith, ◌==◌, if_elim,
  str_eq, eq_iff, eq_refl, lookup, insert, lookup-insert, discard, lookup-discard, inl, inr,
  Bool-cases,
}
use nanoclaw_github_copilot.Coalescer.{
  Slot, edit_message, delete_message, on_orphan, edit_ended, Coalescer, Outcome, edited, fell_back,
  failed, set_slot, send_edit, kick_off, overwrite, open_slot, enqueue_at, enqueue, idle,
  next_round, settle_edit, settle_at, settle, drop_slot, clear, Event, enqueues, settles, drains,
  clears, step, run, init,
}
use nanoclaw_github_copilot.Coalescer.Balance.{sent, ended, flying, run-Balanced, init-Balanced}
use nanoclaw_github_copilot.Coalescer.Latest.{UpToDate, step-UpToDate, init-UpToDate}

-- The map holds every slot that has an edit in flight.
abbrev pub Held : Coalescer → Type 0
Held c =
    (n : ℕ) (snapshot : String)
    → (c.slots n).in_flight ≡ some snapshot
    → lookup (c.slots n).msg_id c.queue ≡ some n

-- `drain` and `clear` drop no slot with an edit in flight.
abbrev pub Patient : Event → Coalescer → Type 0
Patient (enqueues _ _ _) c = Unit {0}
Patient (settles _ _) c = Unit {0}
Patient (drains id) c = (n : ℕ) → lookup id c.queue ≡ some n → (c.slots n).in_flight ≡ none
Patient clears c = (n : ℕ) → (c.slots n).in_flight ≡ none

set_slot-Held :
    (n : ℕ) (s : Slot) (c : Coalescer)
    → Held c
    → ((snapshot : String) → s.in_flight ≡ some snapshot → lookup s.msg_id c.queue ≡ some n)
    → Held (set_slot n s c)
set_slot-Held n s c v mine m snapshot h = elim (Bool-cases (n == m)) [
  | inl e ↦ ground (arith, e, mine snapshot (ground (arith, e, h)))
  | inr e ↦ ground (arith, e, v m snapshot (ground (arith, e, h)))
]

send_edit-Held :
    (n : ℕ) (s : Slot) (c : Coalescer)
    → Held c
    → lookup s.msg_id c.queue ≡ some n
    → Held (send_edit n s c)
unfolding send_edit
send_edit-Held n s c v h =
    set_slot-Held n (record s { in_flight = some s.latest })
      (record c { calls = edit_message n s.msg_id s.latest s.opts ∷ c.calls }) v (λ _ _. h)

overwrite-Held :
    (id text : String) (opts : Option String) (n : ℕ) (c : Coalescer)
    → UpToDate c
    → Held c
    → lookup id c.queue ≡ some n
    → Held (overwrite text opts n c)
unfolding overwrite
overwrite-Held id text opts n c u v found = kicked (c.slots n).in_flight refl
  where
    s : Slot
    s = record (c.slots n) { latest = text; opts = opts }

    kicked : (o : Option String) → (c.slots n).in_flight ≡ o → Held (kick_off n s o c)
    kicked none e = send_edit-Held n s c v (ground (arith, (u id n found).1, found))
    kicked (some _) e = set_slot-Held n s c v (v n)

open_slot-Held :
    (id text : String) (opts : Option String) (c : Coalescer)
    → lookup id c.queue ≡ none
    → Held c
    → Held (open_slot id text opts c)
unfolding open_slot
open_slot-Held id text opts c new v =
    send_edit-Held c.next fresh grown
      (λ m snapshot h. ground (
        arith,
        v m snapshot h,
        new,
        lookup-insert id (c.slots m).msg_id c.next c.queue,
        eq_iff id (c.slots m).msg_id,
      ))
      (ground (arith, lookup-insert id id c.next c.queue, eq_refl id))
  where
    fresh : Slot
    fresh = record { msg_id = id; latest = text; opts = opts; in_flight = none }

    grown : Coalescer
    grown = record c { queue = insert id c.next c.queue; next = suc c.next }

enqueue-Held :
    (id text : String) (opts : Option String) (c : Coalescer)
    → UpToDate c
    → Held c
    → Held (enqueue id text opts c)
unfolding enqueue
enqueue-Held id text opts c u v = at (lookup id c.queue) refl
  where
    at : (o : Option ℕ) → lookup id c.queue ≡ o → Held (enqueue_at id text opts o c)
    at none e = open_slot-Held id text opts c e v
    at (some n) e = overwrite-Held id text opts n c u v e

next_round-Held :
    (n : ℕ) (snapshot : String) (c : Coalescer)
    → (c.slots n).in_flight ≡ some snapshot
    → Held c
    → Held (next_round n (c.slots n) snapshot c)
unfolding next_round
next_round-Held n snapshot c e v =
    if_elim Held (str_eq (c.slots n).latest snapshot)
      (λ _. set_slot-Held n (idle (c.slots n)) c v (λ _ h. absurd (cc h)))
      (λ _. send_edit-Held n (c.slots n) c v (v n snapshot e))

settle_edit-Held :
    (n : ℕ) (snapshot : String) (outcome : Outcome) (c : Coalescer)
    → (c.slots n).in_flight ≡ some snapshot
    → Held c
    → Held (settle_edit n (c.slots n) snapshot outcome c)
unfolding settle_edit
settle_edit-Held n snapshot edited c e v = next_round-Held n snapshot c e v
settle_edit-Held n snapshot failed c e v = next_round-Held n snapshot c e v
settle_edit-Held n snapshot (fell_back new_id) c e v =
    if_elim Held (str_eq new_id (c.slots n).msg_id) (λ _. next_round-Held n snapshot c e v)
      (λ _. dropped)
  where
    own : String
    own = (c.slots n).msg_id

    dropped : Held (
        set_slot n (idle (c.slots n)) (record c {
          queue = discard own c.queue;
          calls = on_orphan ∷ delete_message new_id ∷ c.calls;
        }))
    dropped m snap h = elim (Bool-cases (n == m)) [
      | inl k ↦ absurd (ground (arith, k, h))
      | inr k ↦
          let held = v m snap (ground (arith, k, h)) in
          ground (
            arith,
            k,
            held,
            v n snapshot e,
            lookup-discard own (c.slots m).msg_id c.queue,
            eq_iff own (c.slots m).msg_id,
          )
    ]

drop_slot-Held :
    (id : String) (c : Coalescer) → Patient (drains id) c → Held c → Held (drop_slot id c)
unfolding drop_slot
drop_slot-Held id c p v m snapshot h = ground (
  arith,
  h,
  v m snapshot h,
  p m,
  lookup-discard id (c.slots m).msg_id c.queue,
  eq_iff id (c.slots m).msg_id,
)

step-Held : (e : Event) (c : Coalescer) → Patient e c → UpToDate c → Held c → Held (step e c)
unfolding step settle clear
step-Held (enqueues id text opts) c p u v = enqueue-Held id text opts c u v
step-Held (settles n outcome) c p u v = at (c.slots n).in_flight refl
  where
    at :
        (o : Option String) → (c.slots n).in_flight ≡ o → Held (settle_at n (c.slots n) o outcome c)
    at none e = v
    at (some snapshot) e =
        settle_edit-Held n snapshot outcome (record c { calls = edit_ended n ∷ c.calls }) e v
step-Held (drains id) c p u v = drop_slot-Held id c p v
step-Held clears c p u v = λ n snapshot h. absurd (ground (arith, h, p n))

-- Every drain and clear of the history is patient.
abbrev pub PatientRun : List Event → Coalescer → Type 0
PatientRun [] c = Unit {0}
PatientRun (e ∷ es) c = Patient e c × PatientRun es (step e c)

run-Held :
    (es : List Event) (c : Coalescer) → PatientRun es c → UpToDate c → Held c → Held (run es c)
unfolding run
run-Held [] c p u v = v
run-Held (e ∷ es) c p u v = run-Held es (step e c) p.1 (step-UpToDate e c u) (step-Held e c p.0 u v)

init-Held : Held init
unfolding init
init-Held n snapshot h = absurd (cc h)

flying-in_flight :
    (s : Slot) (sent_edits ended_edits : ℕ)
    → sent_edits ≡ ended_edits + flying s
    → ended_edits < sent_edits
    → (snapshot : String) × (s.in_flight ≡ some snapshot) × (sent_edits ≡ suc ended_edits)
flying-in_flight s sent_edits ended_edits b l = at s.in_flight refl
  where
    at :
        (o : Option String)
        → s.in_flight ≡ o
        → (snapshot : String) × (s.in_flight ≡ some snapshot) × (sent_edits ≡ suc ended_edits)
    at none e = absurd (ground (arith, b, l, e))
    at (some snapshot) e = (snapshot, e, ground (arith, b, e))

-- If no drain or clear drops a slot while its edit is in flight, at most one editMessage of a message is under way
-- at any time: two slots of one message that each have sent more edits than have ended are the same slot, and it
-- has sent one more than have ended.
pub run-single :
    (es : List Event) (n m : ℕ)
    → PatientRun es init
    → ended n (run es init).calls < sent n (run es init).calls
    → ended m (run es init).calls < sent m (run es init).calls
    → ((run es init).slots n).msg_id ≡ ((run es init).slots m).msg_id
    → (n ≡ m) × (sent n (run es init).calls ≡ suc (ended n (run es init).calls))
run-single es n m p x y same =
    let held = run-Held es init p init-UpToDate init-Held in
    let b = run-Balanced es init init-UpToDate init-Balanced in
    let f = flying-in_flight ((run es init).slots n) _ _ (b.matched n) x in
    let g = flying-in_flight ((run es init).slots m) _ _ (b.matched m) y in
    (ground (arith, held n f.0 f.1, held m g.0 g.1, same), f.2)
