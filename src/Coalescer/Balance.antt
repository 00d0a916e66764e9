-- ===== src/Coalescer/Balance.antt =====
-- src/flash-edit-coalescer.ts: the edits that a slot has sent, against those that came to their end.
use nanoclaw_github_copilot.Base.{
  ℕ, suc, ◌+◌, ◌<◌, ◌≤◌, ◌≡◌, refl, String, Option, none, some, List, [], ◌∷◌, arith, ◌==◌,
  if◌then◌else◌, if_elim, str_eq, lookup, insert, discard, inl, inr, Bool-cases, is_some, leb,
  false,
}
use nanoclaw_github_copilot.Coalescer.{
  Slot, Call, edit_message, delete_message, on_orphan, edit_ended, Coalescer, Outcome, edited,
  fell_back, failed, set_slot, send_edit, kick_off, overwrite, open_slot, enqueue_at, enqueue, idle,
  next_round, settle_edit, settle_at, settle, drop_slot, clear, Event, enqueues, settles, drains,
  clears, step, run, init,
}
use nanoclaw_github_copilot.Coalescer.Latest.{UpToDate, step-UpToDate}

-- How many edits of the slot were sent, and how many came to their end.
unfoldable pub sent : ℕ → List Call → ℕ
sent n [] = 0
sent n (edit_message m _ _ _ ∷ calls) = let rest = sent n calls in if m == n then suc rest else rest
sent n (delete_message _ ∷ calls) = sent n calls
sent n (on_orphan ∷ calls) = sent n calls
sent n (edit_ended _ ∷ calls) = sent n calls

unfoldable pub ended : ℕ → List Call → ℕ
ended n [] = 0
ended n (edit_message _ _ _ _ ∷ calls) = ended n calls
ended n (delete_message _ ∷ calls) = ended n calls
ended n (on_orphan ∷ calls) = ended n calls
ended n (edit_ended m ∷ calls) = let rest = ended n calls in if m == n then suc rest else rest

abbrev pub flying : Slot → ℕ
flying s = if is_some s.in_flight then 1 else 0

-- Of each slot, the edit in flight is the one that has not ended; a slot that is not made yet is idle.
pub record Balanced (c : Coalescer) : Type 0 where
  pub matched : (n : ℕ) → sent n c.calls ≡ ended n c.calls + flying (c.slots n)
  pub unused : (n : ℕ) → c.next ≤ n → (c.slots n).in_flight ≡ none

-- The same of the other slots, while every edit of this one has ended.
record Between (n : ℕ) (c : Coalescer) : Type 0 where
  others : (m : ℕ) → (n == m) ≡ false → sent m c.calls ≡ ended m c.calls + flying (c.slots m)
  own : sent n c.calls ≡ ended n c.calls
  made : n < c.next
  unused : (m : ℕ) → c.next ≤ m → (c.slots m).in_flight ≡ none

send_edit-Balanced : (n : ℕ) (s : Slot) (c : Coalescer) → Between n c → Balanced (send_edit n s c)
unfolding send_edit sent ended
send_edit-Balanced n s c b = record {
  matched = λ m. elim (Bool-cases (n == m)) [
    | inl e ↦ ground (arith, e, b.own)
    | inr e ↦ ground (arith, e, b.others m e)
  ];
  unused = λ m l. ground (arith, l, b.made, b.unused m l);
}

idle-Balanced : (n : ℕ) (s : Slot) (c : Coalescer) → Between n c → Balanced (set_slot n (idle s) c)
idle-Balanced n s c b = record {
  matched = λ m. elim (Bool-cases (n == m)) [
    | inl e ↦ ground (arith, e, b.own)
    | inr e ↦ ground (arith, e, b.others m e)
  ];
  unused = λ m l. ground (arith, l, b.unused m l);
}

overwrite-Balanced :
    (text : String) (opts : Option String) (n : ℕ) (c : Coalescer)
    → n < c.next
    → Balanced c
    → Balanced (overwrite text opts n c)
unfolding overwrite
overwrite-Balanced text opts n c made b = kicked (c.slots n).in_flight refl
  where
    s : Slot
    s = record (c.slots n) { latest = text; opts = opts }

    kicked : (o : Option String) → (c.slots n).in_flight ≡ o → Balanced (kick_off n s o c)
    kicked none e = send_edit-Balanced n s c (record {
      others = λ m _. b.matched m;
      own = ground (arith, e, b.matched n);
      made = made;
      unused = b.unused;
    })
    kicked (some _) e = record {
      matched = λ m. ground (arith, b.matched m);
      unused = λ m l. ground (arith, l, b.unused m l);
    }

open_slot-Balanced :
    (id text : String) (opts : Option String) (c : Coalescer)
    → Balanced c
    → Balanced (open_slot id text opts c)
unfolding open_slot
open_slot-Balanced id text opts c b =
    send_edit-Balanced c.next (record { msg_id = id; latest = text; opts = opts; in_flight = none })
      (record c { queue = insert id c.next c.queue; next = suc c.next })
      (record {
        others = λ m _. b.matched m;
        own = ground (arith, b.matched c.next, b.unused c.next (omega arith));
        made = omega arith;
        unused = λ m l. b.unused m (omega (arith, l));
      })

next_round-Balanced :
    (n : ℕ) (s : Slot) (snapshot : String) (c : Coalescer)
    → Between n c
    → Balanced (next_round n s snapshot c)
unfolding next_round
next_round-Balanced n s snapshot c b =
    if_elim Balanced (str_eq s.latest snapshot) (λ _. idle-Balanced n s c b)
      (λ _. send_edit-Balanced n s c b)

settle_edit-Balanced :
    (n : ℕ) (s : Slot) (snapshot : String) (outcome : Outcome) (c : Coalescer)
    → Between n c
    → Balanced (settle_edit n s snapshot outcome c)
unfolding settle_edit sent ended
settle_edit-Balanced n s snapshot edited c b = next_round-Balanced n s snapshot c b
settle_edit-Balanced n s snapshot failed c b = next_round-Balanced n s snapshot c b
settle_edit-Balanced n s snapshot (fell_back new_id) c b =
    if_elim Balanced (str_eq new_id s.msg_id) (λ _. next_round-Balanced n s snapshot c b)
      (λ _.
        idle-Balanced n s
          (record c {
            queue = discard s.msg_id c.queue;
            calls = on_orphan ∷ delete_message new_id ∷ c.calls;
          })
          (record { others = b.others; own = b.own; made = b.made; unused = b.unused }))

-- Every event keeps the balance.
pub step-Balanced : (e : Event) (c : Coalescer) → UpToDate c → Balanced c → Balanced (step e c)
unfolding step enqueue settle drop_slot clear sent ended
step-Balanced (enqueues id text opts) c u b = at (lookup id c.queue) refl
  where
    at : (o : Option ℕ) → lookup id c.queue ≡ o → Balanced (enqueue_at id text opts o c)
    at none e = open_slot-Balanced id text opts c b
    at (some n) e = overwrite-Balanced text opts n c (u id n e).0 b
step-Balanced (settles n outcome) c u b = at (c.slots n).in_flight refl
  where
    at :
        (o : Option String)
        → (c.slots n).in_flight ≡ o
        → Balanced (settle_at n (c.slots n) o outcome c)
    at none e = b
    at (some snapshot) e =
        settle_edit-Balanced n (c.slots n) snapshot outcome
          (record c { calls = edit_ended n ∷ c.calls })
          (record {
            others = λ m k. ground (arith, k, b.matched m);
            own = ground (arith, e, b.matched n);
            made = elim (Bool-cases (leb c.next n)) [
              | inl l ↦ absurd (ground (arith, e, b.unused n (ground (arith, l))))
              | inr l ↦ ground (arith, l)
            ];
            unused = b.unused;
          })
step-Balanced (drains id) c u b = record { matched = b.matched; unused = b.unused }
step-Balanced clears c u b = record { matched = b.matched; unused = b.unused }

pub run-Balanced : (es : List Event) (c : Coalescer) → UpToDate c → Balanced c → Balanced (run es c)
unfolding run
run-Balanced [] c u b = b
run-Balanced (e ∷ es) c u b =
    run-Balanced es (step e c) (step-UpToDate e c u) (step-Balanced e c u b)

pub init-Balanced : Balanced init
unfolding init sent ended
init-Balanced = record { matched = λ n. refl; unused = λ n l. refl }
