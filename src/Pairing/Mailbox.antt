-- ===== src/Pairing/Mailbox.antt =====
-- src/v2-access.ts: the pairing flow as its users see it: every peer has a box of messages. A specification that knows
-- no tables and no codes; `taken` tells which box a call has emptied, if any.
use nanoclaw_github_copilot.Base.{
  ℕ, suc, ◌≡◌, refl, sym, ap, ◌∙◌, ◌≤◌, ◌<◌, String, Bool, true, false, Option, none, some, List,
  [], ◌∷◌, ◌++◌, ltb, arith, if◌then◌else◌, if_elim, All, eq_iff,
}
use nanoclaw_github_copilot.Pairing.Store.{
  Peer, PendingMessage, is_peer, unexpired_messages, pending_row,
}
use nanoclaw_github_copilot.Pairing.Redeem.{
  held_for, held_by_others, insert_message, by_arrival, replays,
}
use nanoclaw_github_copilot.Pairing.Events.{
  PairEvent, hold, redeem_code, revoke_code, sweep, World, replay_ids,
}
use nanoclaw_github_copilot.Pairing.OneLive.{same_peer}

abbrev pub Boxes : Type 0
Boxes = Peer → List PendingMessage

abbrev pub message_ids : List PendingMessage → List String
message_ids [] = []
message_ids (m ∷ ms) = m.id ∷ message_ids ms

abbrev pub emptied : Option Peer → Boxes → Boxes
emptied none boxes = boxes
emptied (some p) boxes = λ q. if is_peer p q then [] else boxes q

abbrev pub expire : ℕ → Boxes → Boxes
expire now boxes = λ q. unexpired_messages now (boxes q)

abbrev pub put : PendingMessage → Boxes → Boxes
put m boxes = λ q. boxes q ++ (if is_peer m.peer q then m ∷ [] else [])

-- What a redemption hands over: the whole box, in its order.
abbrev pub handed : Option Peer → Boxes → List String
handed none boxes = []
handed (some p) boxes = message_ids (boxes p)

-- A redemption that fails does not sweep a second time.
abbrev pub expire_after : ℕ → Option Peer → Boxes → Boxes
expire_after now none boxes = boxes
expire_after now (some p) boxes = expire now boxes

abbrev pub spec_step : PairEvent → Option Peer → Boxes × List String → Boxes × List String
spec_step (hold now id peer payload candidate) taken b =
    (put (pending_row now id peer payload) (expire now b.0), b.1)
spec_step (redeem_code at_sweep now raw owner target) taken b = (
  expire_after now taken (emptied taken (expire at_sweep b.0)),
  b.1 ++ handed taken (expire at_sweep b.0),
)
spec_step (revoke_code raw) taken b = (emptied taken b.0, b.1)
spec_step (sweep now) taken b = (expire now b.0, b.1)

abbrev pub spec_run :
    List PairEvent → List (Option Peer) → Boxes × List String → Boxes × List String
spec_run [] taken b = b
spec_run (e ∷ es) [] b = spec_run es [] (spec_step e none b)
spec_run (e ∷ es) (t ∷ taken) b = spec_run es taken (spec_step e t b)

-- What the tables say of the boxes.
abbrev pub boxes_of : World → Boxes × List String
boxes_of w = ((λ q. held_for q w.db.pending_messages), w.replayed)

pub held_for-unexpired :
    (q : Peer) (now : ℕ) (ms : List PendingMessage)
    → held_for q (unexpired_messages now ms) ≡ unexpired_messages now (held_for q ms)
unfolding held_for unexpired_messages
held_for-unexpired q now [] = refl
held_for-unexpired q now (m ∷ ms) = ground (arith, held_for-unexpired q now ms)

pub held_for-snoc :
    (q : Peer) (ms : List PendingMessage) (m : PendingMessage)
    → held_for q (ms ++ m ∷ []) ≡ held_for q ms ++ (if is_peer m.peer q then m ∷ [] else [])
unfolding held_for
held_for-snoc q [] m = ground arith
held_for-snoc q (n ∷ ms) m = ground (arith, held_for-snoc q ms m)

own_gone :
    (b c : Bool) (x y : List PendingMessage) (m : PendingMessage)
    → b ≡ c
    → x ≡ (if c then [] else y)
    → x ≡ (if c then [] else if b then m ∷ y else y)
own_gone b true x y m e h = h
own_gone b false x y m e h = ground (arith, e, h)

other_kept :
    (b c : Bool) (x y : List PendingMessage) (m : PendingMessage)
    → (c ≡ true → b ≡ false)
    → x ≡ (if c then [] else y)
    → (if b then m ∷ x else x) ≡ (if c then [] else if b then m ∷ y else y)
other_kept b true x y m e h = ground (arith, e refl, h)
other_kept b false x y m e h = ap (λ (z : List PendingMessage). if b then m ∷ z else z) h

peer_cong : (m p q : Peer) → is_peer m p ≡ true → is_peer m q ≡ is_peer p q
peer_cong m p q h = ground (
  arith,
  h,
  eq_iff m.channel_type p.channel_type,
  eq_iff m.account_key p.account_key,
  eq_iff m.peer_id p.peer_id,
)

pub held_for-others :
    (p q : Peer) (ms : List PendingMessage)
    → held_for q (held_by_others p ms) ≡ (if is_peer p q then [] else held_for q ms)
unfolding held_for held_by_others
held_for-others p q [] = ground arith
held_for-others p q (m ∷ ms) =
    let kept = held_for-others p q ms in
    if_elim
      (λ (r : List PendingMessage). held_for q r ≡ (
        if is_peer p q then [] else if is_peer m.peer q then m ∷ held_for q ms else held_for q ms))
      (is_peer m.peer p)
      (λ own.
        own_gone (is_peer m.peer q) (is_peer p q) (held_for q (held_by_others p ms)) (held_for q ms)
          m (peer_cong m.peer p q own) kept)
      (λ other.
        other_kept (is_peer m.peer q) (is_peer p q) (held_for q (held_by_others p ms))
          (held_for q ms) m (λ e. sym (same_peer p q m.peer e) ∙ other) kept)

-- The messages stand in the order of their arrival, each later than the one before.
abbrev pub Ordered : ℕ → List PendingMessage → Type 0
Ordered from [] = Unit
Ordered from (m ∷ ms) = (from ≤ m.received_at) × Ordered (suc m.received_at) ms

pub Ordered-weaken : (a b : ℕ) (ms : List PendingMessage) → a ≤ b → Ordered b ms → Ordered a ms
Ordered-weaken a b [] l o = tt
Ordered-weaken a b (m ∷ ms) l o = (omega (arith, l, o.0), o.1)

pub Ordered-snoc :
    (from : ℕ) (ms : List PendingMessage) (m : PendingMessage)
    → Ordered from ms
    → All (λ (n : PendingMessage). n.received_at < m.received_at) ms
    → from ≤ m.received_at
    → Ordered from (ms ++ m ∷ [])
Ordered-snoc from [] m o b l = (l, tt)
Ordered-snoc from (n ∷ ms) m o b l =
    (o.0, Ordered-snoc (suc n.received_at) ms m o.1 b.1 (omega (arith, b.0)))

pub Ordered-held_for :
    (q : Peer) (from : ℕ) (ms : List PendingMessage)
    → Ordered from ms
    → Ordered from (held_for q ms)
unfolding held_for
Ordered-held_for q from [] o = tt
Ordered-held_for q from (m ∷ ms) o =
    let rest = Ordered-held_for q (suc m.received_at) ms o.1 in
    if_elim (Ordered from) (is_peer m.peer q) {x = m ∷ held_for q ms} (λ _. (o.0, rest))
      (λ _. Ordered-weaken from (suc m.received_at) (held_for q ms) (omega (arith, o.0)) rest)

pub Ordered-others :
    (q : Peer) (from : ℕ) (ms : List PendingMessage)
    → Ordered from ms
    → Ordered from (held_by_others q ms)
unfolding held_by_others
Ordered-others q from [] o = tt
Ordered-others q from (m ∷ ms) o =
    let rest = Ordered-others q (suc m.received_at) ms o.1 in
    if_elim (Ordered from) (is_peer m.peer q) {y = m ∷ held_by_others q ms}
      (λ _. Ordered-weaken from (suc m.received_at) (held_by_others q ms) (omega (arith, o.0)) rest)
      (λ _. (o.0, rest))

pub Ordered-unexpired :
    (now from : ℕ) (ms : List PendingMessage)
    → Ordered from ms
    → Ordered from (unexpired_messages now ms)
unfolding unexpired_messages
Ordered-unexpired now from [] o = tt
Ordered-unexpired now from (m ∷ ms) o =
    let rest = Ordered-unexpired now (suc m.received_at) ms o.1 in
    if_elim (Ordered from) (ltb m.expires_at now) {y = m ∷ unexpired_messages now ms}
      (λ _.
        Ordered-weaken from (suc m.received_at) (unexpired_messages now ms) (omega (arith, o.0))
          rest)
      (λ _. (o.0, rest))

insert-first :
    (id_before : String → String → Bool) (m : PendingMessage) (ms : List PendingMessage)
    → Ordered (suc m.received_at) ms
    → insert_message id_before m ms ≡ m ∷ ms
unfolding insert_message
insert-first id_before m [] o = refl
insert-first id_before m (n ∷ ms) o = ground (arith, o.0)

pub by_arrival-Ordered :
    (id_before : String → String → Bool) (from : ℕ) (ms : List PendingMessage)
    → Ordered from ms
    → by_arrival id_before ms ≡ ms
unfolding by_arrival
by_arrival-Ordered id_before from [] o = refl
by_arrival-Ordered id_before from (m ∷ ms) o =
    ap (insert_message id_before m) (by_arrival-Ordered id_before (suc m.received_at) ms o.1)
    ∙ insert-first id_before m ms o.1

pub replays-ids {ℓ} :
    {P : Type ℓ} (parse : String → Option P) (empty : P) (id_before : String → String → Bool)
    (ms : List PendingMessage)
    → replay_ids (replays parse empty id_before ms) ≡ message_ids ms
unfolding replays replay_ids
replays-ids parse empty id_before [] = refl
replays-ids parse empty id_before (m ∷ ms) =
    ap (λ (ids : List String). m.id ∷ ids) (replays-ids parse empty id_before ms)
