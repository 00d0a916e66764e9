-- ===== src/Outbound/Waiting.antt =====
-- src/delivery.ts: the calls of `deliverSessionMessages` in progress, when one starts and when one ends.
use nanoclaw_github_copilot.Base.{
  ℕ, ◌≡◌, sym, ◌≢◌, String, Bool, true, false, List, [], ◌∷◌, arith, if_elim, is_some, includes,
  eq_iff, eq_refl, All, All-map, Avoids, Distinct, lookup,
}
use nanoclaw_github_copilot.Outbound.{OutboundMessage, Session, Draining, Call, Delivery}
use nanoclaw_github_copilot.Outbound.Drain.{get_due_outbound_messages, not_delivered}
use nanoclaw_github_copilot.Outbound.Polls.{without, start_delivery}
use nanoclaw_github_copilot.Outbound.Accepted.{was_accepted, Once, Adds}
use nanoclaw_github_copilot.Outbound.Apart.{
  session_ids, message_ids, includes-without, not_delivered-Distinct, due-Distinct,
  not_delivered-fresh,
}

-- What a call in progress still has to deliver was not accepted, and is there once.
abbrev pub Fresh : List Call → Draining → Type 0
Fresh calls x =
    All (λ m. was_accepted x.session.id m.id calls ≡ false) x.undelivered
    × Distinct (message_ids x.undelivered)

-- The session of a call in progress is in `inflightDeliveries`.
abbrev pub Guarded : List String → Draining → Type 0
Guarded inflight x = includes inflight x.session.id ≡ true

-- The state in which no message was accepted twice, and none will be.
pub record DeliversOnce (d : Delivery) : Type 0 where
  pub once : Once d.calls
  pub receipted :
      (s i : String) → was_accepted s i d.calls ≡ true → is_some (lookup i (d.receipts s)) ≡ true
  pub waiting : All (λ x. Fresh d.calls x × Guarded d.inflight_deliveries x) d.drains
  pub apart : Distinct (session_ids d.drains)

start-apart :
    (id : String) (inflight : List String) (xs : List Draining)
    → includes inflight id ≡ false
    → All (Guarded inflight) xs
    → Avoids id (session_ids xs)
start-apart id inflight [] h g = tt
start-apart id inflight (x ∷ xs) h g =
    ((λ e. absurd (ground (arith, h, g.0, e))), start-apart id inflight xs h g.1)

includes-push :
    (x y : String) (xs : List String) → includes xs y ≡ true → includes (x ∷ xs) y ≡ true
unfolding includes
includes-push x y xs h = ground (arith, h)

includes-head : (x : String) (xs : List String) → includes (x ∷ xs) x ≡ true
unfolding includes
includes-head x xs = ground (arith, eq_refl x)

pub start_delivery-DeliversOnce :
    (now : ℕ) (session : Session) (rows : List OutboundMessage) (d : Delivery)
    → Distinct (message_ids rows)
    → DeliversOnce d
    → DeliversOnce (start_delivery now session rows d)
unfolding start_delivery
start_delivery-DeliversOnce now session rows d distinct v =
    if_elim DeliversOnce (includes d.inflight_deliveries session.id) (λ _. v)
      (λ idle. record {
        once = v.once;
        receipted = v.receipted;
        waiting = (
          (
            (
              fresh,
              not_delivered-Distinct (d.receipts session.id) due (due-Distinct now rows distinct),
            ),
            includes-head session.id d.inflight_deliveries,
          ),
          All-map (λ x. Fresh d.calls x × Guarded d.inflight_deliveries x)
              (λ x. Fresh d.calls x × Guarded (session.id ∷ d.inflight_deliveries) x) d.drains
              (λ x h. (h.0, includes-push session.id x.session.id d.inflight_deliveries h.1))
              v.waiting,
        );
        apart = (
          start-apart session.id d.inflight_deliveries d.drains idle (
              All-map (λ x. Fresh d.calls x × Guarded d.inflight_deliveries x)
                (Guarded d.inflight_deliveries) d.drains (λ x h. h.1) v.waiting),
          v.apart,
        );
      })
  where
    due : List OutboundMessage
    due = get_due_outbound_messages now rows

    fresh :
        All
          (λ m. was_accepted session.id m.id d.calls ≡ false)
          (not_delivered (d.receipts session.id) due)
    fresh =
        All-map (λ m. is_some (lookup m.id (d.receipts session.id)) ≡ false)
          (λ m. was_accepted session.id m.id d.calls ≡ false)
          (not_delivered (d.receipts session.id) due)
          (λ m h. ground (arith, h, v.receipted session.id m.id))
          (not_delivered-fresh (d.receipts session.id) due)

module _ (session id : String) (taken : Bool) (calls later : List Call)
    (adds : Adds session id taken calls later) where
  -- Another message of the session is as fresh as before.
  pub still_fresh :
      (ms : List OutboundMessage)
      → Avoids id (message_ids ms)
      → All (λ m. was_accepted session m.id calls ≡ false) ms
      → All (λ m. was_accepted session m.id later ≡ false) ms
  still_fresh [] a h = tt
  still_fresh (m ∷ ms) a h =
      (ground (arith, adds.0 session m.id, eq_iff id m.id, a.0, h.0), still_fresh ms a.1 h.1)

  elsewhere_fresh :
      (other : String) (ms : List OutboundMessage)
      → other ≢ session
      → All (λ m. was_accepted other m.id calls ≡ false) ms
      → All (λ m. was_accepted other m.id later ≡ false) ms
  elsewhere_fresh other [] ne h = tt
  elsewhere_fresh other (m ∷ ms) ne h = (
    ground (arith, adds.0 other m.id, eq_iff session other, ne, h.0),
    elsewhere_fresh other ms ne h.1,
  )

  pub others_wait :
      (inflight : List String) (xs : List Draining)
      → Avoids session (session_ids xs)
      → All (λ x. Fresh calls x × Guarded inflight x) xs
      → All (λ x. Fresh later x × Guarded inflight x) xs
  others_wait inflight [] a h = tt
  others_wait inflight (x ∷ xs) a h = (
    ((elsewhere_fresh x.session.id x.undelivered a.0 h.0.0.0, h.0.0.1), h.0.1),
    others_wait inflight xs a.1 h.1,
  )

pub others-Guarded :
    (session : String) (calls : List Call) (inflight : List String) (xs : List Draining)
    → Avoids session (session_ids xs)
    → All (λ x. Fresh calls x × Guarded inflight x) xs
    → All (λ x. Fresh calls x × Guarded (without session inflight) x) xs
others-Guarded session calls inflight [] a h = tt
others-Guarded session calls inflight (x ∷ xs) a h = (
  (h.0.0, includes-without session x.session.id inflight (λ e. a.0 (sym e)) h.0.1),
  others-Guarded session calls inflight xs a.1 h.1,
)
