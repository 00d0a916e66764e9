-- ===== src/Outbound/Apart.antt =====
-- src/delivery.ts: the calls of `deliverSessionMessages` in progress, and the one that goes on.
use nanoclaw_github_copilot.Base.{
  ℕ, ◌≡◌, ◌≢◌, String, true, false, Option, none, some, List, [], ◌∷◌, arith, if_elim, is_some,
  includes, str_eq, eq_iff, All, Avoids, Distinct, Table, lookup,
}
use nanoclaw_github_copilot.Outbound.{OutboundMessage, Receipt, Draining}
use nanoclaw_github_copilot.Outbound.Drain.{get_due_outbound_messages, is_due, not_delivered}
use nanoclaw_github_copilot.Outbound.Polls.{without, take_drain}

abbrev pub session_ids : List Draining → List String
session_ids [] = []
session_ids (x ∷ xs) = x.session.id ∷ session_ids xs

abbrev pub message_ids : List OutboundMessage → List String
message_ids [] = []
message_ids (m ∷ ms) = m.id ∷ message_ids ms

-- The call that goes on, if there is one, and the others.
abbrev pub Taken : (Draining → Type 0) → String → Option Draining × List Draining → Type 0
Taken P id (none, rest) = All P rest
Taken P id (some x, rest) =
    P x × (x.session.id ≡ id) × All P rest × Distinct (x.session.id ∷ session_ids rest)

take_drain-Avoids :
    (s id : String) (xs : List Draining)
    → Avoids s (session_ids xs)
    → Avoids s (session_ids (take_drain id xs).1)
unfolding take_drain
take_drain-Avoids s id [] h = h
take_drain-Avoids s id (x ∷ xs) h =
    if_elim (λ (r : Option Draining × List Draining). Avoids s (session_ids r.1))
      (str_eq x.session.id id) (λ _. h.1) (λ _. (h.0, take_drain-Avoids s id xs h.1))

pub take_drain-Taken :
    (P : Draining → Type 0) (id : String) (xs : List Draining)
    → All P xs
    → Distinct (session_ids xs)
    → Taken P id (take_drain id xs)
unfolding take_drain
take_drain-Taken P id [] h a = h
take_drain-Taken P id (x ∷ xs) h a =
    if_elim (Taken P id) (str_eq x.session.id id) (λ e. (h.0, (eq_iff x.session.id id).0 e, h.1, a))
      (λ e.
        behind e (take_drain id xs) (take_drain-Avoids x.session.id id xs a.0)
          (take_drain-Taken P id xs h.1 a.1))
  where
    behind :
        str_eq x.session.id id ≡ false
        → (r : Option Draining × List Draining) → Avoids x.session.id (session_ids r.1)
        → Taken P id r
        → Taken P id (r.0, x ∷ r.1)
    behind e (none, rest) av t = (h.0, t)
    behind e (some y, rest) av t = (
      t.0,
      t.1,
      (h.0, t.2),
      (((λ k. absurd (ground (arith, e, eq_iff x.session.id id, t.1, k))), t.3.0), (av, t.3.1)),
    )

pub includes-without :
    (x y : String) (xs : List String)
    → x ≢ y
    → includes xs y ≡ true
    → includes (without x xs) y ≡ true
unfolding includes without
includes-without x y [] ne h = h
includes-without x y (z ∷ zs) ne h =
    ground (arith, eq_iff z x, eq_iff z y, includes-without x y zs ne)

-- What `drainSession` is about to deliver: ids that are in no row, each once.
not_delivered-Avoids :
    (table : Table Receipt) (id : String) (ms : List OutboundMessage)
    → Avoids id (message_ids ms)
    → Avoids id (message_ids (not_delivered table ms))
unfolding not_delivered
not_delivered-Avoids table id [] h = tt
not_delivered-Avoids table id (m ∷ ms) h =
    if_elim (λ (r : List OutboundMessage). Avoids id (message_ids r)) (is_some (lookup m.id table))
      (λ _. not_delivered-Avoids table id ms h.1) (λ _. (h.0, not_delivered-Avoids table id ms h.1))

pub not_delivered-Distinct :
    (table : Table Receipt) (ms : List OutboundMessage)
    → Distinct (message_ids ms)
    → Distinct (message_ids (not_delivered table ms))
unfolding not_delivered
not_delivered-Distinct table [] h = tt
not_delivered-Distinct table (m ∷ ms) h =
    if_elim (λ (r : List OutboundMessage). Distinct (message_ids r)) (is_some (lookup m.id table))
      (λ _. not_delivered-Distinct table ms h.1)
      (λ _. (not_delivered-Avoids table m.id ms h.0, not_delivered-Distinct table ms h.1))

due-Avoids :
    (now : ℕ) (id : String) (ms : List OutboundMessage)
    → Avoids id (message_ids ms)
    → Avoids id (message_ids (get_due_outbound_messages now ms))
unfolding get_due_outbound_messages
due-Avoids now id [] h = tt
due-Avoids now id (m ∷ ms) h =
    if_elim (λ (r : List OutboundMessage). Avoids id (message_ids r)) (is_due now m.deliver_after)
      (λ _. (h.0, due-Avoids now id ms h.1)) (λ _. due-Avoids now id ms h.1)

pub due-Distinct :
    (now : ℕ) (ms : List OutboundMessage)
    → Distinct (message_ids ms)
    → Distinct (message_ids (get_due_outbound_messages now ms))
unfolding get_due_outbound_messages
due-Distinct now [] h = tt
due-Distinct now (m ∷ ms) h =
    if_elim (λ (r : List OutboundMessage). Distinct (message_ids r)) (is_due now m.deliver_after)
      (λ _. (due-Avoids now m.id ms h.0, due-Distinct now ms h.1)) (λ _. due-Distinct now ms h.1)

pub not_delivered-fresh :
    (table : Table Receipt) (ms : List OutboundMessage)
    → All (λ m. is_some (lookup m.id table) ≡ false) (not_delivered table ms)
unfolding not_delivered
not_delivered-fresh table [] = tt
not_delivered-fresh table (m ∷ ms) =
    if_elim (All (λ n. is_some (lookup n.id table) ≡ false)) (is_some (lookup m.id table))
      (λ _. not_delivered-fresh table ms) (λ e. (e, not_delivered-fresh table ms))
