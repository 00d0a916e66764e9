-- ===== src/Outbound/Once.antt =====
-- src/delivery.ts: no interleaving of polls hands a message to a channel again once it was accepted.
use nanoclaw_github_copilot.Base.{
  ◌≡◌, sym, subst, inl, inr, String, true, Option, none, some, List, [], ◌∷◌, arith, is_some,
  eq_iff, All, Distinct, lookup, Bool-cases,
}
use nanoclaw_github_copilot.Outbound.{OutboundMessage, Outside, Draining, Delivery}
use nanoclaw_github_copilot.Outbound.Drain.{deliver_next}
use nanoclaw_github_copilot.Outbound.Polls.{
  take_drain, advance, advance_found, continue_delivery, Step, polls, continues, step, run, init,
}
use nanoclaw_github_copilot.Outbound.Accepted.{was_accepted, Once}
use nanoclaw_github_copilot.Outbound.Rounds.{Settled, deliver_next-Settled}
use nanoclaw_github_copilot.Outbound.Apart.{session_ids, message_ids, Taken, take_drain-Taken}
use nanoclaw_github_copilot.Outbound.Waiting.{
  Fresh, Guarded, DeliversOnce, start_delivery-DeliversOnce, still_fresh, others_wait,
  others-Guarded,
}

-- What is known of each call in progress.
abbrev Waits : Delivery → Draining → Type 0
Waits d y = Fresh d.calls y × Guarded d.inflight_deliveries y

module _ (out : Outside) (d : Delivery) (v : DeliversOnce d) (x : Draining)
    (rest : List Draining) where
  round-DeliversOnce :
      (m : OutboundMessage) (ms : List OutboundMessage) (later : Delivery)
      → Fresh d.calls (record x { undelivered = m ∷ ms })
      → Guarded d.inflight_deliveries x
      → All (Waits d) rest
      → Distinct (x.session.id ∷ session_ids rest)
      → Settled m x.session (record d { drains = record x { undelivered = ms } ∷ rest }) later
      → DeliversOnce later
  round-DeliversOnce m ms later fresh guard h a s = record {
    once = s.adds.1 (λ _. fresh.0.0) v.once;
    receipted = receipted;
    waiting =
        subst (All (λ y. Fresh later.calls y × Guarded later.inflight_deliveries y))
          (sym s.same_drains)
          (subst
            (λ inflight.
              All (λ y. Fresh later.calls y × Guarded inflight y)
                (record x { undelivered = ms } ∷ rest))
            (sym s.same_inflight)
            (
              (
                (
                  still_fresh x.session.id m.id s.taken d.calls later.calls s.adds ms fresh.1.0
                      fresh.0.1,
                  fresh.1.1,
                ),
                guard,
              ),
              others_wait x.session.id m.id s.taken d.calls later.calls s.adds d.inflight_deliveries
                  rest a.0 h,
            ));
    apart = subst (λ ds. Distinct (session_ids ds)) (sym s.same_drains) a;
  }
    where
      receipted :
          (t j : String)
          → was_accepted t j later.calls ≡ true
          → is_some (lookup j (later.receipts t)) ≡ true
      receipted t j w = elim (Bool-cases (was_accepted t j d.calls)) [
        | inl old ↦ s.keeps t j (v.receipted t j old)
        | inr new ↦
            ground (arith, s.adds.0 t j, w, new, eq_iff x.session.id t, eq_iff m.id j, s.noted)
      ]

  advance-DeliversOnce :
      (ms : List OutboundMessage)
      → Fresh d.calls (record x { undelivered = ms })
      → Guarded d.inflight_deliveries x
      → All (Waits d) rest
      → Distinct (x.session.id ∷ session_ids rest)
      → DeliversOnce (advance out x ms (record d { drains = rest }))
  unfolding advance
  advance-DeliversOnce [] fresh guard h a = record {
    once = v.once;
    receipted = v.receipted;
    waiting = others-Guarded x.session.id d.calls d.inflight_deliveries rest a.0 h;
    apart = a.1;
  }
  advance-DeliversOnce (m ∷ ms) fresh guard h a =
      round-DeliversOnce m ms
        (deliver_next out m x.session (record d { drains = record x { undelivered = ms } ∷ rest }))
        fresh guard h a
        (deliver_next-Settled out m x.session
          (record d { drains = record x { undelivered = ms } ∷ rest }))

continue_delivery-DeliversOnce :
    (out : Outside) (id : String) (d : Delivery)
    → DeliversOnce d
    → DeliversOnce (continue_delivery out id d)
unfolding continue_delivery
continue_delivery-DeliversOnce out id d v =
    found (take_drain id d.drains) (take_drain-Taken (Waits d) id d.drains v.waiting v.apart)
  where
    found :
        (r : Option Draining × List Draining)
        → Taken (λ y. Fresh d.calls y × Guarded d.inflight_deliveries y) id r
        → DeliversOnce (advance_found out r d)
    found (none, rest) t = v
    found (some x, rest) t = advance-DeliversOnce out d v x rest x.undelivered t.0.0 t.0.1 t.2 t.3

-- `id` is the primary key of `messages_out`.
abbrev pub PrimaryKey : Step → Type 0
PrimaryKey (polls now session rows) = Distinct (message_ids rows)
PrimaryKey (continues session) = Unit {0}

-- Every step, the start of a poll of any session or a round of one in progress, keeps: no message was
-- accepted twice, each accepted message has its row in `delivered`, what is in progress is still to
-- deliver, and no session is drained by two polls at a time. The condition is that the rows of a poll
-- have distinct ids.
pub step-DeliversOnce :
    (out : Outside) (s : Step) (d : Delivery)
    → PrimaryKey s
    → DeliversOnce d
    → DeliversOnce (step out s d)
unfolding step
step-DeliversOnce out (polls now session rows) d k v =
    start_delivery-DeliversOnce now session rows d k v
step-DeliversOnce out (continues session) d k v = continue_delivery-DeliversOnce out session d v

run-DeliversOnce :
    (out : Outside) (steps : List Step) (d : Delivery)
    → All PrimaryKey steps
    → DeliversOnce d
    → DeliversOnce (run out steps d)
unfolding run
run-DeliversOnce out [] d k v = v
run-DeliversOnce out (s ∷ steps) d k v =
    run-DeliversOnce out steps (step out s d) k.1 (step-DeliversOnce out s d k.0 v)

init-DeliversOnce : DeliversOnce init
unfolding init was_accepted
init-DeliversOnce = record {
  once = tt;
  receipted = λ s i h. absurd (cc h);
  waiting = tt;
  apart = tt;
}

-- In any interleaving of the active poll and the sweep poll from a fresh start, a channel that has
-- accepted a message of a session is never handed it again, whatever calls fail in between.
pub run-Once :
    (out : Outside) (steps : List Step) → All PrimaryKey steps → Once (run out steps init).calls
run-Once out steps k = (run-DeliversOnce out steps init k init-DeliversOnce).once
