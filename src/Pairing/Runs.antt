-- ===== src/Pairing/Runs.antt =====
-- src/v2-access.ts: any run of the pairing flow refines a run over the boxes of the peers.
use nanoclaw_github_copilot.Base.{
  ℕ, suc, ◌≡◌, refl, ap, ◌∙◌, ◌≤◌, ◌<◌, String, Bool, Option, none, some, is_some, List, [], ◌∷◌,
  ◌++◌, ltb, arith, if_elim, All, All-map, All-append,
}
use nanoclaw_github_copilot.Mounts.Strings.{Text, same}
use nanoclaw_github_copilot.Pairing.{normalize_pairing_code}
use nanoclaw_github_copilot.Pairing.Store.{
  Peer, PendingMessage, PairingCode, PairDb, is_peer, unexpired_messages, swept, sweep_expired,
  live_code, mint, HoldOutcome, with_existing, with_message, pending_row, hold_message_for_pairing,
}
use nanoclaw_github_copilot.Pairing.Redeem.{
  RedeemResult, RevokeResult, find_code, held_for, held_by_others, redeem_found, redeem,
  revoke_found, revoke, group_known, either,
}
use nanoclaw_github_copilot.Pairing.Events.{
  PairEvent, hold, redeem_code, revoke_code, sweep, World, held_db, step, run, empty_world,
}
use nanoclaw_github_copilot.Pairing.Mailbox.{
  spec_run, boxes_of, Ordered, Ordered-snoc, Ordered-others, Ordered-unexpired,
}
use nanoclaw_github_copilot.Pairing.Refinement.{
  Refines, hold-Refines, redeem-Refines, revoke-Refines, sweep-Refines,
}

-- Each call that holds a message comes at a later instant than those before.
abbrev pub Later : ℕ → List PairEvent → Type 0
Later from [] = Unit
Later from (hold now id peer payload candidate ∷ es) = (from ≤ now) × Later (suc now) es
Later from (redeem_code at_sweep now raw owner target ∷ es) = Later from es
Later from (revoke_code raw ∷ es) = Later from es
Later from (sweep now ∷ es) = Later from es

abbrev next_stamp : ℕ → PairEvent → ℕ
next_stamp from (hold now id peer payload candidate) = suc now
next_stamp from e = from

abbrev Stamped : ℕ → List PendingMessage → Type 0
Stamped until ms = Ordered 0 ms × All (λ (m : PendingMessage). m.received_at < until) ms

All-unexpired :
    (until now : ℕ) (ms : List PendingMessage)
    → All (λ (m : PendingMessage). m.received_at < until) ms
    → All (λ (m : PendingMessage). m.received_at < until) (unexpired_messages now ms)
unfolding unexpired_messages
All-unexpired until now [] h = tt
All-unexpired until now (m ∷ ms) h =
    let rest = All-unexpired until now ms h.1 in
    if_elim (All (λ (n : PendingMessage). n.received_at < until)) (ltb m.expires_at now)
      {y = m ∷ unexpired_messages now ms} (λ _. rest) (λ _. (h.0, rest))

All-others :
    (until : ℕ) (p : Peer) (ms : List PendingMessage)
    → All (λ (m : PendingMessage). m.received_at < until) ms
    → All (λ (m : PendingMessage). m.received_at < until) (held_by_others p ms)
unfolding held_by_others
All-others until p [] h = tt
All-others until p (m ∷ ms) h =
    let rest = All-others until p ms h.1 in
    if_elim (All (λ (n : PendingMessage). n.received_at < until)) (is_peer m.peer p)
      {y = m ∷ held_by_others p ms} (λ _. rest) (λ _. (h.0, rest))

swept-Stamped :
    (until now : ℕ) (ms : List PendingMessage)
    → Stamped until ms
    → Stamped until (unexpired_messages now ms)
swept-Stamped until now ms h = (Ordered-unexpired now 0 ms h.0, All-unexpired until now ms h.1)

others-Stamped :
    (until : ℕ) (p : Peer) (ms : List PendingMessage)
    → Stamped until ms
    → Stamped until (held_by_others p ms)
others-Stamped until p ms h = (Ordered-others p 0 ms h.0, All-others until p ms h.1)

snoc-Stamped :
    (until now : ℕ) (id : String) (peer : Peer) (payload : String) (ms : List PendingMessage)
    → until ≤ now
    → Stamped until ms
    → Stamped (suc now) (ms ++ pending_row now id peer payload ∷ [])
snoc-Stamped until now id peer payload ms l h = (
  Ordered-snoc 0 ms (pending_row now id peer payload) h.0
      (All-map (λ (m : PendingMessage). m.received_at < until)
        (λ (m : PendingMessage). m.received_at < now) ms (λ m b. omega (arith, b, l)) h.1)
      (omega arith),
  All-append (λ (m : PendingMessage). m.received_at < suc now) ms
      (pending_row now id peer payload ∷ [])
      (All-map (λ (m : PendingMessage). m.received_at < until)
        (λ (m : PendingMessage). m.received_at < suc now) ms (λ m b. omega (arith, b, l)) h.1)
      (omega arith, tt),
)

revoke-Stamped :
    (until : ℕ) (raw : Text) (db : PairDb)
    → Stamped until db.pending_messages
    → Stamped until (revoke raw db).0.pending_messages
unfolding revoke
revoke-Stamped until raw db h = by_row (find_code (normalize_pairing_code raw) db.pairing_codes)
  where
    by_row :
        (row : Option PairingCode)
        → Stamped until (revoke_found (normalize_pairing_code raw) row db).0.pending_messages
    by_row none = h
    by_row (some row) =
        if_elim (λ (r : PairDb × RevokeResult). Stamped until r.0.pending_messages)
          (is_some row.redeemed_at) (λ _. h)
          (λ _. others-Stamped until row.peer db.pending_messages h)

hold-Stamped :
    (until now : ℕ) (id : String) (peer : Peer) (payload : String) (candidate : ℕ → Text)
    (db : PairDb)
    → until ≤ now
    → Stamped until db.pending_messages
    → Stamped
        (suc now)
        (held_db (hold_message_for_pairing now id peer payload candidate db)).pending_messages
unfolding hold_message_for_pairing swept
hold-Stamped until now id peer payload candidate db l h =
    by_live (live_code now peer stored.pairing_codes)
  where
    stored : PairDb
    stored = with_message now id peer payload db

    kept : Stamped (suc now) stored.pending_messages
    kept =
        snoc-Stamped until now id peer payload (unexpired_messages now db.pending_messages) l
          (swept-Stamped until now db.pending_messages h)

    by_live :
        (existing : Option PairingCode)
        → Stamped
            (suc now)
            (held_db (with_existing now id peer candidate stored existing)).pending_messages
    by_live (some existing) = kept
    by_live none =
        if_elim (λ (r : HoldOutcome). Stamped (suc now) (held_db r).pending_messages)
          (same (mint 5 0 candidate stored.pairing_codes) []) (λ _. kept) (λ _. kept)

module _ {ℓ} {P : Type ℓ} (parse : String → Option P) (empty : P)
    (id_before : String → String → Bool) where
  redeem-Stamped :
      (until at_sweep now : ℕ) (raw : Text) (owner : String) (target : Option String) (db : PairDb)
      → Stamped until db.pending_messages
      → Stamped until
          (redeem parse empty id_before at_sweep now raw owner target db).0.pending_messages
  unfolding redeem swept
  redeem-Stamped until at_sweep now raw owner target db h =
      by_row (find_code code fresh.pairing_codes)
    where
      code : Text
      code = normalize_pairing_code raw

      fresh : PairDb
      fresh = swept at_sweep db

      kept : Stamped until fresh.pending_messages
      kept = swept-Stamped until at_sweep db.pending_messages h

      Fine : PairDb × RedeemResult P → Type 0
      Fine r = Stamped until r.0.pending_messages

      by_row :
          (row : Option PairingCode)
          → Fine (redeem_found parse empty id_before now code owner target row fresh)
      by_row none = kept
      by_row (some row) =
          if_elim Fine (is_some row.redeemed_at) (λ _. kept)
            λ _.
              if_elim Fine (ltb row.expires_at now) (λ _. kept)
                λ _.
                  if_elim Fine (group_known fresh.agent_groups (either target row.target_agent_id))
                    (λ _.
                      swept-Stamped until now (held_by_others row.peer fresh.pending_messages)
                        (others-Stamped until row.peer fresh.pending_messages kept))
                    (λ _. kept)

  step-Refines :
      (e : PairEvent) (w : World)
      → Ordered 0 w.db.pending_messages
      → Refines e (boxes_of w) (step parse empty id_before e w)
  step-Refines (hold now id peer payload candidate) w o =
      hold-Refines parse empty id_before now id peer payload candidate w
  step-Refines (redeem_code at_sweep now raw owner target) w o =
      redeem-Refines parse empty id_before at_sweep now raw owner target w o
  step-Refines (revoke_code raw) w o = revoke-Refines parse empty id_before raw w
  step-Refines (sweep now) w o = sweep-Refines parse empty id_before now w

  step-Stamped :
      (until : ℕ) (e : PairEvent) (es : List PairEvent) (w : World)
      → Later until (e ∷ es)
      → Stamped until w.db.pending_messages
      → Later (next_stamp until e) es
        × Stamped (next_stamp until e) (step parse empty id_before e w).db.pending_messages
  unfolding step sweep_expired swept
  step-Stamped until (hold now id peer payload candidate) es w l h =
      (l.1, hold-Stamped until now id peer payload candidate w.db l.0 h)
  step-Stamped until (redeem_code at_sweep now raw owner target) es w l h =
      (l, redeem-Stamped until at_sweep now raw owner target w.db h)
  step-Stamped until (revoke_code raw) es w l h = (l, revoke-Stamped until raw w.db h)
  step-Stamped until (sweep now) es w l h = (l, swept-Stamped until now w.db.pending_messages h)

  run-Refines :
      (until : ℕ) (events : List PairEvent) (w : World)
      → Later until events
      → Stamped until w.db.pending_messages
      → (taken : List (Option Peer)) × (boxes_of (run parse empty id_before events w)
          ≡ spec_run events taken (boxes_of w))
  unfolding run
  run-Refines until [] w l h = ([], refl)
  run-Refines until (e ∷ es) w l h =
      let here = step-Refines e w h.0 in
      let next = step-Stamped until e es w l h in
      let rest =
        run-Refines (next_stamp until e) es (step parse empty id_before e w) next.0 next.1 in
      (here.0 ∷ rest.0, rest.1 ∙ ap (spec_run es rest.0) here.1)

  -- The pairing flow refines a specification with one box of messages for each peer. For any calls, each holding
  -- call later than those before, there is a choice of the redemptions and revocations that succeed, such that the
  -- tables show the boxes that the specification reaches, and the messages replayed so far are those that it
  -- has handed over, in that order: holding puts a message at the end of its sender's box, a redemption hands over
  -- the unexpired messages of one box in the order of their arrival and empties it, and no other box is touched.
  pub run-refines :
      (groups : List String) (events : List PairEvent)
      → Later 0 events
      → (taken : List (Option Peer)) × (boxes_of
            (run parse empty id_before events (empty_world groups))
          ≡ spec_run events taken ((λ q. []), []))
  unfolding held_for
  run-refines groups events l = run-Refines 0 events (empty_world groups) l (tt, tt)
