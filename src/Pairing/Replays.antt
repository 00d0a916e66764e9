-- ===== src/Pairing/Replays.antt =====
-- src/v2-access.ts: a held message is replayed once at most.
use nanoclaw_github_copilot.Base.{
  ℕ, ◌+◌, ◌≡◌, refl, ◌≤◌, String, Bool, Option, none, some, is_some, List, [], ◌∷◌, ◌++◌, ltb,
  arith, if◌then◌else◌, if_elim, str_eq,
}
use nanoclaw_github_copilot.Mounts.Strings.{Text, same}
use nanoclaw_github_copilot.Pairing.{normalize_pairing_code}
use nanoclaw_github_copilot.Pairing.Store.{
  Peer, PendingMessage, PairingCode, PairDb, unexpired_messages, swept, sweep_expired, live_code,
  mint, HoldOutcome, with_existing, with_message, pending_row, hold_message_for_pairing,
}
use nanoclaw_github_copilot.Pairing.Redeem.{
  RedeemResult, redeemed, unknown_code, RevokeResult, find_code, held_for, held_by_others, precedes,
  insert_message, by_arrival, replays, redeemed_db, redeem_found, redeem, revoke_found, revoke,
  group_known, either,
}
use nanoclaw_github_copilot.Pairing.Events.{
  PairEvent, hold, redeem_code, revoke_code, sweep, World, held_db, replay_ids, after_redeem, step,
  run, empty_world,
}

-- How often an id occurs.
abbrev pub times : String → List String → ℕ
times id [] = 0
times id (x ∷ xs) = (if str_eq x id then 1 else 0) + times id xs

abbrev pub times_held : String → List PendingMessage → ℕ
times_held id [] = 0
times_held id (m ∷ ms) = (if str_eq m.id id then 1 else 0) + times_held id ms

-- The ids that `randomUUID` answered to the calls that hold a message.
abbrev pub held_ids : List PairEvent → List String
held_ids [] = []
held_ids (hold now id peer payload candidate ∷ es) = id ∷ held_ids es
held_ids (redeem_code at_sweep now raw owner target ∷ es) = held_ids es
held_ids (revoke_code raw ∷ es) = held_ids es
held_ids (sweep now ∷ es) = held_ids es

module _ (id : String) where
  times-append : (xs ys : List String) → times id (xs ++ ys) ≡ times id xs + times id ys
  times-append [] ys = omega arith
  times-append (x ∷ xs) ys = omega (arith, times-append xs ys)

  times_held-append :
      (ms ns : List PendingMessage) → times_held id (ms ++ ns) ≡ times_held id ms + times_held id ns
  times_held-append [] ns = omega arith
  times_held-append (m ∷ ms) ns = omega (arith, times_held-append ms ns)

  times_held-unexpired :
      (now : ℕ) (ms : List PendingMessage)
      → times_held id (unexpired_messages now ms) ≤ times_held id ms
  unfolding unexpired_messages
  times_held-unexpired now [] = omega arith
  times_held-unexpired now (m ∷ ms) = ground (arith, times_held-unexpired now ms)

  -- A peer's messages and those of the others are all of them.
  times_held-split :
      (peer : Peer) (ms : List PendingMessage)
      → times_held id (held_for peer ms) + times_held id (held_by_others peer ms) ≡ times_held id ms
  unfolding held_for held_by_others
  times_held-split peer [] = omega arith
  times_held-split peer (m ∷ ms) = ground (arith, times_held-split peer ms)

  times_held-insert :
      (id_before : String → String → Bool) (m : PendingMessage) (ms : List PendingMessage)
      → times_held id (insert_message id_before m ms)
        ≡ (if str_eq m.id id then 1 else 0) + times_held id ms
  unfolding insert_message
  times_held-insert id_before m [] = omega arith
  times_held-insert id_before m (n ∷ ns) =
      if_elim
        (λ (r : List PendingMessage).
          times_held id r ≡ (if str_eq m.id id then 1 else 0) + times_held id (n ∷ ns))
        (precedes id_before m n) (λ _. refl) (λ _. omega (arith, times_held-insert id_before m ns))

  times_held-by_arrival :
      (id_before : String → String → Bool) (ms : List PendingMessage)
      → times_held id (by_arrival id_before ms) ≡ times_held id ms
  unfolding by_arrival
  times_held-by_arrival id_before [] = refl
  times_held-by_arrival id_before (m ∷ ms) = omega (
    arith,
    times_held-insert id_before m (by_arrival id_before ms),
    times_held-by_arrival id_before ms,
  )

  times-replays {ℓ} :
      {P : Type ℓ} (parse : String → Option P) (empty : P) (id_before : String → String → Bool)
      (ms : List PendingMessage)
      → times id (replay_ids (replays parse empty id_before ms)) ≡ times_held id ms
  unfolding replay_ids replays
  times-replays parse empty id_before [] = refl
  times-replays parse empty id_before (m ∷ ms) =
      omega (arith, times-replays parse empty id_before ms)

  -- How often the message was replayed or is held.
  abbrev pub spent : World → ℕ
  spent w = times id w.replayed + times_held id w.db.pending_messages

  swept-spent : (now : ℕ) (w : World) → spent (record w { db = swept now w.db }) ≤ spent w
  unfolding swept
  swept-spent now w = omega (arith, times_held-unexpired now w.db.pending_messages)

  hold-spent :
      (now : ℕ) (new : String) (peer : Peer) (payload : String) (candidate : ℕ → Text) (w : World)
      → spent
          (record w { db = held_db (hold_message_for_pairing now new peer payload candidate w.db) })
        ≤ (if str_eq new id then 1 else 0) + spent w
  unfolding hold_message_for_pairing
  hold-spent now new peer payload candidate w = by_live (live_code now peer stored.pairing_codes)
    where
      stored : PairDb
      stored = with_message now new peer payload w.db

      bound : spent (record w { db = stored }) ≤ (if str_eq new id then 1 else 0) + spent w
      bound =
          unfold swept in
          omega (
            arith,
            times_held-append (unexpired_messages now w.db.pending_messages)
                (pending_row now new peer payload ∷ []),
            times_held-unexpired now w.db.pending_messages,
          )

      by_live :
          (existing : Option PairingCode)
          → spent (record w { db = held_db (with_existing now new peer candidate stored existing) })
            ≤ (if str_eq new id then 1 else 0) + spent w
      by_live (some existing) = bound
      by_live none =
          if_elim
            (λ (r : HoldOutcome).
              spent (record w { db = held_db r }) ≤ (if str_eq new id then 1 else 0) + spent w)
            (same (mint 5 0 candidate stored.pairing_codes) []) (λ _. bound) (λ _. bound)

  revoke-spent : (raw : Text) (w : World) → spent (record w { db = (revoke raw w.db).0 }) ≤ spent w
  unfolding revoke
  revoke-spent raw w = by_row (find_code (normalize_pairing_code raw) w.db.pairing_codes)
    where
      by_row :
          (row : Option PairingCode)
          → spent (record w { db = (revoke_found (normalize_pairing_code raw) row w.db).0 })
            ≤ spent w
      by_row none = omega arith
      by_row (some row) =
          if_elim (λ (r : PairDb × RevokeResult). spent (record w { db = r.0 }) ≤ spent w)
            (is_some row.redeemed_at) (λ _. omega arith)
            (λ _. omega (arith, times_held-split row.peer w.db.pending_messages))

  module _ {ℓ} {P : Type ℓ} (parse : String → Option P) (empty : P)
      (id_before : String → String → Bool) where
    redeem_row-spent :
        (now : ℕ) (code : Text) (owner : String) (agent : Option String) (peer : Peer) (w : World)
        → spent (
            after_redeem w (
              swept now (redeemed_db now code owner agent peer w.db),
              redeemed peer (
                  replays parse empty id_before
                    (by_arrival id_before (held_for peer w.db.pending_messages))),
            ))
          ≤ spent w
    unfolding swept
    redeem_row-spent now code owner agent peer w =
        let mine = held_for peer w.db.pending_messages in
        omega (
          arith,
          times-append w.replayed
              (replay_ids (replays parse empty id_before (by_arrival id_before mine))),
          times-replays parse empty id_before (by_arrival id_before mine),
          times_held-by_arrival id_before mine,
          times_held-split peer w.db.pending_messages,
          times_held-unexpired now (held_by_others peer w.db.pending_messages),
        )

    nothing_replayed : (w : World) → times id (w.replayed ++ []) ≡ times id w.replayed
    nothing_replayed w = omega (arith, times-append w.replayed [])

    redeem_found-spent :
        (now : ℕ) (code : Text) (owner : String) (target : Option String) (row : Option PairingCode)
        (w : World)
        → spent (after_redeem w (redeem_found parse empty id_before now code owner target row w.db))
          ≤ spent w
    redeem_found-spent now code owner target none w = omega (arith, nothing_replayed w)
    redeem_found-spent now code owner target (some row) w =
        let Q : PairDb × RedeemResult P → Type 0 = λ r. spent (after_redeem w r) ≤ spent w in
        let same_tables : spent (after_redeem {P = P} w (w.db, unknown_code)) ≤ spent w =
          omega (arith, nothing_replayed w) in
        if_elim Q (is_some row.redeemed_at) (λ _. same_tables)
          λ _.
            if_elim Q (ltb row.expires_at now) (λ _. same_tables)
              λ _.
                if_elim Q (group_known w.db.agent_groups (either target row.target_agent_id))
                  (λ _.
                    redeem_row-spent now code owner (either target row.target_agent_id) row.peer w)
                  (λ _. same_tables)

    redeem-spent :
        (at_sweep now : ℕ) (raw : Text) (owner : String) (target : Option String) (w : World)
        → spent (after_redeem w (redeem parse empty id_before at_sweep now raw owner target w.db))
          ≤ spent w
    unfolding redeem
    redeem-spent at_sweep now raw owner target w =
        let fresh : World = record w { db = swept at_sweep w.db } in
        omega (
          arith,
          swept-spent at_sweep w,
          redeem_found-spent now (normalize_pairing_code raw) owner target
              (find_code (normalize_pairing_code raw) (swept at_sweep w.db).pairing_codes) fresh,
        )

    step-spent :
        (e : PairEvent) (w : World)
        → spent (step parse empty id_before e w) ≤ times id (held_ids (e ∷ [])) + spent w
    unfolding step sweep_expired
    step-spent (hold now new peer payload candidate) w =
        omega (arith, hold-spent now new peer payload candidate w)
    step-spent (redeem_code at_sweep now raw owner target) w =
        omega (arith, redeem-spent at_sweep now raw owner target w)
    step-spent (revoke_code raw) w = omega (arith, revoke-spent raw w)
    step-spent (sweep now) w = omega (arith, swept-spent now w)

    held_ids-cons :
        (e : PairEvent) (es : List PairEvent)
        → times id (held_ids (e ∷ es)) ≡ times id (held_ids (e ∷ [])) + times id (held_ids es)
    held_ids-cons (hold now new peer payload candidate) es = omega arith
    held_ids-cons (redeem_code at_sweep now raw owner target) es = omega arith
    held_ids-cons (revoke_code raw) es = omega arith
    held_ids-cons (sweep now) es = omega arith

    run-spent :
        (events : List PairEvent) (w : World)
        → spent (run parse empty id_before events w) ≤ times id (held_ids events) + spent w
    unfolding run
    run-spent [] w = omega arith
    run-spent (e ∷ es) w =
        omega
          (arith, run-spent es (step parse empty id_before e w), step-spent e w, held_ids-cons e es)

-- Whatever calls are made and in whatever order, a message is replayed at most as often as it was held, which is
-- once: two redemptions never replay the same message, nor does one after a revocation or a sweep, and a message
-- that was replayed is not held any more.
pub run-replays {ℓ} :
    {P : Type ℓ} (parse : String → Option P) (empty : P) (id_before : String → String → Bool)
    (groups : List String) (events : List PairEvent) (id : String)
    → times id (run parse empty id_before events (empty_world groups)).replayed
        + times_held id (run parse empty id_before events (empty_world groups)).db.pending_messages
      ≤ times id (held_ids events)
run-replays parse empty id_before groups events id =
    omega (arith, run-spent id parse empty id_before events (empty_world groups))
