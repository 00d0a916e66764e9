-- ===== src/Pairing/Refinement.antt =====
-- src/v2-access.ts: the tables of the pairing flow refine the boxes of the peers.
use nanoclaw_github_copilot.Base.{
  ℕ, ◌≡◌, refl, ap, ◌∙◌, String, Bool, Option, none, some, is_some, List, [], ◌∷◌, ◌++◌, ltb,
  if◌then◌else◌, if_elim,
}
use mathlib.Core.Path.{fun_ext}
use nanoclaw_github_copilot.Mounts.Strings.{Text, same}
use nanoclaw_github_copilot.Pairing.{normalize_pairing_code}
use nanoclaw_github_copilot.Pairing.Store.{
  Peer, PendingMessage, PairingCode, PairDb, is_peer, unexpired_messages, swept, sweep_expired,
  live_code, mint, HoldOutcome, with_existing, with_message, pending_row, hold_message_for_pairing,
}
use nanoclaw_github_copilot.Pairing.Redeem.{
  RedeemResult, RevokeResult, redeemed, unknown_code, already_redeemed, expired, find_code,
  held_for, held_by_others, by_arrival, replays, redeemed_db, redeem_found, redeem, revoke_found,
  revoke, group_known, either,
}
use nanoclaw_github_copilot.Pairing.Events.{
  PairEvent, hold, redeem_code, revoke_code, sweep, World, held_db, ids_of, replay_ids,
  after_redeem, step,
}
use nanoclaw_github_copilot.Pairing.Mailbox.{
  Boxes, message_ids, emptied, expire, put, handed, spec_step, boxes_of, held_for-unexpired,
  held_for-snoc, held_for-others, Ordered, Ordered-held_for, Ordered-unexpired, by_arrival-Ordered,
  replays-ids,
}

-- The tables refine the boxes, with the replayed ids, if some box was emptied.
abbrev pub Refines : PairEvent → Boxes × List String → World → Type 0
Refines e before w = (taken : Option Peer) × (boxes_of w ≡ spec_step e taken before)

same_boxes :
    (a b : Boxes) (xs ys : List String)
    → a ≡ b
    → xs ≡ ys
    → ◌≡◌ {A = Boxes × List String} (a, xs) (b, ys)
same_boxes a b xs ys h k = ap (λ (c : Boxes). (c, xs)) h ∙ ap (λ (zs : List String). (b, zs)) k

module _ {ℓ} {P : Type ℓ} (parse : String → Option P) (empty : P)
    (id_before : String → String → Bool) where
  pub hold-Refines :
      (now : ℕ) (id : String) (peer : Peer) (payload : String) (candidate : ℕ → Text) (w : World)
      → Refines
          (hold now id peer payload candidate)
          (boxes_of w)
          (step parse empty id_before (hold now id peer payload candidate) w)
  unfolding step hold_message_for_pairing swept
  hold-Refines now id peer payload candidate w =
      (none, same_boxes _ _ w.replayed w.replayed (fun_ext (λ q. box q)) refl)
    where
      stored : PairDb
      stored = with_message now id peer payload w.db

      message : PendingMessage
      message = pending_row now id peer payload

      put_in :
          (q : Peer)
          → held_for q stored.pending_messages ≡ put message (expire now (boxes_of w).0) q
      put_in q =
          held_for-snoc q (unexpired_messages now w.db.pending_messages) message
          ∙ ap (λ (ms : List PendingMessage). ms ++ (if is_peer peer q then message ∷ [] else []))
              (held_for-unexpired q now w.db.pending_messages)

      untouched :
          (existing : Option PairingCode)
          → (held_db (with_existing now id peer candidate stored existing)).pending_messages
            ≡ stored.pending_messages
      untouched (some existing) = refl
      untouched none =
          if_elim (λ (r : HoldOutcome). (held_db r).pending_messages ≡ stored.pending_messages)
            (same (mint 5 0 candidate stored.pairing_codes) []) (λ _. refl) (λ _. refl)

      box :
          (q : Peer)
          → held_for q
              (held_db (
                with_existing now id peer candidate stored
                  (live_code now peer stored.pairing_codes))).pending_messages
            ≡ put message (expire now (boxes_of w).0) q
      box q = ap (held_for q) (untouched (live_code now peer stored.pairing_codes)) ∙ put_in q

  pub sweep-Refines :
      (now : ℕ) (w : World)
      → Refines (sweep now) (boxes_of w) (step parse empty id_before (sweep now) w)
  unfolding step sweep_expired swept
  sweep-Refines now w = (
    none,
    same_boxes _ _ w.replayed w.replayed
        (fun_ext (λ q. held_for-unexpired q now w.db.pending_messages)) refl,
  )

  pub revoke-Refines :
      (raw : Text) (w : World)
      → Refines (revoke_code raw) (boxes_of w) (step parse empty id_before (revoke_code raw) w)
  unfolding step revoke
  revoke-Refines raw w = by_row (find_code (normalize_pairing_code raw) w.db.pairing_codes)
    where
      by_row :
          (row : Option PairingCode)
          → Refines
              (revoke_code raw)
              (boxes_of w)
              (record w { db = (revoke_found (normalize_pairing_code raw) row w.db).0 })
      by_row none = (none, refl)
      by_row (some row) =
          if_elim
            (λ (r : PairDb × RevokeResult).
              Refines (revoke_code raw) (boxes_of w) (record w { db = r.0 }))
            (is_some row.redeemed_at) (λ _. (none, refl))
            (λ _. (
              some row.peer,
              same_boxes _ _ w.replayed w.replayed
                  (fun_ext (λ q. held_for-others row.peer q w.db.pending_messages)) refl,
            ))

  pub redeem-Refines :
      (at_sweep now : ℕ) (raw : Text) (owner : String) (target : Option String) (w : World)
      → Ordered 0 w.db.pending_messages
      → Refines
          (redeem_code at_sweep now raw owner target)
          (boxes_of w)
          (step parse empty id_before (redeem_code at_sweep now raw owner target) w)
  unfolding step redeem swept
  redeem-Refines at_sweep now raw owner target w o = by_row (find_code code fresh.pairing_codes)
    where
      code : Text
      code = normalize_pairing_code raw

      fresh : PairDb
      fresh = swept at_sweep w.db

      Fine : PairDb × RedeemResult P → Type 0
      Fine r = Refines (redeem_code at_sweep now raw owner target) (boxes_of w) (after_redeem w r)

      ms : List PendingMessage
      ms = w.db.pending_messages

      redeemed_box :
          (peer : Peer) (agent : Option String)
          → Fine (
            swept now (redeemed_db now code owner agent peer fresh),
            redeemed peer (
                replays parse empty id_before
                  (by_arrival id_before (held_for peer fresh.pending_messages))),
          )
      redeemed_box peer agent = (
        some peer,
        same_boxes
            (λ q.
              held_for q
                (unexpired_messages now (held_by_others peer (unexpired_messages at_sweep ms))))
            (expire now (emptied (some peer) (expire at_sweep (boxes_of w).0)))
            (w.replayed
              ++ replay_ids (
                  replays parse empty id_before
                    (by_arrival id_before (held_for peer (unexpired_messages at_sweep ms)))))
            (w.replayed ++ handed (some peer) (expire at_sweep (boxes_of w).0))
            (fun_ext (λ q.
              held_for-unexpired q now (held_by_others peer (unexpired_messages at_sweep ms))
              ∙ ap (unexpired_messages now) (
                  held_for-others peer q (unexpired_messages at_sweep ms)
                  ∙ ap (λ (l : List PendingMessage). if is_peer peer q then [] else l)
                      (held_for-unexpired q at_sweep ms))))
            (ap (λ (ids : List String). w.replayed ++ ids)
              (replays-ids parse empty id_before
                  (by_arrival id_before (held_for peer (unexpired_messages at_sweep ms)))
                ∙ ap message_ids (
                    by_arrival-Ordered id_before 0 (held_for peer (unexpired_messages at_sweep ms))
                      (Ordered-held_for peer 0 (unexpired_messages at_sweep ms)
                        (Ordered-unexpired at_sweep 0 ms o))
                    ∙ held_for-unexpired peer at_sweep ms))),
      )

      failed : (r : RedeemResult P) → ids_of r ≡ [] → Fine (fresh, r)
      failed r e = (
        none,
        same_boxes _ _ (w.replayed ++ ids_of r) (w.replayed ++ [])
            (fun_ext (λ q. held_for-unexpired q at_sweep w.db.pending_messages))
            (ap (λ (ids : List String). w.replayed ++ ids) e),
      )

      by_row :
          (row : Option PairingCode)
          → Fine (redeem_found parse empty id_before now code owner target row fresh)
      by_row none = failed unknown_code refl
      by_row (some row) =
          if_elim Fine (is_some row.redeemed_at) (λ _. failed already_redeemed refl)
            λ _.
              if_elim Fine (ltb row.expires_at now) (λ _. failed expired refl)
                λ _.
                  if_elim Fine (group_known fresh.agent_groups (either target row.target_agent_id))
                    (λ _. redeemed_box row.peer (either target row.target_agent_id))
                    (λ _. failed unknown_code refl)
