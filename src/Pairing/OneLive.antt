-- ===== src/Pairing/OneLive.antt =====
-- src/v2-access.ts: the live codes of a peer.
use nanoclaw_github_copilot.Base.{
  ℕ, suc, ◌+◌, ◌≡◌, refl, ◌≤◌, inl, inr, String, Bool, true, Option, none, some, is_some, List, [],
  ◌∷◌, ◌++◌, ltb, arith, if◌then◌else◌, if_elim, Bool-cases, eq_iff,
}
use nanoclaw_github_copilot.Mounts.Strings.{Text, same}
use nanoclaw_github_copilot.Pairing.{normalize_pairing_code}
use nanoclaw_github_copilot.Pairing.Store.{
  Peer, PairingCode, PairDb, is_peer, unexpired_codes, swept, is_live, live_code, mint, new_row,
  HoldOutcome, with_existing, with_message, hold_message_for_pairing, sweep_expired,
}
use nanoclaw_github_copilot.Pairing.Redeem.{
  RevokeResult, RedeemResult, find_code, mark_redeemed, without_code, redeemed_db, redeem_found,
  redeem, revoke_found, revoke, group_known, either,
}
use nanoclaw_github_copilot.Pairing.Events.{
  PairEvent, hold, redeem_code, revoke_code, sweep, World, held_db, ends, Follows, InOrder,
  last_instant, step, run, empty_world,
}

-- How many codes of the peer are not redeemed and expire after the instant.
unfoldable pub count_live : ℕ → Peer → List PairingCode → ℕ
count_live now peer [] = 0
count_live now peer (c ∷ cs) =
    let others = count_live now peer cs in if is_live now peer c then suc others else others

abbrev pub OneLive : ℕ → PairDb → Type 0
OneLive now db = (peer : Peer) → count_live now peer db.pairing_codes ≤ 1

module _ (now : ℕ) (peer : Peer) where
  count_live_later :
      (earlier : ℕ) (codes : List PairingCode)
      → earlier ≤ now
      → count_live now peer codes ≤ count_live earlier peer codes
  unfolding count_live
  count_live_later earlier [] l = omega arith
  count_live_later earlier (c ∷ cs) l = ground (arith, l, count_live_later earlier cs l)

  count_live-unexpired :
      (at_sweep : ℕ) (codes : List PairingCode)
      → count_live now peer (unexpired_codes at_sweep codes) ≤ count_live now peer codes
  unfolding count_live unexpired_codes
  count_live-unexpired at_sweep [] = omega arith
  count_live-unexpired at_sweep (c ∷ cs) = ground (arith, count_live-unexpired at_sweep cs)

  count_live-mark :
      (at_time : ℕ) (code : Text) (codes : List PairingCode)
      → count_live now peer (mark_redeemed at_time code codes) ≤ count_live now peer codes
  unfolding count_live mark_redeemed
  count_live-mark at_time code [] = omega arith
  count_live-mark at_time code (c ∷ cs) = ground (arith, count_live-mark at_time code cs)

  count_live-without :
      (code : Text) (codes : List PairingCode)
      → count_live now peer (without_code code codes) ≤ count_live now peer codes
  unfolding count_live without_code
  count_live-without code [] = omega arith
  count_live-without code (c ∷ cs) = ground (arith, count_live-without code cs)

  count_live-snoc :
      (codes : List PairingCode) (c : PairingCode)
      → count_live now peer (codes ++ c ∷ [])
        ≡ count_live now peer codes + (if is_live now peer c then 1 else 0)
  unfolding count_live
  count_live-snoc [] c = ground arith
  count_live-snoc (d ∷ cs) c = ground (arith, count_live-snoc cs c)

  live_code-none :
      (codes : List PairingCode) → live_code now peer codes ≡ none → count_live now peer codes ≡ 0
  unfolding count_live live_code
  live_code-none [] h = refl
  live_code-none (c ∷ cs) h = ground (arith, h, live_code-none cs)

swept-OneLive :
    (before now : ℕ) (db : PairDb) → before ≤ now → OneLive before db → OneLive now (swept now db)
unfolding swept
swept-OneLive before now db l h peer = omega (
  arith,
  count_live-unexpired now peer now db.pairing_codes,
  count_live_later now peer before db.pairing_codes l,
  h peer,
)

pub same_peer : (p q r : Peer) → is_peer p q ≡ true → is_peer r p ≡ is_peer r q
same_peer p q r h = ground (
  arith,
  h,
  eq_iff p.channel_type q.channel_type,
  eq_iff p.account_key q.account_key,
  eq_iff p.peer_id q.peer_id,
)

count_live-peer :
    (now : ℕ) (p q : Peer) (codes : List PairingCode)
    → is_peer p q ≡ true
    → count_live now p codes ≡ count_live now q codes
unfolding count_live
count_live-peer now p q [] h = refl
count_live-peer now p q (c ∷ cs) h =
    ground (arith, same_peer p q c.peer h, count_live-peer now p q cs h)

snoc-OneLive :
    (now : ℕ) (peer : Peer) (code : Text) (db : PairDb)
    → OneLive now db
    → live_code now peer db.pairing_codes ≡ none
    → OneLive now (record db { pairing_codes = db.pairing_codes ++ new_row peer code now ∷ [] })
snoc-OneLive now peer code db h n other =
    let more = count_live-snoc now other db.pairing_codes (new_row peer code now) in
    elim (Bool-cases (is_peer peer other)) [
      | inl e ↦ ground (
        arith,
        more,
        count_live-peer now peer other db.pairing_codes e,
        live_code-none now peer db.pairing_codes n,
      )
      | inr e ↦ ground (arith, more, e, h other)
    ]

hold-OneLive :
    (before now : ℕ) (pending_id : String) (peer : Peer) (payload : String) (candidate : ℕ → Text)
    (db : PairDb)
    → before ≤ now
    → OneLive before db
    → OneLive now (held_db (hold_message_for_pairing now pending_id peer payload candidate db))
unfolding hold_message_for_pairing
hold-OneLive before now pending_id peer payload candidate db l h =
    by_live (live_code now peer stored.pairing_codes) refl
  where
    stored : PairDb
    stored = with_message now pending_id peer payload db

    kept : OneLive now stored
    kept = swept-OneLive before now db l h

    by_live :
        (existing : Option PairingCode)
        → live_code now peer stored.pairing_codes ≡ existing
        → OneLive now (held_db (with_existing now pending_id peer candidate stored existing))
    by_live (some existing) e = kept
    by_live none e =
        let code = mint 5 0 candidate stored.pairing_codes in
        if_elim (λ (r : HoldOutcome). OneLive now (held_db r)) (same code []) (λ _. kept)
          (λ _. snoc-OneLive now peer code stored kept e)

revoke-OneLive :
    (now : ℕ) (raw : Text) (db : PairDb) → OneLive now db → OneLive now (revoke raw db).0
unfolding revoke
revoke-OneLive now raw db h = by_row (find_code code db.pairing_codes)
  where
    code : Text
    code = normalize_pairing_code raw

    by_row : (row : Option PairingCode) → OneLive now (revoke_found code row db).0
    by_row none = h
    by_row (some row) =
        if_elim (λ (r : PairDb × RevokeResult). OneLive now r.0) (is_some row.redeemed_at) (λ _. h)
          (λ _ peer. omega (arith, count_live-without now peer code db.pairing_codes, h peer))

module _ {ℓ} {P : Type ℓ} (parse : String → Option P) (empty : P)
    (id_before : String → String → Bool) where
  redeem-OneLive :
      (before at_sweep now : ℕ) (raw : Text) (owner : String) (target : Option String) (db : PairDb)
      → before ≤ at_sweep
      → at_sweep ≤ now
      → OneLive before db
      → OneLive now (redeem parse empty id_before at_sweep now raw owner target db).0
  unfolding redeem
  redeem-OneLive before at_sweep now raw owner target db l m h =
      by_row (find_code code fresh.pairing_codes)
    where
      code : Text
      code = normalize_pairing_code raw

      fresh : PairDb
      fresh = swept at_sweep db

      kept : OneLive now fresh
      kept peer = omega (
        arith,
        count_live_later now peer at_sweep fresh.pairing_codes m,
        swept-OneLive before at_sweep db l h peer,
      )

      marked :
          (agent : Option String) (peer : Peer)
          → OneLive now (redeemed_db now code owner agent peer fresh)
      marked agent peer other =
          omega (arith, count_live-mark now other now code fresh.pairing_codes, kept other)

      by_row :
          (row : Option PairingCode)
          → OneLive now (redeem_found parse empty id_before now code owner target row fresh).0
      by_row none = kept
      by_row (some row) =
          let Q : PairDb × RedeemResult P → Type 0 = λ r. OneLive now r.0 in
          if_elim Q (is_some row.redeemed_at) (λ _. kept)
            λ _.
              if_elim Q (ltb row.expires_at now) (λ _. kept)
                λ _.
                  if_elim Q (group_known fresh.agent_groups (either target row.target_agent_id))
                    (λ _.
                      let agent = either target row.target_agent_id in
                      swept-OneLive now now (redeemed_db now code owner agent row.peer fresh)
                        (omega arith) (marked agent row.peer))
                    (λ _. kept)

  step-OneLive :
      (before : ℕ) (e : PairEvent) (w : World)
      → Follows before e
      → OneLive before w.db
      → OneLive (ends before e) (step parse empty id_before e w).db
  unfolding step sweep_expired
  step-OneLive before (hold now id peer payload candidate) w f h =
      hold-OneLive before now id peer payload candidate w.db f h
  step-OneLive before (redeem_code at_sweep now raw owner target) w f h =
      redeem-OneLive before at_sweep now raw owner target w.db f.0 f.1 h
  step-OneLive before (revoke_code raw) w f h = revoke-OneLive before raw w.db h
  step-OneLive before (sweep now) w f h = swept-OneLive before now w.db f h

  run-kept :
      (before : ℕ) (events : List PairEvent) (w : World)
      → InOrder before events
      → OneLive before w.db
      → OneLive (last_instant before events) (run parse empty id_before events w).db
  unfolding run
  run-kept before [] w o h = h
  run-kept before (e ∷ es) w o h =
      run-kept (ends before e) es (step parse empty id_before e w) o.1
        (step-OneLive before e w o.0 h)

  -- Whatever calls are made, in the order of the clock, no peer ever has two codes that are not redeemed and
  -- expire after the instant of the last call.
  pub run-OneLive :
      (groups : List String) (events : List PairEvent)
      → InOrder 0 events
      → OneLive (last_instant 0 events) (run parse empty id_before events (empty_world groups)).db
  unfolding count_live
  run-OneLive groups events o = run-kept 0 events (empty_world groups) o (λ peer. omega arith)
