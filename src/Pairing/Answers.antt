-- ===== src/Pairing/Answers.antt =====
-- src/v2-access.ts: what `redeemPairingCode` answers, and what follows from a code that was redeemed.
use nanoclaw_github_copilot.Base.{
  ℕ, ◌≡◌, refl, sym, subst, ap, ◌≤◌, ◌<◌, String, Bool, true, false, Option, none, some, is_some,
  List, [], ◌∷◌, ltb, arith, if_elim, eq_refl,
}
use nanoclaw_github_copilot.Mounts.Strings.{Text}
use nanoclaw_github_copilot.Pairing.{normalize_pairing_code}
use nanoclaw_github_copilot.Pairing.Store.{
  Peer, PairingCode, PairDb, is_peer, is_stale, unexpired_codes, swept,
}
use nanoclaw_github_copilot.Pairing.Redeem.{
  Replay, RedeemResult, redeemed, already_redeemed, expired, find_code, mark_redeemed, redeem_found,
  redeem, group_known, either,
}
use nanoclaw_github_copilot.Pairing.Events.{PairEvent, redeem_code, World, step, run}
use nanoclaw_github_copilot.Pairing.Spent.{find_code-unexpired, Used, run-Used}
use nanoclaw_github_copilot.Pairing.Allowed.{ChannelDef, has_redeemed, maybe_hold}

find_code-mark :
    (now : ℕ) (code : Text) (codes : List PairingCode) (row : PairingCode)
    → find_code code codes ≡ some row
    → find_code code (mark_redeemed now code codes) ≡ some (record row { redeemed_at = some now })
unfolding find_code mark_redeemed
find_code-mark now code [] row h = absurd (cc h)
find_code-mark now code (c ∷ cs) row h = ground (arith, h, find_code-mark now code cs row)

has_redeemed-found :
    (code : Text) (codes : List PairingCode) (row : PairingCode)
    → find_code code codes ≡ some row
    → is_some row.redeemed_at ≡ true
    → has_redeemed row.peer codes ≡ true
unfolding find_code has_redeemed
has_redeemed-found code [] row h u = absurd (cc h)
has_redeemed-found code (c ∷ cs) row h u =
    ground (arith, h, u, same_row, has_redeemed-found code cs row)
  where
    same_row : c ≡ row → is_peer c.peer row.peer ≡ true
    same_row e =
        subst (λ (r : PairingCode). is_peer c.peer r.peer ≡ true) e
          (ground (
            arith,
            eq_refl c.peer.channel_type,
            eq_refl c.peer.account_key,
            eq_refl c.peer.peer_id,
          ))

find_code-stale :
    (now : ℕ) (code : Text) (codes : List PairingCode) (row : PairingCode)
    → find_code code (unexpired_codes now codes) ≡ some row
    → is_stale now row ≡ false
unfolding find_code unexpired_codes
find_code-stale now code [] row h = absurd (cc h)
find_code-stale now code (c ∷ cs) row h = ground (arith, h, find_code-stale now code cs row)

abbrev answered_peer {ℓ} : {P : Type ℓ} → Peer → RedeemResult P → Peer
answered_peer other (redeemed peer messages) = peer
answered_peer other _ = other

module _ {ℓ} {P : Type ℓ} (parse : String → Option P) (empty : P)
    (id_before : String → String → Bool) where
  redeem_found-Used :
      (now : ℕ) (code : Text) (owner : String) (target : Option String) (row : Option PairingCode)
      (db : PairDb) (peer : Peer) (messages : List (Replay P))
      → find_code code db.pairing_codes ≡ row
      → (redeem_found parse empty id_before now code owner target row db).1 ≡ redeemed peer messages
      → Used peer code (redeem_found parse empty id_before now code owner target row db).0
  unfolding swept
  redeem_found-Used now code owner target none db peer messages f = λ h. absurd (cc h)
  redeem_found-Used now code owner target (some row) db peer messages f =
      let Q : PairDb × RedeemResult P → Type ℓ =
        λ r. r.1 ≡ redeemed peer messages → Used peer code r.0 in
      if_elim Q (is_some row.redeemed_at) (λ _ h. absurd (cc h))
        λ _.
          if_elim Q (ltb row.expires_at now) (λ _ h. absurd (cc h))
            λ _.
              if_elim Q (group_known db.agent_groups (either target row.target_agent_id))
                (λ _ h. record {
                  row = record row { redeemed_at = some now };
                  of_peer = ap (answered_peer peer) h;
                  found =
                      find_code-unexpired now code (mark_redeemed now code db.pairing_codes)
                        (record row { redeemed_at = some now })
                        (find_code-mark now code db.pairing_codes row f) (ground arith);
                  spent = refl;
                })
                (λ _ h. absurd (cc h))

  redeem-Used :
      (at_sweep now : ℕ) (raw : Text) (owner : String) (target : Option String) (db : PairDb)
      (peer : Peer) (messages : List (Replay P))
      → (redeem parse empty id_before at_sweep now raw owner target db).1 ≡ redeemed peer messages
      → Used peer
          (normalize_pairing_code raw)
          (redeem parse empty id_before at_sweep now raw owner target db).0
  unfolding redeem
  redeem-Used at_sweep now raw owner target db peer messages h =
      redeem_found-Used now (normalize_pairing_code raw) owner target
        (find_code (normalize_pairing_code raw) (swept at_sweep db).pairing_codes)
        (swept at_sweep db) peer messages refl h

  answered_again :
      (peer : Peer) (at_sweep now : ℕ) (raw : Text) (owner : String) (target : Option String)
      (db : PairDb)
      → Used peer (normalize_pairing_code raw) db
      → (redeem parse empty id_before at_sweep now raw owner target db).1 ≡ already_redeemed
  unfolding redeem swept
  answered_again peer at_sweep now raw owner target db u =
      rw
        (find_code-unexpired at_sweep (normalize_pairing_code raw) db.pairing_codes u.row u.found
          (ground (arith, u.spent)))
        (if_elim (λ (r : PairDb × RedeemResult P). r.1 ≡ already_redeemed)
          (is_some u.row.redeemed_at) (λ _. refl) (λ f. absurd (cc (f, u.spent))))

  not_held :
      (peer : Peer) (code : Text) (now : ℕ) (id payload : String) (candidate : ℕ → Text)
      (is_group : Bool) (user_id : Option String) (config : Option (List ChannelDef)) (db : PairDb)
      → Used peer code db
      → maybe_hold now id peer payload candidate is_group user_id config db ≡ none
  unfolding maybe_hold
  not_held peer code now id payload candidate is_group none config db u = refl
  not_held peer code now id payload candidate is_group (some user) config db u =
      ground (arith, marked)
    where
      marked : has_redeemed peer db.pairing_codes ≡ true
      marked =
          subst (λ (p : Peer). has_redeemed p db.pairing_codes ≡ true) u.of_peer
            (has_redeemed-found code db.pairing_codes u.row u.found u.spent)

  -- A code is redeemed once, whatever calls come after. If a redemption succeeds, then after any further holds,
  -- redemptions, revocations and sweeps: a redemption of the same code, however it is typed, by whom and when,
  -- answers that it was redeemed already; and a message of that peer is not held, since the device counts as
  -- confirmed.
  pub redeem_once :
      (at_sweep now : ℕ) (raw : Text) (owner : String) (target : Option String) (w : World)
      (peer : Peer) (messages : List (Replay P)) (events : List PairEvent) (at_later later : ℕ)
      (again : Text) (other id payload : String) (second : Option String) (candidate : ℕ → Text)
      (is_group : Bool) (user_id : Option String) (config : Option (List ChannelDef))
      → (redeem parse empty id_before at_sweep now raw owner target w.db).1 ≡ redeemed peer messages
      → normalize_pairing_code again ≡ normalize_pairing_code raw
      → ((redeem parse empty id_before at_later later again other second
            (run parse empty id_before (redeem_code at_sweep now raw owner target ∷ events) w).db).1
          ≡ already_redeemed)
        × (maybe_hold later id peer payload candidate is_group user_id config
              (run parse empty id_before (redeem_code at_sweep now raw owner target ∷ events) w).db
            ≡ none)
  unfolding run step
  redeem_once at_sweep now raw owner target w peer messages events at_later later again other id
        payload second candidate is_group user_id config h n =
      let u =
        run-Used parse empty id_before peer (normalize_pairing_code raw) events
          (step parse empty id_before (redeem_code at_sweep now raw owner target) w)
          (redeem-Used at_sweep now raw owner target w.db peer messages h) in
      (
        answered_again peer at_later later again other second _ (
            subst
              (λ (c : Text).
                Used peer c
                  (run parse empty id_before (redeem_code at_sweep now raw owner target ∷ events)
                    w).db)
              (sym n) u),
        not_held peer (normalize_pairing_code raw) later id payload candidate is_group user_id
            config _ u,
      )

  found_expired :
      (now : ℕ) (code : Text) (owner : String) (target : Option String) (row : Option PairingCode)
      (db : PairDb)
      → (redeem_found parse empty id_before now code owner target row db).1 ≡ expired
      → (r : PairingCode) × (row ≡ some r) × (is_some r.redeemed_at ≡ false) × (r.expires_at < now)
  found_expired now code owner target none db = λ h. absurd (cc h)
  found_expired now code owner target (some row) db =
      let Q : PairDb × RedeemResult P → Type ℓ = λ r.
        r.1 ≡ expired
        → (s : PairingCode) × (some row ≡ some s)
          × (is_some s.redeemed_at ≡ false)
          × (s.expires_at < now) in
      if_elim Q (is_some row.redeemed_at) (λ _ h. absurd (cc h))
        λ fresh.
          if_elim Q (ltb row.expires_at now) (λ late h. (row, refl, fresh, ground (arith, late)))
            λ _.
              if_elim Q (group_known db.agent_groups (either target row.target_agent_id))
                (λ _ h. absurd (cc h)) (λ _ h. absurd (cc h))

  -- The answer `expired` is given only for a code that expires between the sweep at the start of the call and
  -- the check after it: the code had not expired at the sweep, and has at the check.
  pub redeem-expired :
      (at_sweep now : ℕ) (raw : Text) (owner : String) (target : Option String) (db : PairDb)
      → (redeem parse empty id_before at_sweep now raw owner target db).1 ≡ expired
      → (row : PairingCode) × (find_code
            (normalize_pairing_code raw)
            (swept at_sweep db).pairing_codes
          ≡ some row)
        × (at_sweep ≤ row.expires_at)
        × (row.expires_at < now)
  unfolding redeem
  redeem-expired at_sweep now raw owner target db h =
      let code = normalize_pairing_code raw in
      let e =
        found_expired now code owner target (find_code code (swept at_sweep db).pairing_codes)
          (swept at_sweep db) h in
      (e.0, e.1, ground (arith, e.2, fresh e.0 e.1), e.3)
    where
      fresh :
          (row : PairingCode)
          → find_code (normalize_pairing_code raw) (swept at_sweep db).pairing_codes ≡ some row
          → is_stale at_sweep row ≡ false
      fresh row f =
          unfold swept in
          find_code-stale at_sweep (normalize_pairing_code raw) db.pairing_codes row f
