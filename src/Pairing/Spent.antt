-- ===== src/Pairing/Spent.antt =====
-- src/v2-access.ts: a code that was redeemed stays so, whatever calls come after.
use nanoclaw_github_copilot.Base.{
  ℕ, ◌≡◌, refl, subst, ap, ◌∙◌, String, Bool, true, false, Option, none, some, is_some, List, [],
  ◌∷◌, ◌++◌, ltb, arith, if_elim, inl, inr, Bool-cases,
}
use nanoclaw_github_copilot.Mounts.Strings.{Text, same}
use nanoclaw_github_copilot.Mounts.Roots.{same-eq}
use nanoclaw_github_copilot.Pairing.{normalize_pairing_code}
use nanoclaw_github_copilot.Pairing.Store.{
  Peer, PairingCode, PairDb, is_stale, unexpired_codes, swept, live_code, with_message, with_minted,
  with_existing, mint, hold_message_for_pairing, HoldOutcome, sweep_expired,
}
use nanoclaw_github_copilot.Pairing.Redeem.{
  RedeemResult, find_code, mark_redeemed, redeem_found, redeemed_db, redeem, group_known, either,
  without_code, revoke_found, revoke, RevokeResult,
}
use nanoclaw_github_copilot.Pairing.Events.{
  PairEvent, hold, redeem_code, revoke_code, sweep, World, held_db, step, run,
}

pub find_code-unexpired :
    (now : ℕ) (code : Text) (codes : List PairingCode) (row : PairingCode)
    → find_code code codes ≡ some row
    → is_stale now row ≡ false
    → find_code code (unexpired_codes now codes) ≡ some row
unfolding find_code unexpired_codes
find_code-unexpired now code [] row h s = absurd (cc h)
find_code-unexpired now code (c ∷ cs) row h s =
    ground (arith, h, s, find_code-unexpired now code cs row)

-- The code has a row of the peer that was redeemed.
pub record Used (peer : Peer) (code : Text) (db : PairDb) : Type 0 where
  pub row : PairingCode
  pub of_peer : row.peer ≡ peer
  pub found : find_code code db.pairing_codes ≡ some row
  pub spent : is_some row.redeemed_at ≡ true

find_code-append :
    (code : Text) (codes more : List PairingCode) (row : PairingCode)
    → find_code code codes ≡ some row
    → find_code code (codes ++ more) ≡ some row
unfolding find_code
find_code-append code [] more row h = absurd (cc h)
find_code-append code (c ∷ cs) more row h = ground (arith, h, find_code-append code cs more row)

find_code-without :
    (code gone : Text) (codes : List PairingCode)
    → (gone ≡ code → ⊥)
    → find_code code (without_code gone codes) ≡ find_code code codes
unfolding find_code without_code
find_code-without code gone [] n = refl
find_code-without code gone (c ∷ cs) n =
    ground (arith, find_code-without code gone cs n, same-eq c.code code, same-eq c.code gone, n)

-- The row of a code after another code, or this one, was marked.
record Marked (code : Text) (row : PairingCode) (codes : List PairingCode) : Type 0 where
  after : PairingCode
  found : find_code code codes ≡ some after
  same_peer : after.peer ≡ row.peer
  spent : is_some after.redeemed_at ≡ true

find_code-Marked :
    (now : ℕ) (code other : Text) (codes : List PairingCode) (row : PairingCode)
    → find_code code codes ≡ some row
    → is_some row.redeemed_at ≡ true
    → Marked code row (mark_redeemed now other codes)
unfolding find_code mark_redeemed
find_code-Marked now code other [] row h s = absurd (cc h)
find_code-Marked now code other (c ∷ cs) row h s = elim (Bool-cases (same c.code code)) [
  | inl e ↦ own e (ground (arith, h, e)) (same c.code other) refl
  | inr e ↦
      let m = find_code-Marked now code other cs row (ground (arith, h, e)) s in
      record {
        after = m.after;
        found = ground (arith, e, m.found);
        same_peer = m.same_peer;
        spent = m.spent;
      }
]
  where
    own :
        same c.code code ≡ true
        → c ≡ row
        → (b : Bool) → same c.code other ≡ b
        → Marked code row (mark_redeemed now other (c ∷ cs))
    own e k true b = record {
      after = record c { redeemed_at = some now };
      found = ground (arith, e, b);
      same_peer = ap (λ (r : PairingCode). r.peer) k;
      spent = refl;
    }
    own e k false b = record {
      after = c;
      found = ground (arith, e, b);
      same_peer = ap (λ (r : PairingCode). r.peer) k;
      spent = ap (λ (r : PairingCode). is_some r.redeemed_at) k ∙ s;
    }

module _ (peer : Peer) (code : Text) where
  swept-Used : (now : ℕ) (db : PairDb) → Used peer code db → Used peer code (swept now db)
  unfolding swept
  swept-Used now db u = record {
    row = u.row;
    of_peer = u.of_peer;
    found = find_code-unexpired now code db.pairing_codes u.row u.found (ground (arith, u.spent));
    spent = u.spent;
  }

  hold-Used :
      (now : ℕ) (id payload : String) (other : Peer) (candidate : ℕ → Text) (db : PairDb)
      → Used peer code db
      → Used peer code (held_db (hold_message_for_pairing now id other payload candidate db))
  unfolding hold_message_for_pairing
  hold-Used now id payload other candidate db u =
      by_live (live_code now other (swept now db).pairing_codes)
    where
      stored : PairDb
      stored = with_message now id other payload db

      kept : Used peer code stored
      kept =
          let v = swept-Used now db u in
          record { row = v.row; of_peer = v.of_peer; found = v.found; spent = v.spent }

      minted : (fresh : Text) → Used peer code (held_db (with_minted now id other stored fresh))
      minted fresh =
          if_elim (λ (o : HoldOutcome). Used peer code (held_db o)) (same fresh []) (λ _. kept)
            (λ _. record {
              row = kept.row;
              of_peer = kept.of_peer;
              found = find_code-append code stored.pairing_codes _ kept.row kept.found;
              spent = kept.spent;
            })

      by_live :
          (live : Option PairingCode)
          → Used peer code (held_db (with_existing now id other candidate stored live))
      by_live (some existing) = kept
      by_live none = minted (mint 5 0 candidate stored.pairing_codes)

  revoke-Used : (raw : Text) (db : PairDb) → Used peer code db → Used peer code (revoke raw db).0
  unfolding revoke
  revoke-Used raw db u = by_row (find_code gone db.pairing_codes) refl
    where
      gone : Text
      gone = normalize_pairing_code raw

      differs :
          (row : PairingCode)
          → find_code gone db.pairing_codes ≡ some row
          → is_some row.redeemed_at ≡ false
          → gone ≡ code
          → ⊥
      differs row e unused g =
          let f : find_code code db.pairing_codes ≡ some row =
            subst (λ (c : Text). find_code c db.pairing_codes ≡ some row) g e in
          absurd (ground (arith, f, u.found, u.spent, unused))

      by_row :
          (row : Option PairingCode)
          → find_code gone db.pairing_codes ≡ row
          → Used peer code (revoke_found gone row db).0
      by_row none e = u
      by_row (some row) e =
          if_elim (λ (r : PairDb × RevokeResult). Used peer code r.0) (is_some row.redeemed_at)
            (λ _. u)
            (λ unused. record {
              row = u.row;
              of_peer = u.of_peer;
              found = find_code-without code gone db.pairing_codes (differs row e unused) ∙ u.found;
              spent = u.spent;
            })

  module _ {ℓ} {P : Type ℓ} (parse : String → Option P) (empty : P)
      (id_before : String → String → Bool) where
    redeem-kept :
        (at_sweep now : ℕ) (raw : Text) (owner : String) (target : Option String) (db : PairDb)
        → Used peer code db
        → Used peer code (redeem parse empty id_before at_sweep now raw owner target db).0
    unfolding redeem
    redeem-kept at_sweep now raw owner target db u = by_row (find_code other fresh.pairing_codes)
      where
        other : Text
        other = normalize_pairing_code raw

        fresh : PairDb
        fresh = swept at_sweep db

        kept : Used peer code fresh
        kept = swept-Used at_sweep db u

        marked :
            (agent : Option String) (of : Peer)
            → Used peer code (redeemed_db now other owner agent of fresh)
        marked agent of =
            let m =
              find_code-Marked now code other fresh.pairing_codes kept.row kept.found kept.spent in
            record {
              row = m.after;
              of_peer = m.same_peer ∙ kept.of_peer;
              found = m.found;
              spent = m.spent;
            }

        Q : PairDb × RedeemResult P → Type 0
        Q r = Used peer code r.0

        by_row :
            (row : Option PairingCode)
            → Q (redeem_found parse empty id_before now other owner target row fresh)
        by_row none = kept
        by_row (some row) =
            if_elim Q (is_some row.redeemed_at) (λ _. kept)
              (λ _.
                if_elim Q (ltb row.expires_at now) (λ _. kept)
                  (λ _.
                    if_elim Q (group_known fresh.agent_groups (either target row.target_agent_id))
                      (λ _. swept-Used now _ (marked (either target row.target_agent_id) row.peer))
                      (λ _. kept)))

step-Used {ℓ} :
    {P : Type ℓ} (parse : String → Option P) (empty : P) (id_before : String → String → Bool)
    (peer : Peer) (code : Text) (e : PairEvent) (w : World)
    → Used peer code w.db
    → Used peer code (step parse empty id_before e w).db
unfolding step sweep_expired
step-Used parse empty id_before peer code (hold now id other payload candidate) w u =
    hold-Used peer code now id payload other candidate w.db u
step-Used parse empty id_before peer code (redeem_code at_sweep now raw owner target) w u =
    redeem-kept peer code parse empty id_before at_sweep now raw owner target w.db u
step-Used parse empty id_before peer code (revoke_code raw) w u = revoke-Used peer code raw w.db u
step-Used parse empty id_before peer code (sweep now) w u = swept-Used peer code now w.db u

-- Any calls keep a redeemed code.
pub run-Used {ℓ} :
    {P : Type ℓ} (parse : String → Option P) (empty : P) (id_before : String → String → Bool)
    (peer : Peer) (code : Text) (events : List PairEvent) (w : World)
    → Used peer code w.db
    → Used peer code (run parse empty id_before events w).db
unfolding run
run-Used parse empty id_before peer code [] w u = u
run-Used parse empty id_before peer code (e ∷ es) w u =
    run-Used parse empty id_before peer code es (step parse empty id_before e w)
      (step-Used parse empty id_before peer code e w u)
