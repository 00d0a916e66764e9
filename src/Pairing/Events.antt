-- ===== src/Pairing/Events.antt =====
-- src/v2-access.ts: the calls of the pairing flow as steps, with the ids of the messages that were replayed so far.
use nanoclaw_github_copilot.Base.{ℕ, ◌≤◌, String, Bool, Option, List, [], ◌∷◌, ◌++◌}
use nanoclaw_github_copilot.Mounts.Strings.{Text}
use nanoclaw_github_copilot.Pairing.Store.{
  Peer, PairDb, HoldOutcome, held, mint_failed, hold_message_for_pairing, sweep_expired,
}
use nanoclaw_github_copilot.Pairing.Redeem.{Replay, RedeemResult, redeemed, redeem, revoke}

-- Each call with the instants that it reads and what it is given.
pub data PairEvent : Type 0 where
  hold : ℕ → String → Peer → String → (ℕ → Text) → PairEvent
  redeem_code : ℕ → ℕ → Text → String → Option String → PairEvent
  revoke_code : Text → PairEvent
  sweep : ℕ → PairEvent

pub record World : Type 0 where
  pub db : PairDb
  pub replayed : List String

-- The tables that a call of `holdMessageForPairing` leaves.
abbrev pub held_db : HoldOutcome → PairDb
held_db (held db result) = db
held_db (mint_failed db) = db

unfoldable pub replay_ids {ℓ} : {P : Type ℓ} → List (Replay P) → List String
replay_ids [] = []
replay_ids (r ∷ rs) = r.id ∷ replay_ids rs

abbrev pub ids_of {ℓ} : {P : Type ℓ} → RedeemResult P → List String
ids_of (redeemed peer rs) = replay_ids rs
ids_of _ = []

abbrev pub after_redeem {ℓ} : {P : Type ℓ} → World → PairDb × RedeemResult P → World
after_redeem w r = record { db = r.0; replayed = w.replayed ++ ids_of r.1 }

-- No table has a row, but for the agent groups.
abbrev pub empty_world : List String → World
empty_world groups = record {
  db = record {
    pending_messages = [];
    pairing_codes = [];
    users = [];
    user_roles = [];
    agent_groups = groups;
  };
  replayed = [];
}

module _ {ℓ} {P : Type ℓ} (parse : String → Option P) (empty : P)
    (id_before : String → String → Bool) where
  unfoldable pub step : PairEvent → World → World
  unfolding hold_message_for_pairing redeem revoke sweep_expired replay_ids
  step (hold now id peer payload candidate) w = record w {
    db = held_db (hold_message_for_pairing now id peer payload candidate w.db);
  }
  step (redeem_code at_sweep now raw owner target) w =
      after_redeem w (redeem parse empty id_before at_sweep now raw owner target w.db)
  step (revoke_code raw) w = record w { db = (revoke raw w.db).0 }
  step (sweep now) w = record w { db = (sweep_expired now w.db).0 }

  unfoldable pub run : List PairEvent → World → World
  unfolding step
  run [] w = w
  run (e ∷ es) w = run es (step e w)

-- The clock does not go back, from one call to the next and inside a call.
abbrev pub ends : ℕ → PairEvent → ℕ
ends before (hold now id peer payload candidate) = now
ends before (redeem_code at_sweep now raw owner target) = now
ends before (revoke_code raw) = before
ends before (sweep now) = now

abbrev pub Follows : ℕ → PairEvent → Type 0
Follows before (hold now id peer payload candidate) = before ≤ now
Follows before (redeem_code at_sweep now raw owner target) = (before ≤ at_sweep) × (at_sweep ≤ now)
Follows before (revoke_code raw) = Unit
Follows before (sweep now) = before ≤ now

abbrev pub InOrder : ℕ → List PairEvent → Type 0
InOrder before [] = Unit
InOrder before (e ∷ es) = Follows before e × InOrder (ends before e) es

abbrev pub last_instant : ℕ → List PairEvent → ℕ
last_instant before [] = before
last_instant before (e ∷ es) = last_instant (ends before e) es
