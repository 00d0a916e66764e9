-- ===== src/Pairing/Redeem.antt =====
-- src/v2-access.ts: `redeemPairingCode`, `revokePairingCode` and `listPendingPairings`. `parse` stands for
-- `JSON.parse` of a held payload, `none` where it throws, and `id_before` for SQLite's order of texts. A call
-- without a database is `none`.
use nanoclaw_github_copilot.Base.{
  ℕ, String, Bool, true, false, not, ◌&&◌, ◌||◌, Option, none, some, is_some, List, [], ◌∷◌, ltb,
  leb, ◌==◌, if◌then◌else◌, length, str_eq, includes,
}
use Prim.Native.String
use nanoclaw_github_copilot.Mounts.Strings.{Text, same}
use nanoclaw_github_copilot.Pairing.{normalize_pairing_code}
use nanoclaw_github_copilot.Pairing.Store.{
  Peer, PendingMessage, PairingCode, User, PairedRole, PairDb, is_peer, swept,
}

pub record Replay {ℓ} (P : Type ℓ) : Type ℓ where
  pub id : String
  pub payload : P
  pub received_at : ℕ

pub data RedeemResult {ℓ} (P : Type ℓ) : Type ℓ where
  db_missing unknown_code already_redeemed expired : RedeemResult P
  redeemed : Peer → List (Replay P) → RedeemResult P

-- `WHERE code = ?`
unfoldable pub find_code : Text → List PairingCode → Option PairingCode
unfolding same
find_code code [] = none
find_code code (c ∷ cs) =
    let later = find_code code cs in if same c.code code then some c else later

unfoldable pub mark_redeemed : ℕ → Text → List PairingCode → List PairingCode
unfolding same
mark_redeemed now code [] = []
mark_redeemed now code (c ∷ cs) =
    let later = mark_redeemed now code cs in
    if same c.code code then record c { redeemed_at = some now } ∷ later else c ∷ later

unfoldable pub add_user : User → List User → List User
add_user user [] = user ∷ []
add_user user (u ∷ us) =
    let later = add_user user us in if str_eq u.id user.id then u ∷ us else u ∷ later

abbrev same_group : Option String → Option String → Bool
same_group none none = true
same_group (some g) (some h) = str_eq g h
same_group _ _ = false

-- The key of user_roles, whose null group counts as one value by the index of migration 108.
unfoldable pub add_role : PairedRole → List PairedRole → List PairedRole
add_role role [] = role ∷ []
add_role role (r ∷ rs) =
    let later = add_role role rs in
    if str_eq r.user_id role.user_id && same_group r.agent_group_id role.agent_group_id
    then r ∷ rs
    else r ∷ later

unfoldable pub held_for : Peer → List PendingMessage → List PendingMessage
held_for peer [] = []
held_for peer (m ∷ ms) =
    let others = held_for peer ms in if is_peer m.peer peer then m ∷ others else others

unfoldable pub held_by_others : Peer → List PendingMessage → List PendingMessage
held_by_others peer [] = []
held_by_others peer (m ∷ ms) =
    let others = held_by_others peer ms in if is_peer m.peer peer then others else m ∷ others

-- `ORDER BY received_at ASC, id ASC`
abbrev pub precedes : (String → String → Bool) → PendingMessage → PendingMessage → Bool
precedes id_before m n =
    ltb m.received_at n.received_at || m.received_at == n.received_at && id_before m.id n.id

unfoldable pub insert_message :
    (String → String → Bool) → PendingMessage → List PendingMessage → List PendingMessage
insert_message id_before m [] = m ∷ []
insert_message id_before m (n ∷ ns) =
    let later = insert_message id_before m ns in
    if precedes id_before m n then m ∷ n ∷ ns else n ∷ later

unfoldable pub by_arrival : (String → String → Bool) → List PendingMessage → List PendingMessage
unfolding insert_message
by_arrival id_before [] = []
by_arrival id_before (m ∷ ms) = insert_message id_before m (by_arrival id_before ms)

abbrev parsed {ℓ} : {P : Type ℓ} → P → Option P → P
parsed empty none = empty
parsed empty (some payload) = payload

-- `targetAgentId ?? row.target_agent_id ?? null`
abbrev pub either {ℓ} : {A : Type ℓ} → Option A → Option A → Option A
either none other = other
either (some a) other = some a

-- The foreign key of user_roles: `INSERT OR IGNORE` still throws for an unknown group.
abbrev pub group_known : List String → Option String → Bool
group_known groups none = true
group_known groups (some g) = includes groups g

unfoldable pub paired_user_id : Peer → String
paired_user_id peer = String.◌++◌ peer.channel_type (String.◌++◌ ":" peer.peer_id)

-- The rows after the transaction that redeems a code.
abbrev pub redeemed_db : ℕ → Text → String → Option String → Peer → PairDb → PairDb
redeemed_db now code owner agent peer db = record db {
  pairing_codes = mark_redeemed now code db.pairing_codes;
  users =
      add_user (record { id = paired_user_id peer; display_name = none; created_at = now })
        (add_user (record { id = owner; display_name = some owner; created_at = now }) db.users);
  user_roles =
      add_role
        (record {
          user_id = paired_user_id peer;
          agent_group_id = agent;
          granted_by = owner;
          granted_at = now;
        })
        db.user_roles;
  pending_messages = held_by_others peer db.pending_messages;
}

module _ {ℓ} {P : Type ℓ} (parse : String → Option P) (empty : P)
    (id_before : String → String → Bool) where
  abbrev pub replay_of : PendingMessage → Replay P
  replay_of m = record {
    id = m.id;
    payload = parsed empty (parse m.payload_json);
    received_at = m.received_at;
  }

  unfoldable pub replays : List PendingMessage → List (Replay P)
  replays [] = []
  replays (m ∷ ms) = replay_of m ∷ replays ms

  -- The transaction, and the sweep after it.
  abbrev pub redeem_row :
      ℕ → Text → String → Option String → PairingCode → PairDb → PairDb × RedeemResult P
  redeem_row now code owner target row db =
      if group_known db.agent_groups (either target row.target_agent_id)
      then (
        swept now (redeemed_db now code owner (either target row.target_agent_id) row.peer db),
        redeemed row.peer (replays (by_arrival id_before (held_for row.peer db.pending_messages))),
      )
      else (db, unknown_code)

  abbrev pub redeem_found :
      ℕ → Text → String → Option String → Option PairingCode → PairDb → PairDb × RedeemResult P
  redeem_found now code owner target none db = (db, unknown_code)
  redeem_found now code owner target (some row) db =
      if is_some row.redeemed_at
      then (db, already_redeemed)
      else if ltb row.expires_at now
      then (db, expired)
      else redeem_row now code owner target row db

  -- `redeemPairingCode` on a database: `at_sweep` is the instant of its sweep, `now` the one after it.
  unfoldable pub redeem : ℕ → ℕ → Text → String → Option String → PairDb → PairDb × RedeemResult P
  unfolding normalize_pairing_code find_code mark_redeemed add_user add_role held_by_others held_for
      by_arrival replays swept paired_user_id
  redeem at_sweep now raw_code owner target db =
      let fresh = swept at_sweep db in
      let code = normalize_pairing_code raw_code in
      redeem_found now code owner target (find_code code fresh.pairing_codes) fresh

  abbrev in_db : Option PairDb → (PairDb → PairDb × RedeemResult P) → Option PairDb × RedeemResult P
  in_db none f = (none, db_missing)
  in_db (some db) f = (some (f db).0, (f db).1)

  unfoldable pub redeem_pairing_code :
      ℕ → ℕ → Text → String → Option String → Option PairDb → Option PairDb × RedeemResult P
  unfolding redeem
  redeem_pairing_code at_sweep now raw_code owner target db =
      in_db db (redeem at_sweep now raw_code owner target)

pub data RevokeResult : Type 0 where
  no_db no_such_code was_redeemed : RevokeResult
  revoked : Peer → ℕ → RevokeResult

unfoldable pub without_code : Text → List PairingCode → List PairingCode
unfolding same
without_code code [] = []
without_code code (c ∷ cs) =
    let later = without_code code cs in if same c.code code then later else c ∷ later

abbrev pub revoke_found : Text → Option PairingCode → PairDb → PairDb × RevokeResult
revoke_found code none db = (db, no_such_code)
revoke_found code (some row) db = if is_some row.redeemed_at then (db, was_redeemed) else (
  record db {
    pending_messages = held_by_others row.peer db.pending_messages;
    pairing_codes = without_code code db.pairing_codes;
  },
  revoked row.peer (length (held_for row.peer db.pending_messages)),
)

unfoldable pub revoke : Text → PairDb → PairDb × RevokeResult
unfolding normalize_pairing_code find_code without_code held_by_others held_for
revoke raw_code db =
    let code = normalize_pairing_code raw_code in
    revoke_found code (find_code code db.pairing_codes) db

abbrev revoke_in : Text → Option PairDb → Option PairDb × RevokeResult
revoke_in raw_code none = (none, no_db)
revoke_in raw_code (some db) = (some (revoke raw_code db).0, (revoke raw_code db).1)

unfoldable pub revoke_pairing_code : Text → Option PairDb → Option PairDb × RevokeResult
unfolding revoke
revoke_pairing_code raw_code db = revoke_in raw_code db

pub record PendingPairing : Type 0 where
  pub code : Text
  pub peer : Peer
  pub created_at : ℕ
  pub expires_at : ℕ
  pub message_count : ℕ

abbrev pairing_of : List PendingMessage → PairingCode → PendingPairing
pairing_of messages c = record {
  code = c.code;
  peer = c.peer;
  created_at = c.created_at;
  expires_at = c.expires_at;
  message_count = length (held_for c.peer messages);
}

-- `ORDER BY created_at ASC`
unfoldable pub insert_pairing : PendingPairing → List PendingPairing → List PendingPairing
insert_pairing p [] = p ∷ []
insert_pairing p (q ∷ qs) =
    let later = insert_pairing p qs in
    if leb p.created_at q.created_at then p ∷ q ∷ qs else q ∷ later

unfoldable pub open_pairings : ℕ → List PendingMessage → List PairingCode → List PendingPairing
unfolding insert_pairing held_for
open_pairings now messages [] = []
open_pairings now messages (c ∷ cs) =
    let others = open_pairings now messages cs in
    if not (is_some c.redeemed_at) && ltb now c.expires_at
    then insert_pairing (pairing_of messages c) others
    else others

abbrev list_in : ℕ → ℕ → Option PairDb → Option PairDb × List PendingPairing
list_in at_sweep now none = (none, [])
list_in at_sweep now (some db) =
    let fresh = swept at_sweep db in
    (some fresh, open_pairings now fresh.pending_messages fresh.pairing_codes)

-- `listPendingPairings`
unfoldable pub list_pending_pairings : ℕ → ℕ → Option PairDb → Option PairDb × List PendingPairing
unfolding swept open_pairings
list_pending_pairings at_sweep now db = list_in at_sweep now db
