-- ===== src/Pairing/Store.antt =====
-- src/v2-access.ts: the tables of the pairing flow, `sweepExpired`, and `holdMessageForPairing`.
-- Instants are milliseconds, which order as the ISO texts of the rows do. `payload_json` stands for the
-- text that `JSON.stringify` makes of a payload. The tables exist.
use nanoclaw_github_copilot.Base.{
  ℕ, zero, suc, ◌+◌, ◌-◌, ◌*◌, String, Bool, true, false, not, ◌&&◌, Option, none, some, is_some,
  List, [], ◌∷◌, ◌++◌, ltb, if◌then◌else◌, length, str_eq,
}
use nanoclaw_github_copilot.Mounts.Strings.{Text, same}
use nanoclaw_github_copilot.Pairing.{normalize_pairing_code, format_code}

-- `channel_type`, `account_key` and `peer_id`, the columns that name a peer.
pub record Peer : Type 0 where
  pub channel_type : String
  pub account_key : String
  pub peer_id : String

pub record PendingMessage : Type 0 where
  pub id : String
  pub peer : Peer
  pub payload_json : String
  pub received_at : ℕ
  pub expires_at : ℕ

pub record PairingCode : Type 0 where
  pub code : Text
  pub peer : Peer
  pub target_agent_id : Option String
  pub created_at : ℕ
  pub expires_at : ℕ
  pub redeemed_at : Option ℕ

pub record User : Type 0 where
  pub id : String
  pub display_name : Option String
  pub created_at : ℕ

-- A row of user_roles with the role 'paired'.
pub record PairedRole : Type 0 where
  pub user_id : String
  pub agent_group_id : Option String
  pub granted_by : String
  pub granted_at : ℕ

pub record PairDb : Type 0 where
  pub pending_messages : List PendingMessage
  pub pairing_codes : List PairingCode
  pub users : List User
  pub user_roles : List PairedRole
  pub agent_groups : List String

abbrev pub pairing_hold_ttl_ms : ℕ
pairing_hold_ttl_ms = 24 * 60 * 60 * 1000

-- `channel_type = ? AND account_key = ? AND peer_id = ?`
abbrev pub is_peer : Peer → Peer → Bool
is_peer p q =
    str_eq p.channel_type q.channel_type
    && str_eq p.account_key q.account_key
    && str_eq p.peer_id q.peer_id

-- `DELETE FROM pending_messages WHERE expires_at < now`
unfoldable pub unexpired_messages : ℕ → List PendingMessage → List PendingMessage
unexpired_messages now [] = []
unexpired_messages now (m ∷ ms) =
    let kept = unexpired_messages now ms in if ltb m.expires_at now then kept else m ∷ kept

-- `DELETE FROM pairing_codes WHERE expires_at < now AND redeemed_at IS NULL`
abbrev pub is_stale : ℕ → PairingCode → Bool
is_stale now c = ltb c.expires_at now && not (is_some c.redeemed_at)

unfoldable pub unexpired_codes : ℕ → List PairingCode → List PairingCode
unexpired_codes now [] = []
unexpired_codes now (c ∷ cs) =
    let kept = unexpired_codes now cs in if is_stale now c then kept else c ∷ kept

-- `sweepExpired`: the tables, and the number of rows that it removed.
unfoldable pub swept : ℕ → PairDb → PairDb
unfolding unexpired_messages unexpired_codes
swept now db = record db {
  pending_messages = unexpired_messages now db.pending_messages;
  pairing_codes = unexpired_codes now db.pairing_codes;
}

unfoldable pub sweep_expired : ℕ → PairDb → PairDb × ℕ
unfolding swept
sweep_expired now db = (
  swept now db,
  length db.pending_messages
      - length (unexpired_messages now db.pending_messages)
      + (length db.pairing_codes - length (unexpired_codes now db.pairing_codes)),
)

-- `redeemed_at IS NULL AND expires_at > now`, of the peer
abbrev pub is_live : ℕ → Peer → PairingCode → Bool
is_live now peer c = is_peer c.peer peer && not (is_some c.redeemed_at) && ltb now c.expires_at

abbrev newer : PairingCode → Option PairingCode → PairingCode
newer c none = c
newer c (some d) = if ltb c.created_at d.created_at then d else c

-- `ORDER BY created_at DESC LIMIT 1`
unfoldable pub live_code : ℕ → Peer → List PairingCode → Option PairingCode
live_code now peer [] = none
live_code now peer (c ∷ cs) =
    let later = live_code now peer cs in if is_live now peer c then some (newer c later) else later

unfoldable pub has_code : Text → List PairingCode → Bool
unfolding same
has_code code [] = false
has_code code (c ∷ cs) = let later = has_code code cs in if same c.code code then true else later

-- The attempts that are left, from the number of one on; `candidate` is what `generatePairingCode` answers to
-- each. The empty text is the code of the source that finds none.
unfoldable pub mint : ℕ → ℕ → (ℕ → Text) → List PairingCode → Text
unfolding normalize_pairing_code has_code
mint zero attempt candidate codes = []
mint (suc left) attempt candidate codes =
    let later = mint left (suc attempt) candidate codes in
    let normalized = normalize_pairing_code (candidate attempt) in
    if has_code normalized codes then later else normalized

pub record HoldMessageResult : Type 0 where
  pub pending_id : String
  pub new_code : Bool
  pub code : Text
  pub code_shown : Text
  pub expires_at : ℕ

-- The call returns, or throws as it finds no code; the held message stays in the table then.
pub data HoldOutcome : Type 0 where
  held : PairDb → HoldMessageResult → HoldOutcome
  mint_failed : PairDb → HoldOutcome

abbrev pub hold_result : String → Bool → Text → ℕ → HoldMessageResult
hold_result pending_id new_code code expires_at = record {
  pending_id = pending_id;
  new_code = new_code;
  code = code;
  code_shown = format_code code;
  expires_at = expires_at;
}

abbrev pub new_row : Peer → Text → ℕ → PairingCode
new_row peer code now = record {
  code = code;
  peer = peer;
  target_agent_id = none;
  created_at = now;
  expires_at = now + pairing_hold_ttl_ms;
  redeemed_at = none;
}

abbrev pub with_minted : ℕ → String → Peer → PairDb → Text → HoldOutcome
with_minted now pending_id peer db code =
    if same code []
    then mint_failed db
    else held (record db { pairing_codes = db.pairing_codes ++ new_row peer code now ∷ [] })
        (hold_result pending_id true code (now + pairing_hold_ttl_ms))

abbrev pub with_existing :
    ℕ → String → Peer → (ℕ → Text) → PairDb → Option PairingCode → HoldOutcome
with_existing now pending_id peer candidate db (some existing) =
    held db (hold_result pending_id false existing.code (now + pairing_hold_ttl_ms))
with_existing now pending_id peer candidate db none =
    with_minted now pending_id peer db (mint 5 0 candidate db.pairing_codes)

abbrev pub pending_row : ℕ → String → Peer → String → PendingMessage
pending_row now pending_id peer payload_json = record {
  id = pending_id;
  peer = peer;
  payload_json = payload_json;
  received_at = now;
  expires_at = now + pairing_hold_ttl_ms;
}

-- The tables after steps 1 and 2: the sweep and the insertion of the message.
abbrev pub with_message : ℕ → String → Peer → String → PairDb → PairDb
with_message now pending_id peer payload_json db =
    let fresh = swept now db in
    record fresh {
      pending_messages =
          fresh.pending_messages ++ pending_row now pending_id peer payload_json ∷ [];
    }

-- `holdMessageForPairing`; `pending_id` is what `randomUUID` answers.
unfoldable pub hold_message_for_pairing :
    ℕ → String → Peer → String → (ℕ → Text) → PairDb → HoldOutcome
unfolding swept live_code mint same format_code
hold_message_for_pairing now pending_id peer payload_json candidate db =
    let stored = with_message now pending_id peer payload_json db in
    with_existing now pending_id peer candidate stored (live_code now peer stored.pairing_codes)
