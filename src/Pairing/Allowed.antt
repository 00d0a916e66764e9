-- ===== src/Pairing/Allowed.antt =====
-- src/v2-access.ts: `isUserConfigAllowed` and `maybeHoldForPairing`. The configuration has the shape that the code
-- reads; a part that is missing is an empty list.
use nanoclaw_github_copilot.Base.{
  ℕ, String, Bool, false, not, ◌&&◌, ◌||◌, Option, none, some, is_some, List, [], ◌∷◌,
  if◌then◌else◌, str_eq,
}
use Prim.Native.String
use nanoclaw_github_copilot.Mounts.Strings.{Text}
use nanoclaw_github_copilot.Pairing.Store.{
  Peer, PairingCode, PairDb, is_peer, HoldOutcome, hold_message_for_pairing,
}

-- `allowFrom` of the account, and of each of its groups.
pub record Account : Type 0 where
  pub allow_from : List String
  pub groups : List (List String)

-- `role_bindings` are the keys of `roleBindings`.
pub record ChannelDef : Type 0 where
  pub channel_key : String
  pub role_bindings : List String
  pub accounts : List Account

unfoldable pub channel_key_for_type : String → String
channel_key_for_type channel_key = if str_eq channel_key "tg" then "telegram" else channel_key

-- `${channelType}:${raw}`
unfoldable pub qualified : String → String → String
qualified channel_type raw = String.◌++◌ channel_type (String.◌++◌ ":" raw)

unfoldable pub names_user : String → List String → String → Bool
unfolding qualified
names_user channel_type [] user_id = false
names_user channel_type (raw ∷ raws) user_id =
    str_eq (qualified channel_type raw) user_id || names_user channel_type raws user_id

unfoldable pub groups_name : String → List (List String) → String → Bool
unfolding names_user
groups_name channel_type [] user_id = false
groups_name channel_type (group ∷ groups) user_id =
    names_user channel_type group user_id || groups_name channel_type groups user_id

unfoldable pub accounts_name : String → List Account → String → Bool
unfolding names_user groups_name
accounts_name channel_type [] user_id = false
accounts_name channel_type (a ∷ accounts) user_id =
    names_user channel_type a.allow_from user_id
    || groups_name channel_type a.groups user_id
    || accounts_name channel_type accounts user_id

unfoldable pub channels_name : List ChannelDef → String → Bool
unfolding channel_key_for_type names_user accounts_name
channels_name [] user_id = false
channels_name (ch ∷ channels) user_id =
    names_user (channel_key_for_type ch.channel_key) ch.role_bindings user_id
    || accounts_name (channel_key_for_type ch.channel_key) ch.accounts user_id
    || channels_name channels user_id

-- `isUserConfigAllowed`; a configuration that is no object is `none`.
unfoldable pub is_user_config_allowed : String → Option (List ChannelDef) → Bool
unfolding channels_name
is_user_config_allowed user_id none = false
is_user_config_allowed user_id (some channels) =
    if str_eq user_id "" then false else channels_name channels user_id

-- `redeemed_at IS NOT NULL`, of the peer
unfoldable pub has_redeemed : Peer → List PairingCode → Bool
has_redeemed peer [] = false
has_redeemed peer (c ∷ cs) = is_peer c.peer peer && is_some c.redeemed_at || has_redeemed peer cs

abbrev pub or_default_key : Option String → String
or_default_key none = "default"
or_default_key (some key) = if str_eq key "" then "default" else key

-- The peer of an event.
abbrev pub event_peer : String → Option String → String → Peer
event_peer channel_type account_key peer_id = record {
  channel_type = channel_type;
  account_key = or_default_key account_key;
  peer_id = peer_id;
}

abbrev pub must_hold : Bool → Option String → Option (List ChannelDef) → Peer → PairDb → Bool
must_hold is_group none config peer db = false
must_hold is_group (some user_id) config peer db =
    not is_group
    && is_user_config_allowed user_id config
    && not (has_redeemed peer db.pairing_codes)

-- `maybeHoldForPairing` on a database: `none` where it returns null.
unfoldable pub maybe_hold :
    ℕ
    → String
    → Peer
    → String
    → (ℕ → Text)
    → Bool
    → Option String
    → Option (List ChannelDef)
    → PairDb
    → Option HoldOutcome
unfolding hold_message_for_pairing is_user_config_allowed has_redeemed
maybe_hold now pending_id peer payload_json candidate is_group user_id config db =
    if must_hold is_group user_id config peer db
    then some (hold_message_for_pairing now pending_id peer payload_json candidate db)
    else none

abbrev when_db : Option PairDb → (PairDb → Option HoldOutcome) → Option HoldOutcome
when_db none f = none
when_db (some db) f = f db

unfoldable pub maybe_hold_for_pairing :
    ℕ
    → String
    → String
    → Option String
    → String
    → String
    → (ℕ → Text)
    → Bool
    → Option String
    → Option (List ChannelDef)
    → Option PairDb
    → Option HoldOutcome
unfolding maybe_hold
maybe_hold_for_pairing now pending_id channel_type account_key peer_id payload_json candidate
      is_group user_id config db =
    when_db db (
      maybe_hold now pending_id (event_peer channel_type account_key peer_id) payload_json candidate
        is_group user_id config)
