-- ===== src/Sweep.antt =====
-- src/host-sweep.ts with the rows of src/db/session-db.ts that it reads and writes.
-- Instants are milliseconds since the epoch; `date_parse` stands for `Date.parse` (`none` for NaN).
-- A text that the code walks is the list of its characters.
pub mod Clock
pub mod Decide
pub mod Reset
pub mod Session
pub mod Tests
use nanoclaw_github_copilot.Base.{
  ℕ, zero, suc, ◌+◌, ◌-◌, ◌*◌, ◌/◌, ◌^◌, max, String, Bool, true, false, not, ◌&&◌, ◌||◌, Option,
  none, some, List, [], ◌∷◌, ◌++◌, ltb, leb, ◌==◌, if◌then◌else◌, str_eq,
}

abbrev pub Text : Type 0
Text = List ℕ

unfoldable pub is_digit : ℕ → Bool
is_digit c = leb b'0' c && leb c b'9'

-- `[zZ]` somewhere in the text.
unfoldable pub has_z : Text → Bool
has_z [] = false
has_z (c ∷ s) = c == b'z' || c == b'Z' || has_z s

abbrev pub is_sign : ℕ → Bool
is_sign c = c == b'+' || c == b'-'

-- The text is all of `[+-]\d{2}:?\d{2}`.
unfoldable pub is_offset : Text → Bool
unfolding is_digit
is_offset (s ∷ a ∷ b ∷ c ∷ d ∷ []) =
    is_sign s && is_digit a && is_digit b && is_digit c && is_digit d
is_offset (s ∷ a ∷ b ∷ m ∷ c ∷ d ∷ []) =
    is_sign s && is_digit a && is_digit b && m == b':' && is_digit c && is_digit d
is_offset _ = false

-- `[+-]\d{2}:?\d{2}$`
unfoldable pub ends_with_offset : Text → Bool
unfolding is_offset
ends_with_offset [] = false
ends_with_offset (c ∷ s) = is_offset (c ∷ s) || ends_with_offset s

unfoldable pub has_zone : Text → Bool
unfolding has_z ends_with_offset
has_zone s = has_z s || ends_with_offset s

-- The text that `parseSqliteUtc` hands to `Date.parse`.
unfoldable pub as_utc : Text → Text
unfolding has_zone
as_utc s = if has_zone s then s else s ++ b'Z' ∷ []

unfoldable pub parse_sqlite_utc : (Text → Option ℕ) → Text → Option ℕ
unfolding as_utc
parse_sqlite_utc date_parse s = date_parse (as_utc s)

abbrev pub absolute_ceiling_ms : ℕ
absolute_ceiling_ms = 30 * 60 * 1000

abbrev pub claim_stuck_ms : ℕ
claim_stuck_ms = 60 * 1000

abbrev pub max_tries : ℕ
max_tries = 5

abbrev pub backoff_base_ms : ℕ
backoff_base_ms = 5000

pub record ContainerState : Type 0 where
  pub current_tool : Option String
  pub tool_declared_timeout_ms : Option ℕ

pub record ProcessingClaim : Type 0 where
  pub message_id : String
  pub status_changed : Text

pub data StuckDecision : Type 0 where
  ok : StuckDecision
  kill_ceiling : (heartbeat_age_ms ceiling_ms : ℕ) → StuckDecision
  kill_claim : (message_id : String) (claim_age_ms tolerance_ms : ℕ) → StuckDecision

abbrev pub is_tool : Option String → String → Bool
is_tool none name = false
is_tool (some t) name = str_eq t name

-- `bashTimeoutMs`
unfoldable pub bash_timeout_ms : Option ContainerState → Option ℕ
bash_timeout_ms none = none
bash_timeout_ms (some s) =
    if is_tool s.current_tool "Bash" then s.tool_declared_timeout_ms else none

abbrev pub or_zero : Option ℕ → ℕ
or_zero none = 0
or_zero (some n) = n

abbrev pub or_default : Option ℕ → ℕ → ℕ
or_default none d = d
or_default (some n) d = n

-- The verdict of the claim loop on one claim: is it past the tolerance with no sign of life since?
unfoldable pub is_stuck : ℕ → ℕ → ℕ → Option ℕ → Bool
is_stuck now heartbeat tolerance none = false
is_stuck now heartbeat tolerance (some claimed_at) =
    not (leb (now - claimed_at) tolerance) && not (ltb claimed_at heartbeat)

-- The claim loop of `decideStuckAction`. An instant in the future has age 0 here and a negative one
-- in the source; both are within any tolerance.
unfoldable pub scan_claims : (Text → Option ℕ) → ℕ → ℕ → ℕ → List ProcessingClaim → StuckDecision
unfolding is_stuck parse_sqlite_utc
scan_claims date_parse now heartbeat tolerance [] = ok
scan_claims date_parse now heartbeat tolerance (claim ∷ claims) =
    let claimed_at = parse_sqlite_utc date_parse claim.status_changed in
    if is_stuck now heartbeat tolerance claimed_at
    then kill_claim claim.message_id (now - or_zero claimed_at) tolerance
    else scan_claims date_parse now heartbeat tolerance claims

-- `decideStuckAction`
unfoldable pub decide_stuck_action :
    (Text → Option ℕ)
    → (now heartbeat_mtime_ms : ℕ) → Option ContainerState
    → List ProcessingClaim
    → (ceiling_ms claim_stuck : Option ℕ) → StuckDecision
unfolding bash_timeout_ms scan_claims
decide_stuck_action date_parse now heartbeat state claims ceiling_arg stuck_arg =
    let ceiling_base = or_default ceiling_arg absolute_ceiling_ms in
    let stuck_base = or_default stuck_arg claim_stuck_ms in
    let declared = or_zero (bash_timeout_ms state) in
    let ceiling = max ceiling_base declared in
    let tolerance = max stuck_base declared in
    if not (heartbeat == 0) && ltb 0 ceiling_base && ltb ceiling (now - heartbeat)
    then kill_ceiling (now - heartbeat) ceiling
    else if stuck_base == 0
    then ok
    else scan_claims date_parse now heartbeat tolerance claims

pub data MessageStatus : Type 0 where
  pending completed failed : MessageStatus

-- A row of `messages_in`: the columns that the sweep reads.
pub record MessageIn : Type 0 where
  pub id : String
  pub status : MessageStatus
  pub tries : ℕ
  pub process_after : Option ℕ
  pub trigger : Bool

pub data AckStatus : Type 0 where
  processing acked_completed acked_failed : AckStatus

-- A row of `processing_ack`.
pub record Ack : Type 0 where
  pub claim : ProcessingClaim
  pub ack : AckStatus

abbrev pub is_pending : MessageStatus → Bool
is_pending pending = true
is_pending _ = false

abbrev pub is_processing : AckStatus → Bool
is_processing processing = true
is_processing _ = false

-- `getProcessingClaims`
unfoldable pub get_processing_claims : List Ack → List ProcessingClaim
get_processing_claims [] = []
get_processing_claims (a ∷ acks) =
    let rest = get_processing_claims acks in if is_processing a.ack then a.claim ∷ rest else rest

-- `deleteOrphanProcessingClaims`
unfoldable pub delete_orphan_claims : List Ack → List Ack
delete_orphan_claims [] = []
delete_orphan_claims (a ∷ acks) =
    let rest = delete_orphan_claims acks in if is_processing a.ack then rest else a ∷ rest

-- `datetime('now', '+N seconds')`, which SQLite keeps to the second.
unfoldable pub seconds_from : ℕ → ℕ → ℕ
seconds_from now secs = (now / 1000 + secs) * 1000

abbrev pub in_future : ℕ → Option ℕ → Bool
in_future now none = false
in_future now (some t) = ltb now t

-- One round of the loop of `resetStuckProcessingRows` on the row that `getMessageForRetry` finds.
unfoldable pub reset_row : ℕ → MessageIn → MessageIn
unfolding seconds_from
reset_row now m =
    if in_future now m.process_after
    then m
    else if leb max_tries m.tries
    then record m { status = failed }
    else record m {
      tries = suc m.tries;
      process_after = some (seconds_from now (backoff_base_ms * 2 ^ m.tries / 1000));
    }

-- The row with this id, if it is pending, goes through `reset_row`; the key is `id`.
unfoldable pub reset_message : ℕ → String → List MessageIn → List MessageIn
unfolding reset_row
reset_message now id [] = []
reset_message now id (m ∷ ms) =
    if str_eq m.id id
    then (if is_pending m.status then reset_row now m else m) ∷ ms
    else m ∷ reset_message now id ms

unfoldable pub reset_claims : ℕ → List ProcessingClaim → List MessageIn → List MessageIn
unfolding reset_message
reset_claims now [] ms = ms
reset_claims now (c ∷ cs) ms = reset_claims now cs (reset_message now c.message_id ms)

pub record SessionDb : Type 0 where
  pub messages_in : List MessageIn
  pub acks : List Ack

-- `resetStuckProcessingRows`; `rw_ok` says whether outbound.db opens for writing.
unfoldable pub reset_stuck_processing_rows : ℕ → Bool → SessionDb → SessionDb
unfolding reset_claims get_processing_claims delete_orphan_claims
reset_stuck_processing_rows now rw_ok db = record {
  messages_in = reset_claims now (get_processing_claims db.acks) db.messages_in;
  acks = if rw_ok then delete_orphan_claims db.acks else db.acks;
}

-- `syncProcessingAcks` for one acknowledged id.
unfoldable pub complete_message : String → List MessageIn → List MessageIn
complete_message id [] = []
complete_message id (m ∷ ms) =
    if str_eq m.id id then record m { status = completed } ∷ ms else m ∷ complete_message id ms

unfoldable pub sync_processing_acks : List Ack → List MessageIn → List MessageIn
unfolding complete_message
sync_processing_acks [] ms = ms
sync_processing_acks (a ∷ acks) ms =
    sync_processing_acks acks
      (if is_processing a.ack then ms else complete_message a.claim.message_id ms)
