-- ===== src/Pairing/Tests.antt =====
-- src/v2-access.ts and src/pairing/code.ts: runs and witnesses.
use nanoclaw_github_copilot.Base.{
  ℕ, ◌+◌, ◌≡◌, refl, ◌≤◌, ◌<◌, String, Bool, true, false, Option, none, some, List, [], ◌∷◌, ◌++◌,
  arith,
}
use nanoclaw_github_copilot.Mounts.Strings.{Text, same}
use nanoclaw_github_copilot.Gate.{trim, trim_start, trim_end, to_lower_case}
use nanoclaw_github_copilot.Pairing.{
  pairing_alphabet, char_at, pick_chars, take, drop, generate_pairing_code, to_upper_case,
  strip_dashes, normalize_pairing_code, format_code,
}
use nanoclaw_github_copilot.Pairing.Store.{
  Peer, PairingCode, PairDb, unexpired_messages, unexpired_codes, swept, live_code, has_code, mint,
  hold_message_for_pairing,
}
use nanoclaw_github_copilot.Pairing.Redeem.{
  redeemed, already_redeemed, expired, unknown_code, find_code, mark_redeemed, add_user, add_role,
  held_for, held_by_others, insert_message, by_arrival, paired_user_id, replays, redeem,
}
use nanoclaw_github_copilot.Pairing.Allowed.{maybe_hold}
use nanoclaw_github_copilot.Pairing.Events.{
  PairEvent, hold, redeem_code, revoke_code, sweep, World, replay_ids, step, run, empty_world,
}
use nanoclaw_github_copilot.Pairing.RoundTrip.{normalize-generate}
use nanoclaw_github_copilot.Pairing.OneLive.{OneLive, run-OneLive}
use nanoclaw_github_copilot.Pairing.Mailbox.{boxes_of, spec_run}
use nanoclaw_github_copilot.Pairing.Runs.{run-refines}
use nanoclaw_github_copilot.Pairing.Replays.{times, times_held, held_ids, run-replays}
use nanoclaw_github_copilot.Pairing.Answers.{redeem_once, redeem-expired}

abbrev m1 : String
m1 = "m1"

abbrev m2 : String
m2 = "m2"

abbrev owner : String
owner = "telegram:1"

abbrev stranger : Peer
stranger = record { channel_type = "telegram"; account_key = "default"; peer_id = "7" }

abbrev parse : String → Option String
parse text = some text

abbrev no_order : String → String → Bool
no_order a b = true

abbrev picks : List ℕ
picks = 0 ∷ 1 ∷ 2 ∷ 3 ∷ 8 ∷ 9 ∷ 10 ∷ 29 ∷ []

-- `2345-ABCZ`
abbrev candidate : ℕ → Text
candidate attempt = b'2' ∷ b'3' ∷ b'4' ∷ b'5' ∷ b'-' ∷ b'A' ∷ b'B' ∷ b'C' ∷ b'Z' ∷ []

generated : generate_pairing_code picks ≡ candidate 0
unfolding generate_pairing_code pick_chars char_at pairing_alphabet take drop
generated = refl

-- Two messages are held; the code is typed in small letters; it is typed again.
abbrev typed : Text
typed = b' ' ∷ b'2' ∷ b'3' ∷ b'4' ∷ b'5' ∷ b'-' ∷ b'a' ∷ b'b' ∷ b'c' ∷ b'z' ∷ []

abbrev calls : List PairEvent
calls =
    hold 10 m1 stranger "hello" candidate
    ∷ hold 20 m2 stranger "again" candidate
    ∷ redeem_code 30 30 typed owner none
    ∷ redeem_code 40 40 typed owner none
    ∷ []

replayed_once : (run parse "" no_order calls (empty_world [])).replayed ≡ m1 ∷ m2 ∷ []
unfolding run step hold_message_for_pairing swept unexpired_messages unexpired_codes live_code mint
    has_code same normalize_pairing_code trim trim_start trim_end to_upper_case strip_dashes
    format_code take drop redeem find_code mark_redeemed add_user add_role held_for held_by_others
    insert_message by_arrival paired_user_id replays replay_ids
replayed_once = refl

-- A code that expires at 15.
abbrev short_lived : PairDb
short_lived = record {
  pending_messages = [];
  pairing_codes =
      record {
        code = b'A' ∷ [];
        peer = stranger;
        target_agent_id = none;
        created_at = 1;
        expires_at = 15;
        redeemed_at = none;
      }
      ∷ [];
  users = [];
  user_roles = [];
  agent_groups = [];
}

in_time :
    (redeem parse "" no_order 12 14 (b'a' ∷ []) owner none short_lived).1 ≡ redeemed stranger []
unfolding redeem swept unexpired_messages unexpired_codes same normalize_pairing_code trim
    trim_start trim_end to_upper_case strip_dashes find_code held_for by_arrival replays
in_time = refl

too_late : (redeem parse "" no_order 12 20 (b'a' ∷ []) owner none short_lived).1 ≡ expired
unfolding redeem swept unexpired_messages unexpired_codes same normalize_pairing_code trim
    trim_start trim_end to_upper_case strip_dashes find_code held_for by_arrival replays
too_late = refl

swept_away : (redeem parse "" no_order 20 20 (b'a' ∷ []) owner none short_lived).1 ≡ unknown_code
unfolding redeem swept unexpired_messages unexpired_codes same normalize_pairing_code trim
    trim_start trim_end to_upper_case strip_dashes find_code held_for by_arrival replays
swept_away = refl

letters : normalize_pairing_code (b'A' ∷ []) ≡ normalize_pairing_code (b'a' ∷ [])
unfolding normalize_pairing_code trim trim_start trim_end to_upper_case strip_dashes
letters = refl

normalize-generate_example :
    (format_code (normalize_pairing_code (generate_pairing_code picks))
      ≡ generate_pairing_code picks)
    × (normalize_pairing_code ((b' ' ∷ []) ++ (to_lower_case (generate_pairing_code picks) ++ []))
        ≡ normalize_pairing_code (generate_pairing_code picks))
normalize-generate_example =
    normalize-generate picks (b' ' ∷ []) [] refl
      (
        omega arith,
        (
          omega arith,
          (
            omega arith,
            (omega arith, (omega arith, (omega arith, (omega arith, (omega arith, tt))))),
          ),
        ),
      )
      (refl, tt) tt

run-OneLive_example : OneLive 40 (run parse "" no_order calls (empty_world [])).db
run-OneLive_example =
    run-OneLive parse "" no_order [] calls
      (omega arith, (omega arith, ((omega arith, omega arith), ((omega arith, omega arith), tt))))

run-replays_example :
    times m1 (run parse "" no_order calls (empty_world [])).replayed
      + times_held m1 (run parse "" no_order calls (empty_world [])).db.pending_messages
    ≤ times m1 (held_ids calls)
run-replays_example = run-replays parse "" no_order [] calls m1

abbrev told : World
told = record { db = short_lived; replayed = [] }

-- The stranger writes again, the owner revokes the code, and the tables are swept.
abbrev afterwards : List PairEvent
afterwards =
    redeem_code 12 14 (b'a' ∷ []) owner none
    ∷ hold 20 m2 stranger "hi" candidate
    ∷ revoke_code (b'A' ∷ [])
    ∷ sweep 25
    ∷ []

redeem_once_example :
    ((redeem parse "" no_order 30 31
        (b'A' ∷ [])
        owner
        none
        (run parse "" no_order afterwards told).db).1
      ≡ already_redeemed)
    × (maybe_hold 31 m2 stranger "hi" candidate false
          (some owner)
          (some [])
          (run parse "" no_order afterwards told).db
        ≡ none)
redeem_once_example =
    redeem_once parse "" no_order 12 14 (b'a' ∷ []) owner none told stranger []
      (hold 20 m2 stranger "hi" candidate ∷ revoke_code (b'A' ∷ []) ∷ sweep 25 ∷ []) 30 31
      (b'A' ∷ []) owner m2 "hi" none candidate false (some owner) (some []) in_time letters

redeem-expired_example :
    (row : PairingCode) × (find_code
        (normalize_pairing_code (b'a' ∷ []))
        (swept 12 short_lived).pairing_codes
      ≡ some row)
    × (12 ≤ row.expires_at)
    × (row.expires_at < 20)
redeem-expired_example =
    redeem-expired parse "" no_order 12 20 (b'a' ∷ []) owner none short_lived too_late

run-refines_example :
    (taken : List (Option Peer)) × (boxes_of (run parse "" no_order calls (empty_world []))
      ≡ spec_run calls taken ((λ q. []), []))
run-refines_example = run-refines parse "" no_order [] calls (omega arith, (omega arith, tt))
