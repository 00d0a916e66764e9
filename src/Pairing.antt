-- ===== src/Pairing.antt =====
-- src/pairing/code.ts: pairing codes as texts. A text is the list of its characters; upper case is that of
-- ASCII letters. `randomInt` is a parameter: the eight numbers below 30 that it answers.
pub mod Store
pub mod Redeem
pub mod Events
pub mod Allowed
pub mod RoundTrip
pub mod OneLive
pub mod Replays
pub mod Spent
pub mod Answers
pub mod Mailbox
pub mod Refinement
pub mod Runs
pub mod Tests
use nanoclaw_github_copilot.Base.{
  ℕ, zero, suc, ◌-◌, Bool, true, false, not, ◌&&◌, ◌||◌, List, [], ◌∷◌, ◌++◌, map, leb, ◌==◌,
  if◌then◌else◌, length,
}
use nanoclaw_github_copilot.Mounts.Strings.{Text}
use nanoclaw_github_copilot.Gate.{trim}

-- `PAIRING_ALPHABET`
unfoldable pub pairing_alphabet : Text
pairing_alphabet =
    b'2' ∷ b'3' ∷ b'4' ∷ b'5' ∷ b'6' ∷ b'7' ∷ b'8' ∷ b'9' ∷ b'A' ∷ b'B' ∷ b'C' ∷ b'D' ∷ b'E' ∷ b'F'
    ∷ b'G' ∷ b'H' ∷ b'J' ∷ b'K' ∷ b'M' ∷ b'N' ∷ b'P' ∷ b'Q' ∷ b'R' ∷ b'S' ∷ b'T' ∷ b'V' ∷ b'W'
    ∷ b'X' ∷ b'Y' ∷ b'Z' ∷ []

-- `PAIRING_ALPHABET[n]`; past the end, which `randomInt` does not reach, there is no character.
unfoldable pub char_at : ℕ → Text → Text
char_at n [] = []
char_at zero (c ∷ s) = c ∷ []
char_at (suc n) (c ∷ s) = char_at n s

unfoldable pub pick_chars : List ℕ → Text
unfolding char_at pairing_alphabet
pick_chars [] = []
pick_chars (n ∷ ns) = char_at n pairing_alphabet ++ pick_chars ns

-- `text.slice(0, n)` and `text.slice(n)`
unfoldable pub take : ℕ → Text → Text
take zero s = []
take (suc n) [] = []
take (suc n) (c ∷ s) = c ∷ take n s

unfoldable pub drop : ℕ → Text → Text
drop zero s = s
drop (suc n) [] = []
drop (suc n) (c ∷ s) = drop n s

abbrev pub grouped : Text → Text
grouped chars = take 4 chars ++ (b'-' ∷ drop 4 chars)

-- `generatePairingCode`
unfoldable pub generate_pairing_code : List ℕ → Text
unfolding pick_chars take drop
generate_pairing_code random_ints = grouped (pick_chars random_ints)

abbrev pub upper_char : ℕ → ℕ
upper_char c = if leb b'a' c && leb c b'z' then c - 32 else c

unfoldable pub to_upper_case : Text → Text
to_upper_case [] = []
to_upper_case (c ∷ s) = upper_char c ∷ to_upper_case s

-- `text.replace(/-/g, '')`
unfoldable pub strip_dashes : Text → Text
strip_dashes [] = []
strip_dashes (c ∷ s) = let rest = strip_dashes s in if c == b'-' then rest else c ∷ rest

unfoldable pub normalize_pairing_code : Text → Text
unfolding trim to_upper_case strip_dashes
normalize_pairing_code input = strip_dashes (to_upper_case (trim input))

-- `formatCode` of src/v2-access.ts
unfoldable pub format_code : Text → Text
unfolding take drop
format_code normalized = if length normalized == 8 then grouped normalized else normalized
