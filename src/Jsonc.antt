-- ===== src/Jsonc.antt =====
-- src/jsonc.ts: JSON with comments. A text is the list of its characters.
pub mod Comments
pub mod Tests
use nanoclaw_github_copilot.Base.{
  ℕ, Bool, true, false, ◌&&◌, ◌||◌, Option, none, some, List, [], ◌∷◌, ◌++◌, ◌==◌, if◌then◌else◌,
}

abbrev pub newline : ℕ
newline = 10

abbrev pub backslash : ℕ
backslash = 92

abbrev pub double_quote : ℕ
double_quote = 34

abbrev pub single_quote : ℕ
single_quote = 39

-- The flags of `stripJsonComments` between two rounds of its loop. A round that advances by two leaves
-- the second character to `skipping` or, where it is copied, to `escaping`.
pub data Mode : Type 0 where
  plain in_line_comment in_block_comment : Mode
  in_string : (quote : ℕ) → Mode
  escaping : (quote : ℕ) → Mode
  skipping_to_line_comment skipping_to_block_comment skipping_to_plain : Mode

abbrev pub next_is : Option ℕ → ℕ → Bool
next_is none c = false
next_is (some d) c = d == c

-- `i + 1 < n`
abbrev pub has_next : Option ℕ → Bool
has_next none = false
has_next (some _) = true

-- One round: what it adds to `out`, and the flags after it.
unfoldable pub round : Mode → ℕ → Option ℕ → List ℕ × Mode
round in_line_comment ch next = if ch == newline then (ch ∷ [], plain) else ([], in_line_comment)
round in_block_comment ch next =
    if ch == b'*' && next_is next b'/' then ([], skipping_to_plain) else ([], in_block_comment)
round (in_string quote) ch next =
    if ch == backslash && has_next next
    then (ch ∷ [], escaping quote)
    else if ch == quote
    then (ch ∷ [], plain)
    else (ch ∷ [], in_string quote)
round (escaping quote) ch next = (ch ∷ [], in_string quote)
round skipping_to_line_comment ch next = ([], in_line_comment)
round skipping_to_block_comment ch next = ([], in_block_comment)
round skipping_to_plain ch next = ([], plain)
round plain ch next =
    if ch == double_quote || ch == single_quote
    then (ch ∷ [], in_string ch)
    else if ch == b'/' && next_is next b'/'
    then ([], skipping_to_line_comment)
    else if ch == b'/' && next_is next b'*'
    then ([], skipping_to_block_comment)
    else (ch ∷ [], plain)

abbrev pub first : List ℕ → Option ℕ
first [] = none
first (c ∷ s) = some c

-- The loop from these flags on.
unfoldable pub strip_from : Mode → List ℕ → List ℕ
unfolding round
strip_from mode [] = []
strip_from mode (ch ∷ input) =
    let (out, later) = round mode ch (first input) in out ++ strip_from later input

-- `stripJsonComments`
unfoldable pub strip_json_comments : List ℕ → List ℕ
unfolding strip_from
strip_json_comments input = strip_from plain input

-- `parseJsonc`: `parse` stands for `JSON.parse`, whose result holds a value or an error.
pub data Parsed {ℓ κ} (V : Type ℓ) (E : Type κ) : Type (ℓ ⊔ κ) where
  value : V → Parsed V E
  error : E → Parsed V E

abbrev second_try {ℓ κ} : {V : Type ℓ} {E : Type κ} → E → Parsed V E → Parsed V E
second_try first_err (value v) = value v
second_try first_err (error _) = error first_err

abbrev first_try {ℓ κ} : {V : Type ℓ} {E : Type κ} → Parsed V E → Parsed V E → Parsed V E
first_try (value v) stripped = value v
first_try (error e) stripped = second_try e stripped

unfoldable pub parse_jsonc {ℓ κ} :
    {V : Type ℓ} {E : Type κ} → (List ℕ → Parsed V E) → List ℕ → Parsed V E
unfolding strip_json_comments
parse_jsonc parse text = first_try (parse text) (parse (strip_json_comments text))
