-- ===== src/Jsonc/Tests.antt =====
-- src/jsonc.ts: comments stripped from a concrete text.
use nanoclaw_github_copilot.Base.{
  ℕ, ◌≡◌, refl, Bool, false, List, [], ◌∷◌, arith, All, length, ltb, if◌then◌else◌,
}
use nanoclaw_github_copilot.Jsonc.{
  newline, double_quote, round, strip_from, strip_json_comments, Parsed, value, error,
}
use nanoclaw_github_copilot.Jsonc.Comments.{
  char, Token, quoted, line_comment, block_comment, token_text, kept, GoodToken, text_of,
  strip_json_comments-text_of,
}

-- A string with two slashes between two comments.
abbrev commented : List Token
commented =
    line_comment (b'x' ∷ [])
    ∷ quoted double_quote (char b'/' ∷ char b'/' ∷ [])
    ∷ block_comment (b'*' ∷ b'y' ∷ [])
    ∷ []

strip_commented :
    strip_json_comments (
      b'/' ∷ b'/' ∷ b'x' ∷ newline ∷ double_quote ∷ b'/' ∷ b'/' ∷ double_quote ∷ b'/' ∷ b'*' ∷ b'*'
      ∷ b'y' ∷ b'*' ∷ b'/' ∷ [])
    ≡ newline ∷ double_quote ∷ b'/' ∷ b'/' ∷ double_quote ∷ []
unfolding strip_json_comments strip_from round
strip_commented = refl

commented-GoodToken : All GoodToken commented
commented-GoodToken = (
  (omega arith, tt),
  (
    (refl, ((omega arith, omega arith), ((omega arith, omega arith), tt))),
    ((refl, (refl, tt)), tt),
  ),
)

strip_json_comments-text_of_example :
    strip_json_comments (text_of token_text commented) ≡ text_of kept commented
strip_json_comments-text_of_example = strip_json_comments-text_of commented commented-GoodToken

-- A parser that reads texts of at most five characters, as their length.
abbrev short_parse : List ℕ → Parsed ℕ Bool
short_parse s = if ltb 5 (length s) then error false else value (length s)
