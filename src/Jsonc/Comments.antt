-- ===== src/Jsonc/Comments.antt =====
-- src/jsonc.ts: what `stripJsonComments` leaves of a text made of strings, comments and the rest.
use nanoclaw_github_copilot.Base.{
  ℕ, ◌≡◌, ◌≢◌, refl, ap, ◌∙◌, true, false, ◌&&◌, ◌||◌, List, [], ◌∷◌, ◌++◌, arith, ◌==◌, All,
}
use nanoclaw_github_copilot.Jsonc.{
  plain, in_line_comment, in_block_comment, in_string, newline, backslash, double_quote,
  single_quote, next_is, first, strip_from, strip_json_comments, Parsed, value, error, parse_jsonc,
}

-- A character of a string: an escape of two, or one that is neither a backslash nor the quote.
pub data StringPart : Type 0 where
  char : ℕ → StringPart
  escape : ℕ → StringPart

abbrev pub part_text : StringPart → List ℕ
part_text (char c) = c ∷ []
part_text (escape c) = backslash ∷ c ∷ []

abbrev pub GoodPart : ℕ → StringPart → Type 0
GoodPart q (char c) = (c ≢ backslash) × (c ≢ q)
GoodPart q (escape c) = Unit {0}

abbrev pub parts_text : List StringPart → List ℕ
parts_text [] = []
parts_text (p ∷ ps) = part_text p ++ parts_text ps

-- A lexical element of a text with comments.
pub data Token : Type 0 where
  other : ℕ → Token
  quoted : (quote : ℕ) (parts : List StringPart) → Token
  line_comment : List ℕ → Token
  block_comment : List ℕ → Token

abbrev pub token_text : Token → List ℕ
token_text (other c) = c ∷ []
token_text (quoted q ps) = q ∷ parts_text ps ++ q ∷ []
token_text (line_comment s) = b'/' ∷ b'/' ∷ s ++ newline ∷ []
token_text (block_comment s) = b'/' ∷ b'*' ∷ s ++ b'*' ∷ b'/' ∷ []

-- What is to stay of it: of a line comment its line end, of a block comment nothing.
abbrev pub kept : Token → List ℕ
kept (other c) = c ∷ []
kept (quoted q ps) = q ∷ parts_text ps ++ q ∷ []
kept (line_comment s) = newline ∷ []
kept (block_comment s) = []

-- No `*/` in the text.
abbrev pub Unclosed : List ℕ → Type 0
Unclosed [] = Unit {0}
Unclosed (c ∷ s) = ((c == b'*' && next_is (first s) b'/') ≡ false) × Unclosed s

abbrev pub GoodToken : Token → Type 0
GoodToken (other c) = (c ≢ b'/') × (c ≢ double_quote) × (c ≢ single_quote)
GoodToken (quoted q ps) = ((q == double_quote || q == single_quote) ≡ true) × All (GoodPart q) ps
GoodToken (line_comment s) = All (λ c. c ≢ newline) s
GoodToken (block_comment s) = Unclosed s

abbrev pub text_of : (Token → List ℕ) → List Token → List ℕ
text_of f [] = []
text_of f (t ∷ ts) = f t ++ text_of f ts

append_assoc : (a b c : List ℕ) → (a ++ b) ++ c ≡ a ++ (b ++ c)
append_assoc [] b c = refl
append_assoc (x ∷ a) b c = ap (λ r. x ∷ r) (append_assoc a b c)

strip-line :
    (s rest : List ℕ)
    → All (λ c. c ≢ newline) s
    → strip_from in_line_comment (s ++ newline ∷ rest) ≡ newline ∷ strip_from plain rest
unfolding strip_from
strip-line [] rest h = refl
strip-line (c ∷ s) rest h = ground (arith, h.0, strip-line s rest h.1)

strip-block :
    (s rest : List ℕ)
    → Unclosed s
    → strip_from in_block_comment (s ++ b'*' ∷ b'/' ∷ rest) ≡ strip_from plain rest
unfolding strip_from
strip-block [] rest h = refl
strip-block (c ∷ []) rest h = ground (arith, h.0)
strip-block (c ∷ d ∷ s) rest h = ground (arith, h.0, strip-block (d ∷ s) rest h.1)

strip-parts :
    (q : ℕ) (ps : List StringPart) (rest : List ℕ)
    → q ≢ backslash
    → All (GoodPart q) ps
    → strip_from (in_string q) (parts_text ps ++ q ∷ rest)
      ≡ parts_text ps ++ q ∷ strip_from plain rest
unfolding strip_from
strip-parts q [] rest b h = ground (arith, b)
strip-parts q (char c ∷ ps) rest b h = ground (arith, h.0, strip-parts q ps rest b h.1)
strip-parts q (escape c ∷ ps) rest b h = ground (arith, strip-parts q ps rest b h.1)

open_string :
    (q : ℕ) (s : List ℕ)
    → (q == double_quote || q == single_quote) ≡ true
    → strip_from plain (q ∷ s) ≡ q ∷ strip_from (in_string q) s
unfolding strip_from
open_string q s h = ground (arith, h)

strip-token :
    (t : Token) (rest : List ℕ)
    → GoodToken t
    → strip_from plain (token_text t ++ rest) ≡ kept t ++ strip_from plain rest
unfolding strip_from
strip-token (other c) rest h = ground (arith, h.0, h.1, h.2)
strip-token (quoted q ps) rest h =
    rw
      (
        append_assoc (parts_text ps) (q ∷ []) rest,
        append_assoc (parts_text ps) (q ∷ []) (strip_from plain rest),
      )
      (open_string q (parts_text ps ++ q ∷ rest) h.0
        ∙ ap (λ r. q ∷ r) (strip-parts q ps rest (ground (arith, h.0)) h.1))
strip-token (line_comment s) rest h = rw (append_assoc s (newline ∷ []) rest) (strip-line s rest h)
strip-token (block_comment s) rest h =
    rw (append_assoc s (b'*' ∷ b'/' ∷ []) rest) (strip-block s rest h)

-- A text made of strings, comments and other characters loses exactly its comments: a line comment up to
-- its line end, which stays, a block comment up to its first `*/`. Strings stay as they are, whatever
-- they hold. The conditions say what an element is: a string has no bare quote or backslash, a line
-- comment no line end, a block comment no `*/`, and the rest no slash and no quote.
pub strip_json_comments-text_of :
    (ts : List Token)
    → All GoodToken ts
    → strip_json_comments (text_of token_text ts) ≡ text_of kept ts
unfolding strip_json_comments
strip_json_comments-text_of ts h = strip_all ts h
  where
    strip_all :
        (ts : List Token)
        → All GoodToken ts
        → strip_from plain (text_of token_text ts) ≡ text_of kept ts
    strip_all [] h = unfold strip_from in refl
    strip_all (t ∷ ts) h =
        strip-token t (text_of token_text ts) h.0 ∙ ap (λ r. kept t ++ r) (strip_all ts h.1)

-- Where `JSON.parse` refuses a text with comments and reads the text without them, `parseJsonc` answers
-- what it reads there.
pub parse_jsonc-text_of {ℓ κ} :
    {V : Type ℓ} {E : Type κ} (parse : List ℕ → Parsed V E) (ts : List Token) (v : V) (e : E)
    → All GoodToken ts
    → parse (text_of token_text ts) ≡ error e
    → parse (text_of kept ts) ≡ value v
    → parse_jsonc parse (text_of token_text ts) ≡ value v
unfolding parse_jsonc
parse_jsonc-text_of parse ts v e h strict stripped =
    rw (strict, strip_json_comments-text_of ts h, stripped) refl
