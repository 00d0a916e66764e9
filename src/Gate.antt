-- ===== src/Gate.antt =====
-- src/command-gate.ts: which slash commands reach the container. A text is the list of its characters, of
-- which ASCII letters have a lower case. `parse_text` stands for `JSON.parse(content).text`, `none` where
-- it throws; the rows of user_roles are a test.
pub mod Words
pub mod Tests
use nanoclaw_github_copilot.Base.{
  ℕ, ◌+◌, String, Bool, true, false, not, ◌&&◌, ◌||◌, Option, none, some, List, [], ◌∷◌, map, leb,
  ◌==◌, if◌then◌else◌, truthy,
}
use nanoclaw_github_copilot.Mounts.Strings.{same, starts_with}

-- `/\s/`, and what `trim` takes off: the characters of white space and the ends of a line.
abbrev pub is_space : ℕ → Bool
is_space c =
    c == b' '
    || (leb 9 c && leb c 13)
    || (leb 8192 c && leb c 8202)
    || c == 160
    || c == 5760
    || c == 8232
    || c == 8233
    || c == 8239
    || c == 8287
    || c == 12288
    || c == 65279

unfoldable pub trim_start : List ℕ → List ℕ
trim_start [] = []
trim_start (c ∷ s) = let rest = trim_start s in if is_space c then rest else c ∷ s

abbrev pub push : ℕ → List ℕ → List ℕ
push c [] = if is_space c then [] else c ∷ []
push c (d ∷ s) = c ∷ d ∷ s

unfoldable pub trim_end : List ℕ → List ℕ
trim_end [] = []
trim_end (c ∷ s) = push c (trim_end s)

-- `text.trim()`
unfoldable pub trim : List ℕ → List ℕ
unfolding trim_start trim_end
trim s = trim_end (trim_start s)

-- `text.split(/\s/)[0]`
unfoldable pub first_word : List ℕ → List ℕ
first_word [] = []
first_word (c ∷ s) = let rest = first_word s in if is_space c then [] else c ∷ rest

abbrev pub lower_char : ℕ → ℕ
lower_char c = if leb b'A' c && leb c b'Z' then c + 32 else c

unfoldable pub to_lower_case : List ℕ → List ℕ
to_lower_case [] = []
to_lower_case (c ∷ s) = lower_char c ∷ to_lower_case s

unfoldable pub has_command : List (List ℕ) → List ℕ → Bool
unfolding same
has_command [] command = false
has_command (c ∷ cs) command = same c command || has_command cs command

abbrev pub filtered_commands : List (List ℕ)
filtered_commands =
    (b'/' ∷ b'h' ∷ b'e' ∷ b'l' ∷ b'p' ∷ [])
    ∷ (b'/' ∷ b'l' ∷ b'o' ∷ b'g' ∷ b'i' ∷ b'n' ∷ [])
    ∷ (b'/' ∷ b'l' ∷ b'o' ∷ b'g' ∷ b'o' ∷ b'u' ∷ b't' ∷ [])
    ∷ (b'/' ∷ b'd' ∷ b'o' ∷ b'c' ∷ b't' ∷ b'o' ∷ b'r' ∷ [])
    ∷ (b'/' ∷ b'c' ∷ b'o' ∷ b'n' ∷ b'f' ∷ b'i' ∷ b'g' ∷ [])
    ∷ (b'/' ∷ b'r' ∷ b'e' ∷ b'm' ∷ b'o' ∷ b't' ∷ b'e' ∷ b'-' ∷ b'c' ∷ b'o' ∷ b'n' ∷ b't' ∷ b'r'
        ∷ b'o' ∷ b'l' ∷ [])
    ∷ []

abbrev pub admin_commands : List (List ℕ)
admin_commands =
    (b'/' ∷ b'c' ∷ b'l' ∷ b'e' ∷ b'a' ∷ b'r' ∷ [])
    ∷ (b'/' ∷ b'c' ∷ b'o' ∷ b'm' ∷ b'p' ∷ b'a' ∷ b'c' ∷ b't' ∷ [])
    ∷ (b'/' ∷ b'c' ∷ b'o' ∷ b'n' ∷ b't' ∷ b'e' ∷ b'x' ∷ b't' ∷ [])
    ∷ (b'/' ∷ b'c' ∷ b'o' ∷ b's' ∷ b't' ∷ [])
    ∷ (b'/' ∷ b'f' ∷ b'i' ∷ b'l' ∷ b'e' ∷ b's' ∷ [])
    ∷ []

pub data GateResult : Type 0 where
  pass : GateResult
  filter : GateResult
  deny : (command : List ℕ) → GateResult

pub record Roles : Type 0 where
  pub has_user_roles : Bool
  pub has_admin_row : (user agent_group : String) → Bool

abbrev pub or_empty : Option String → String
or_empty none = ""
or_empty (some s) = s

-- `isAdmin`
unfoldable pub is_admin : Roles → Option String → String → Bool
is_admin roles user agent_group =
    if not (truthy user)
    then false
    else if not roles.has_user_roles
    then true
    else roles.has_admin_row (or_empty user) agent_group

unfoldable pub gate_text : Roles → List ℕ → Option String → String → GateResult
unfolding has_command is_admin first_word to_lower_case starts_with
gate_text roles text user agent_group =
    if not (starts_with text (b'/' ∷ []))
    then pass
    else let command = to_lower_case (first_word text) in
      if has_command filtered_commands command
      then filter
      else if has_command admin_commands command
      then if is_admin roles user agent_group then pass else deny command
      else pass

abbrev pub or_content : List ℕ → Option (List ℕ) → List ℕ
or_content content none = content
or_content content (some text) = text

-- `gateCommand`
unfoldable pub gate_command :
    Roles → (List ℕ → Option (List ℕ)) → List ℕ → Option String → String → GateResult
unfolding gate_text trim
gate_command roles parse_text content user agent_group =
    gate_text roles (trim (or_content content (parse_text content))) user agent_group
