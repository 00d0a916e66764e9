-- ===== src/Gate/Words.antt =====
-- src/command-gate.ts: the verdict on a command with blanks and arguments around it.
use nanoclaw_github_copilot.Base.{
  ℕ, ◌≡◌, refl, ap, ◌∙◌, String, true, false, Option, List, [], ◌∷◌, ◌++◌, arith, if◌then◌else◌,
  All,
}
use nanoclaw_github_copilot.Mounts.Strings.{starts_with}
use nanoclaw_github_copilot.Gate.{
  is_space, trim_start, push, trim_end, trim, first_word, to_lower_case, has_command,
  filtered_commands, admin_commands, GateResult, pass, filter, deny, Roles, is_admin, gate_text,
  or_content, gate_command,
}

abbrev pub NoSpace : List ℕ → Type 0
NoSpace = All (λ c. is_space c ≡ false)

abbrev pub Blank : List ℕ → Type 0
Blank = All (λ c. is_space c ≡ true)

pub trim_start-blanks : (blanks s : List ℕ) → Blank blanks → trim_start (blanks ++ s) ≡ trim_start s
unfolding trim_start
trim_start-blanks [] s h = refl
trim_start-blanks (c ∷ blanks) s h = ground (arith, h.0, trim_start-blanks blanks s h.1)

-- What is said of a command in lower case, whoever sends it.
abbrev pub verdict : Roles → Option String → String → List ℕ → GateResult
verdict roles user agent_group command =
    if has_command filtered_commands command
    then filter
    else if has_command admin_commands command
    then if is_admin roles user agent_group then pass else deny command
    else pass

first_word-push :
    (c : ℕ) (s : List ℕ) → is_space c ≡ false → first_word (push c s) ≡ c ∷ first_word s
unfolding first_word
first_word-push c [] h = ground (arith, h)
first_word-push c (d ∷ s) h = ground (arith, h)

first_word-blank : (c : ℕ) (s : List ℕ) → is_space c ≡ true → first_word (push c s) ≡ []
unfolding first_word
first_word-blank c [] h = ground (arith, h)
first_word-blank c (d ∷ s) h = ground (arith, h)

first_word-trim_end :
    (word rest : List ℕ) (c : ℕ)
    → NoSpace word
    → is_space c ≡ true
    → first_word (trim_end (word ++ c ∷ rest)) ≡ word
unfolding trim_end
first_word-trim_end [] rest c h b = first_word-blank c (trim_end rest) b
first_word-trim_end (d ∷ word) rest c h b = ground (
  arith,
  first_word-push d (trim_end (word ++ c ∷ rest)) h.0,
  first_word-trim_end word rest c h.1 b,
)

slash-push : (s : List ℕ) → starts_with (push b'/' s) (b'/' ∷ []) ≡ true
unfolding starts_with
slash-push [] = refl
slash-push (d ∷ s) = refl

gate_text-verdict :
    (roles : Roles) (text word : List ℕ) (user : Option String) (agent_group : String)
    → starts_with text (b'/' ∷ []) ≡ true
    → first_word text ≡ word
    → gate_text roles text user agent_group ≡ verdict roles user agent_group (to_lower_case word)
unfolding gate_text
gate_text-verdict roles text word user agent_group h w = rw (h, w) refl

trim-command :
    (blanks rest : List ℕ)
    → Blank blanks
    → trim (blanks ++ (b'/' ∷ rest)) ≡ push b'/' (trim_end rest)
unfolding trim trim_end
trim-command blanks rest b =
    rw (trim_start-blanks blanks (b'/' ∷ rest) b) (unfold trim_start in refl)

-- A slash command gets the verdict of its name in lower case (of the ASCII letters), whatever blanks stand in front of it and
-- whatever arguments follow it: arguments neither hide an admin command from the check nor make a
-- filtered one pass. The conditions: the name has no blank in it, and a blank follows it.
pub gate_command-verdict :
    (roles : Roles) (parse_text : List ℕ → Option (List ℕ)) (content blanks name args : List ℕ)
    (c : ℕ) (user : Option String) (agent_group : String)
    → or_content content (parse_text content) ≡ blanks ++ (b'/' ∷ (name ++ c ∷ args))
    → Blank blanks
    → NoSpace name
    → is_space c ≡ true
    → gate_command roles parse_text content user agent_group
      ≡ verdict roles user agent_group (to_lower_case (b'/' ∷ name))
unfolding gate_command
gate_command-verdict roles parse_text content blanks name args c user agent_group e b n s =
    rw (e, trim-command blanks (name ++ c ∷ args) b)
      (gate_text-verdict roles (push b'/' (trim_end (name ++ c ∷ args))) (b'/' ∷ name) user
        agent_group (slash-push (trim_end (name ++ c ∷ args)))
        (first_word-push b'/' (trim_end (name ++ c ∷ args)) refl
          ∙ ap (λ w. b'/' ∷ w) (first_word-trim_end name args c n s)))
