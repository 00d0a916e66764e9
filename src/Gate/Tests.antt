-- ===== src/Gate/Tests.antt =====
-- src/command-gate.ts: an admin command with an argument.
use nanoclaw_github_copilot.Base.{ℕ, ◌≡◌, refl, true, false, Option, none, some, List, [], ◌∷◌}
use nanoclaw_github_copilot.Gate.{
  Roles, gate_command, gate_text, trim, trim_start, trim_end, first_word, to_lower_case,
  has_command, is_admin, deny,
}
use nanoclaw_github_copilot.Mounts.Strings.{same, starts_with}
use nanoclaw_github_copilot.Gate.Words.{verdict, gate_command-verdict}

abbrev roles : Roles
roles = record { has_user_roles = true; has_admin_row = λ _ _. false }

abbrev plain_text : List ℕ → Option (List ℕ)
plain_text _ = none

abbrev name : List ℕ
name = b'C' ∷ b'o' ∷ b's' ∷ b't' ∷ []

abbrev content : List ℕ
content = b' ' ∷ b'/' ∷ b'C' ∷ b'o' ∷ b's' ∷ b't' ∷ b' ' ∷ b'x' ∷ []

denied :
    gate_command roles plain_text content (some "u") "g"
    ≡ deny (b'/' ∷ b'c' ∷ b'o' ∷ b's' ∷ b't' ∷ [])
unfolding gate_command gate_text trim trim_start trim_end first_word to_lower_case has_command
    is_admin same starts_with
denied = refl

gate_command-verdict_example :
    gate_command roles plain_text content (some "u") "g"
    ≡ verdict roles (some "u") "g" (to_lower_case (b'/' ∷ name))
gate_command-verdict_example =
    gate_command-verdict roles plain_text content (b' ' ∷ []) name (b'x' ∷ []) b' ' (some "u") "g"
      refl (refl, tt) (refl, (refl, (refl, (refl, tt)))) refl
