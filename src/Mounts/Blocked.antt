-- ===== src/Mounts/Blocked.antt =====
-- src/mount-security.ts: what `matchesBlockedPattern` blocks.
use nanoclaw_github_copilot.Base.{
  ◌≡◌, refl, inl, inr, true, false, Option, none, some, List, [], ◌∷◌, arith, if◌then◌else◌,
  Bool-cases, All,
}
use nanoclaw_github_copilot.Mounts.Strings.{
  Text, same, starts_with, contains, split, split_first, split_rest,
}
use nanoclaw_github_copilot.Mounts.Roots.{same-eq}
use nanoclaw_github_copilot.Mounts.Validate.{some_part_matches, matches_blocked_pattern}

starts_with_refl : (s : Text) → starts_with s s ≡ true
unfolding starts_with
starts_with_refl [] = refl
starts_with_refl (c ∷ s) = ground (arith, starts_with_refl s)

contains_refl : (s : Text) → contains s s ≡ true
unfolding contains starts_with
contains_refl [] = refl
contains_refl (c ∷ s) = ground (arith, starts_with_refl s)

same-contains : (s p : Text) → same s p ≡ true → contains s p ≡ true
same-contains s p h = rw (same-eq s p h) (contains_refl p)

starts_with-split : (s p : Text) → starts_with (split_first s) p ≡ true → starts_with s p ≡ true
unfolding starts_with split_first
starts_with-split [] p h = h
starts_with-split (c ∷ s) [] h = refl
starts_with-split (c ∷ s) (d ∷ p) h = ground (arith, h, starts_with-split s p)

contains-first : (s p : Text) → contains (split_first s) p ≡ true → contains s p ≡ true
unfolding contains starts_with split_first
contains-first [] p h = h
contains-first (c ∷ s) [] h = refl
contains-first (c ∷ s) (d ∷ p) h =
    ground (arith, h, starts_with-split s p, contains-first s (d ∷ p))

some_part-contains : (s p : Text) → some_part_matches (split_rest s) p ≡ true → contains s p ≡ true
unfolding some_part_matches split_rest contains
some_part-contains [] p h = absurd (cc h)
some_part-contains (c ∷ s) p h =
    ground (arith, h, some_part-contains s p, contains-first s p, same-contains (split_first s) p)

-- A pattern that matches a component of the path is part of the path.
part-contains : (s p : Text) → some_part_matches (split s) p ≡ true → contains s p ≡ true
unfolding some_part_matches split
part-contains s p h =
    ground (arith, h, some_part-contains s p, contains-first s p, same-contains (split_first s) p)

-- The first pattern that the path contains.
abbrev pub first_contained : Text → List Text → Option Text
first_contained s [] = none
first_contained s (p ∷ ps) = if contains s p then some p else first_contained s ps

-- `matchesBlockedPattern` answers the first pattern that occurs anywhere in the path's string; its
-- search through the components adds nothing to that.
pub matches_blocked_pattern-first :
    (s : Text) (ps : List Text) → matches_blocked_pattern s ps ≡ first_contained s ps
unfolding matches_blocked_pattern
matches_blocked_pattern-first s [] = refl
matches_blocked_pattern-first s (p ∷ ps) =
    ground (arith, part-contains s p, matches_blocked_pattern-first s ps)

-- No pattern is part of the text.
abbrev pub Free : Text → List Text → Type 0
Free s = All (λ p. contains s p ≡ false)

pub matches-Free : (s : Text) (ps : List Text) → matches_blocked_pattern s ps ≡ none → Free s ps
unfolding matches_blocked_pattern
matches-Free s [] h = tt
matches-Free s (p ∷ ps) h = elim (Bool-cases (contains s p)) [
  | inl e ↦ absurd (ground (arith, h, e))
  | inr e ↦ (e, matches-Free s ps (ground (arith, h, e)))
]
