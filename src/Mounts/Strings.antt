-- ===== src/Mounts/Strings.antt =====
-- JavaScript's string functions that src/mount-security.ts calls, and the paths of node's `path` on a
-- POSIX host.
use nanoclaw_github_copilot.Base.{
  ℕ, Bool, true, false, ◌&&◌, ◌||◌, List, [], ◌∷◌, ◌++◌, ◌==◌, if◌then◌else◌,
}

abbrev pub Text : Type 0
Text = List ℕ

abbrev pub RealPath : Type 0
RealPath = List Text

-- `s === t`
unfoldable pub same : Text → Text → Bool
same [] [] = true
same [] (d ∷ t) = false
same (c ∷ s) [] = false
same (c ∷ s) (d ∷ t) = c == d && same s t

-- `s.startsWith(p)`
unfoldable pub starts_with : Text → Text → Bool
starts_with s [] = true
starts_with [] (d ∷ p) = false
starts_with (c ∷ s) (d ∷ p) = c == d && starts_with s p

-- `s.includes(p)`
unfoldable pub contains : Text → Text → Bool
unfolding starts_with
contains [] p = starts_with [] p
contains (c ∷ s) p = starts_with (c ∷ s) p || contains s p

-- `s.trim() === ''`, for spaces, tabs and line ends.
abbrev is_space : ℕ → Bool
is_space c = c == b' ' || c == 9 || c == 10 || c == 11 || c == 12 || c == 13

unfoldable pub is_blank : Text → Bool
is_blank [] = true
is_blank (c ∷ s) = is_space c && is_blank s

-- `s.split('/')`: the first part and the others.
unfoldable pub split_first : Text → Text
split_first [] = []
split_first (c ∷ s) = let rest = split_first s in if c == b'/' then [] else c ∷ rest

unfoldable pub split_rest : Text → List Text
unfolding split_first
split_rest [] = []
split_rest (c ∷ s) = let rest = split_rest s in if c == b'/' then split_first s ∷ rest else rest

unfoldable pub split : Text → List Text
unfolding split_first split_rest
split s = split_first s ∷ split_rest s

-- The string of a real path.
unfoldable pub render_tail : RealPath → Text
render_tail [] = []
render_tail (c ∷ cs) = b'/' ∷ c ++ render_tail cs

unfoldable pub render : RealPath → Text
unfolding render_tail
render [] = b'/' ∷ []
render (c ∷ cs) = render_tail (c ∷ cs)

abbrev pub up : Text
up = b'.' ∷ b'.' ∷ []

-- `path.relative(from, to)` of real paths, as its components: one `..` for each component of `from`
-- outside `to`, then what is left of `to`.
unfoldable pub climb : RealPath → RealPath → RealPath
climb [] to = to
climb (c ∷ from) to = up ∷ climb from to

unfoldable pub relative : RealPath → RealPath → RealPath
unfolding climb same
relative [] to = to
relative (c ∷ from) [] = climb (c ∷ from) []
relative (c ∷ from) (d ∷ to) = if same c d then relative from to else climb (c ∷ from) (d ∷ to)

-- The string of a relative path.
unfoldable pub render_relative : RealPath → Text
unfolding render_tail
render_relative [] = []
render_relative (c ∷ cs) = c ++ render_tail cs
