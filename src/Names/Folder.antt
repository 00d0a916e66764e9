-- ===== src/Names/Folder.antt =====
-- src/group-folder.ts: where the directory of a group folder is.
use nanoclaw_github_copilot.Base.{
  ℕ, ◌≡◌, refl, Bool, true, false, none, some, [], ◌∷◌, ◌++◌, arith, ◌==◌, if◌then◌else◌, All,
}
use nanoclaw_github_copilot.Mounts.Strings.{
  Text, RealPath, same, starts_with, split, split_first, split_rest, relative, render_relative,
  render_tail,
}
use nanoclaw_github_copilot.Mounts.Roots.{same_refl}
use nanoclaw_github_copilot.Names.{
  is_alnum, all_folder_chars, matches_folder_pattern, is_valid_group_folder, enter, walk,
  resolve_path, within_base, resolve_group_folder_path,
}

-- The text is one component of a path.
abbrev pub IsOnePart : Text → Type 0
IsOnePart = All (λ c. (c == b'/') ≡ false)

split-first : (s : Text) → IsOnePart s → split_first s ≡ s
unfolding split_first
split-first [] h = refl
split-first (c ∷ s) h = ground (arith, h.0, split-first s h.1)

split-rest : (s : Text) → IsOnePart s → split_rest s ≡ []
unfolding split_rest
split-rest [] h = refl
split-rest (c ∷ s) h = ground (arith, h.0, split-rest s h.1)

pub split-one : (s : Text) → IsOnePart s → split s ≡ s ∷ []
unfolding split
split-one s h = rw (split-first s h, split-rest s h) refl

pub folder_chars : (s : Text) → all_folder_chars s ≡ true → IsOnePart s
unfolding all_folder_chars
folder_chars [] h = tt
folder_chars (c ∷ s) h = (ground (arith, h), folder_chars s (ground (arith, h)))

render_tail-nil : (s : Text) → s ++ [] ≡ s
render_tail-nil [] = refl
render_tail-nil (c ∷ s) = ground (arith, render_tail-nil s)

pub relative-snoc : (dir : RealPath) (part : Text) → relative dir (dir ++ part ∷ []) ≡ part ∷ []
unfolding relative
relative-snoc [] part = refl
relative-snoc (c ∷ dir) part = ground (arith, same_refl c, relative-snoc dir part)

-- A folder that starts with a letter or digit and has only folder characters.
module _ (dir : RealPath) (c : ℕ) (s : Text) (first : is_alnum c ≡ true)
    (others : all_folder_chars s ≡ true) where
  one : split (c ∷ s) ≡ (c ∷ s) ∷ []
  one = split-one (c ∷ s) (ground (arith, first), folder_chars s others)

  resolve_path-below : resolve_path dir (c ∷ s) ≡ dir ++ (c ∷ s) ∷ []
  unfolding resolve_path walk enter starts_with same
  resolve_path-below = rw one (ground (arith, first))

  below_within : within_base dir (dir ++ (c ∷ s) ∷ []) ≡ true
  unfolding within_base render_relative render_tail starts_with
  below_within = rw (relative-snoc dir (c ∷ s), render_tail-nil s) (ground (arith, first))

matches_below :
    (dir : RealPath) (s : Text)
    → matches_folder_pattern s ≡ true
    → (resolve_path dir s ≡ dir ++ s ∷ []) × (within_base dir (dir ++ s ∷ []) ≡ true)
unfolding matches_folder_pattern
matches_below dir [] h = absurd (cc h)
matches_below dir (c ∷ s) h = (
  resolve_path-below dir c s (ground (arith, h)) (ground (arith, h)),
  below_within dir c s (ground (arith, h)) (ground (arith, h)),
)

valid_matches : (s : Text) → is_valid_group_folder s ≡ true → matches_folder_pattern s ≡ true
unfolding is_valid_group_folder
valid_matches s h = ground (arith, h)

-- `resolveGroupFolderPath` throws for an invalid folder only, and for a valid one returns the directory
-- one level below the base directory that bears the folder's name: its check that the path stays inside
-- the base never fails.
pub resolve_group_folder_path_below :
    (base_dir : RealPath) (folder : Text)
    → resolve_group_folder_path base_dir folder
      ≡ (if is_valid_group_folder folder then some (base_dir ++ folder ∷ []) else none)
unfolding resolve_group_folder_path
resolve_group_folder_path_below base_dir folder = by_test (is_valid_group_folder folder) refl
  where
    by_test :
        (b : Bool)
        → is_valid_group_folder folder ≡ b
        → resolve_group_folder_path base_dir folder
          ≡ (if b then some (base_dir ++ folder ∷ []) else none)
    by_test false e = ground (arith, e)
    by_test true e =
        let below = matches_below base_dir folder (valid_matches folder e) in
        ground (arith, e, below.0, below.1)
