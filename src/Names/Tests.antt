-- ===== src/Names/Tests.antt =====
-- src/group-folder.ts, src/attachment-safety.ts and src/platform-id.ts: runs and witnesses.
use nanoclaw_github_copilot.Base.{◌≡◌, refl, true, false, none, some, [], ◌∷◌, ◌++◌, if◌then◌else◌}
use nanoclaw_github_copilot.Mounts.Strings.{
  Text, RealPath, same, starts_with, contains, split, split_first, split_rest, relative, climb,
  render_relative, render_tail,
}
use nanoclaw_github_copilot.Gate.{trim, trim_start, trim_end, to_lower_case}
use nanoclaw_github_copilot.Names.{
  is_valid_group_folder, matches_folder_pattern, all_folder_chars, enter, walk, resolve_path,
  within_base, drop_last, resolve_group_folder_path, has_separator, path_basename, last_part,
  is_safe_attachment_name,
}
use nanoclaw_github_copilot.Names.Folder.{resolve_group_folder_path_below}

-- `/groups`
abbrev groups : RealPath
groups = (b'g' ∷ b'r' ∷ b's' ∷ []) ∷ []

-- `Team_1-a`
abbrev team : Text
team = b'T' ∷ b'e' ∷ b'a' ∷ b'm' ∷ b'_' ∷ b'1' ∷ b'-' ∷ b'a' ∷ []

-- `../x`
abbrev outside : Text
outside = b'.' ∷ b'.' ∷ b'/' ∷ b'x' ∷ []

-- `Global`
abbrev reserved : Text
reserved = b'G' ∷ b'l' ∷ b'o' ∷ b'b' ∷ b'a' ∷ b'l' ∷ []

team_path : resolve_group_folder_path groups team ≡ some (groups ++ team ∷ [])
unfolding resolve_group_folder_path is_valid_group_folder matches_folder_pattern all_folder_chars
    same contains trim trim_start trim_end to_lower_case resolve_path walk enter drop_last
    within_base relative climb render_relative render_tail split split_first split_rest starts_with
team_path = refl

bad_paths :
    (resolve_group_folder_path groups outside ≡ none)
    × (resolve_group_folder_path groups reserved ≡ none)
    × (resolve_path groups outside ≡ (b'x' ∷ []) ∷ [])
unfolding resolve_group_folder_path is_valid_group_folder matches_folder_pattern all_folder_chars
    same contains trim trim_start trim_end to_lower_case resolve_path walk enter drop_last split
    split_first split_rest starts_with
bad_paths = (refl, refl, refl)

-- `a.png`
abbrev picture : Text
picture = b'a' ∷ b'.' ∷ b'p' ∷ b'n' ∷ b'g' ∷ []

picture-safe : is_safe_attachment_name picture ≡ true
unfolding is_safe_attachment_name has_separator path_basename last_part same split split_first
    split_rest
picture-safe = refl

outside_unsafe : is_safe_attachment_name outside ≡ false
unfolding is_safe_attachment_name has_separator path_basename last_part same split split_first
    split_rest
outside_unsafe = refl

resolve_group_folder_path_below_example :
    resolve_group_folder_path groups outside
    ≡ (if is_valid_group_folder outside then some (groups ++ outside ∷ []) else none)
resolve_group_folder_path_below_example = resolve_group_folder_path_below groups outside
