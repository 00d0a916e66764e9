-- ===== src/Names.antt =====
-- Names that reach the file system or a table key: src/group-folder.ts, src/attachment-safety.ts and
-- src/platform-id.ts, with node's `path` on a POSIX host. A text is the list of its characters.
pub mod Folder
pub mod Safe
pub mod Tests
use nanoclaw_github_copilot.Base.{
  ℕ, Bool, true, false, not, ◌&&◌, ◌||◌, Option, none, some, List, [], ◌∷◌, ◌++◌, leb, ◌==◌,
  if◌then◌else◌, length,
}
use nanoclaw_github_copilot.Mounts.Strings.{
  Text, RealPath, same, starts_with, contains, split, relative, render_relative,
}
use nanoclaw_github_copilot.Gate.{trim, to_lower_case}

abbrev pub is_alnum : ℕ → Bool
is_alnum c = leb b'A' c && leb c b'Z' || leb b'a' c && leb c b'z' || leb b'0' c && leb c b'9'

-- `[A-Za-z0-9_-]*`
unfoldable pub all_folder_chars : Text → Bool
all_folder_chars [] = true
all_folder_chars (c ∷ s) = (is_alnum c || c == b'_' || c == b'-') && all_folder_chars s

-- `GROUP_FOLDER_PATTERN`
unfoldable pub matches_folder_pattern : Text → Bool
unfolding all_folder_chars
matches_folder_pattern [] = false
matches_folder_pattern (c ∷ s) = is_alnum c && all_folder_chars s && leb (length s) 63

abbrev pub reserved_folder : Text
reserved_folder = b'g' ∷ b'l' ∷ b'o' ∷ b'b' ∷ b'a' ∷ b'l' ∷ []

abbrev pub slash : Text
slash = b'/' ∷ []

abbrev pub reverse_slash : Text
reverse_slash = 92 ∷ []

abbrev pub dots : Text
dots = b'.' ∷ b'.' ∷ []

unfoldable pub is_valid_group_folder : Text → Bool
unfolding matches_folder_pattern same contains trim to_lower_case
is_valid_group_folder folder =
    if same folder []
    then false
    else if not (same folder (trim folder))
    then false
    else if not (matches_folder_pattern folder)
    then false
    else if contains folder slash || contains folder reverse_slash
    then false
    else if contains folder dots
    then false
    else if same (to_lower_case folder) reserved_folder
    then false
    else true

unfoldable pub drop_last : RealPath → RealPath
drop_last [] = []
drop_last (c ∷ []) = []
drop_last (c ∷ d ∷ cs) = c ∷ drop_last (d ∷ cs)

-- One component of a path that `path.resolve` walks.
unfoldable pub enter : RealPath → Text → RealPath
unfolding drop_last same
enter dir part =
    if same part [] || same part (b'.' ∷ [])
    then dir
    else if same part dots
    then drop_last dir
    else dir ++ part ∷ []

unfoldable pub walk : RealPath → List Text → RealPath
unfolding enter
walk dir [] = dir
walk dir (part ∷ parts) = walk (enter dir part) parts

-- `path.resolve(dir, name)`, and `path.join` where `dir` is absolute and `name` is not.
unfoldable pub resolve_path : RealPath → Text → RealPath
unfolding walk split starts_with
resolve_path dir name =
    if starts_with name slash then walk [] (split name) else walk dir (split name)

-- `ensureWithinBase`; `false` where it throws
unfoldable pub within_base : RealPath → RealPath → Bool
unfolding relative render_relative starts_with
within_base base_dir resolved_path =
    let rel = render_relative (relative base_dir resolved_path) in
    not (starts_with rel dots || starts_with rel slash)

-- `resolveGroupFolderPath`, and `resolveGroupIpcPath` with the other base; `none` where they throw
unfoldable pub resolve_group_folder_path : RealPath → Text → Option RealPath
unfolding is_valid_group_folder resolve_path within_base
resolve_group_folder_path base_dir folder =
    if is_valid_group_folder folder
    then (let group_path = resolve_path base_dir folder in
        if within_base base_dir group_path then some group_path else none)
    else none

-- `path.resolve(DATA_DIR, 'ipc')` is the base directory of the IPC files.
unfoldable pub resolve_group_ipc_path : RealPath → Text → Option RealPath
unfolding resolve_group_folder_path resolve_path
resolve_group_ipc_path data_dir folder =
    resolve_group_folder_path (resolve_path data_dir (b'i' ∷ b'p' ∷ b'c' ∷ [])) folder

-- `path.basename(name)` for a name without a trailing slash
unfoldable pub last_part : List Text → Text
last_part [] = []
last_part (part ∷ []) = part
last_part (part ∷ other ∷ parts) = last_part (other ∷ parts)

unfoldable pub path_basename : Text → Text
unfolding last_part split
path_basename name = last_part (split name)

-- `/[\\/\0]/`
unfoldable pub has_separator : Text → Bool
has_separator [] = false
has_separator (c ∷ s) = c == 92 || c == b'/' || c == 0 || has_separator s

unfoldable pub is_safe_attachment_name : Text → Bool
unfolding has_separator path_basename same
is_safe_attachment_name name =
    if same name []
    then false
    else if same name (b'.' ∷ []) || same name dots
    then false
    else if has_separator name
    then false
    else same (path_basename name) name

abbrev pub colon : Text
colon = b':' ∷ []

abbrev pub group_prefix : Text
group_prefix = b'g' ∷ b'r' ∷ b'o' ∷ b'u' ∷ b'p' ∷ b':' ∷ []

abbrev pub deltachat : Text
deltachat = b'd' ∷ b'e' ∷ b'l' ∷ b't' ∷ b'a' ∷ b'c' ∷ b'h' ∷ b'a' ∷ b't' ∷ []

unfoldable pub namespaced_platform_id : Text → Text → Text
unfolding starts_with contains same
namespaced_platform_id channel raw =
    if starts_with raw (channel ++ colon)
    then raw
    else if contains raw (b'@' ∷ [])
    then raw
    else if starts_with raw (b'+' ∷ []) || starts_with raw group_prefix
    then raw
    else if same channel deltachat
    then raw
    else channel ++ colon ++ raw
