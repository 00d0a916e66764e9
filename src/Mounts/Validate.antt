-- ===== src/Mounts/Validate.antt =====
-- src/mount-security.ts: `validateMount` and `validateAdditionalMounts`. The reason of a refusal is a
-- constructor here and a sentence in the source.
use nanoclaw_github_copilot.Base.{
  Bool, true, false, not, ◌&&◌, ◌||◌, Option, none, some, List, [], ◌∷◌, ◌++◌, if◌then◌else◌,
}
use nanoclaw_github_copilot.Mounts.Strings.{
  Text, RealPath, same, starts_with, contains, is_blank, split, render, up, relative,
  render_relative,
}
use nanoclaw_github_copilot.Mounts.Load.{AllowlistFile, Cache, load_mount_allowlist}
use nanoclaw_github_copilot.Mounts.{AdditionalMount, AllowedRoot, MountAllowlist, Filesystem}

-- `expandPath`
unfoldable pub expand_path : Filesystem → Text → Text
expand_path fs [] = fs.resolve []
expand_path fs (c ∷ []) = if same (c ∷ []) (b'~' ∷ []) then fs.home else fs.resolve (c ∷ [])
expand_path fs (c ∷ d ∷ p) =
    if starts_with (c ∷ d ∷ p) (b'~' ∷ b'/' ∷ []) then fs.join fs.home p else fs.resolve (c ∷ d ∷ p)

-- The inner loop of `matchesBlockedPattern`.
unfoldable pub some_part_matches : List Text → Text → Bool
some_part_matches [] pattern = false
some_part_matches (part ∷ parts) pattern =
    same part pattern || contains part pattern || some_part_matches parts pattern

-- `matchesBlockedPattern`
unfoldable pub matches_blocked_pattern : Text → List Text → Option Text
unfolding some_part_matches
matches_blocked_pattern real_path [] = none
matches_blocked_pattern real_path (pattern ∷ patterns) =
    let rest = matches_blocked_pattern real_path patterns in
    if some_part_matches (split real_path) pattern
    then some pattern
    else if contains real_path pattern
    then some pattern
    else rest

-- The test of `findAllowedRoot` on a real root: a relative path of `path.relative` on POSIX is never
-- absolute, so `path.isAbsolute(relative)` is false.
unfoldable pub is_under : RealPath → RealPath → Bool
unfolding relative render_relative starts_with
is_under real_root real_path = not (starts_with (render_relative (relative real_root real_path)) up)

abbrev pub covers : RealPath → Option RealPath → Bool
covers real_path none = false
covers real_path (some real_root) = is_under real_root real_path

-- `findAllowedRoot`
unfoldable pub find_allowed_root : Filesystem → RealPath → List AllowedRoot → Option AllowedRoot
unfolding is_under expand_path
find_allowed_root fs real_path [] = none
find_allowed_root fs real_path (root ∷ roots) =
    let rest = find_allowed_root fs real_path roots in
    if covers real_path (fs.realpath (expand_path fs root.path)) then some root else rest

-- `isValidContainerPath`
unfoldable pub is_valid_container_path : Text → Bool
unfolding contains starts_with is_blank
is_valid_container_path p =
    if contains p up
    then false
    else if starts_with p (b'/' ∷ [])
    then false
    else if is_blank p
    then false
    else if contains p (b':' ∷ [])
    then false
    else true

pub data Refusal : Type 0 where
  no_allowlist : Refusal
  invalid_container_path : Text → Refusal
  no_host_path : Refusal
  blocked : (pattern : Text) (real_path : RealPath) → Refusal
  outside_roots : RealPath → Refusal

pub record Mount : Type 0 where
  pub host_path : RealPath
  pub container_path : Text
  pub readonly : Bool

pub data MountValidationResult : Type 0 where
  refused : Refusal → MountValidationResult
  allowed : Mount → MountValidationResult

abbrev pub or_basename : Text → Option Text → Text
or_basename base none = base
or_basename base (some []) = base
or_basename base (some (c ∷ s)) = c ∷ s

unfoldable pub container_path_of : Filesystem → AdditionalMount → Text
container_path_of fs mount = or_basename (fs.basename mount.host_path) mount.container_path

abbrev pub is_false : Option Bool → Bool
is_false (some false) = true
is_false _ = false

unfoldable pub effective_readonly : MountAllowlist → AllowedRoot → AdditionalMount → Bool → Bool
effective_readonly allowlist root mount is_default_agent =
    if is_false mount.readonly
    then if not is_default_agent && allowlist.non_main_read_only
      then true
      else if not root.allow_read_write
      then true
      else false
    else true

-- The checks of `validateMount`, from the allowlist on.
unfoldable pub check_root :
    MountAllowlist
    → AdditionalMount
    → Bool
    → Text
    → RealPath
    → Option AllowedRoot
    → MountValidationResult
unfolding effective_readonly
check_root allowlist mount is_default_agent container_path real_path none =
    refused (outside_roots real_path)
check_root allowlist mount is_default_agent container_path real_path (some root) = allowed (record {
  host_path = real_path;
  container_path = container_path;
  readonly = effective_readonly allowlist root mount is_default_agent;
})

unfoldable pub check_blocked :
    Filesystem
    → MountAllowlist
    → AdditionalMount
    → Bool
    → Text
    → RealPath
    → Option Text
    → MountValidationResult
unfolding check_root
check_blocked fs allowlist mount is_default_agent container_path real_path (some pattern) =
    refused (blocked pattern real_path)
check_blocked fs allowlist mount is_default_agent container_path real_path none =
    check_root allowlist mount is_default_agent container_path real_path
      (find_allowed_root fs real_path allowlist.allowed_roots)

unfoldable pub check_real_path :
    Filesystem
    → MountAllowlist
    → AdditionalMount
    → Bool
    → Text
    → Option RealPath
    → MountValidationResult
unfolding check_blocked
check_real_path fs allowlist mount is_default_agent container_path none = refused no_host_path
check_real_path fs allowlist mount is_default_agent container_path (some real_path) =
    check_blocked fs allowlist mount is_default_agent container_path real_path
      (matches_blocked_pattern (render real_path) allowlist.blocked_patterns)

unfoldable pub check_mount :
    Filesystem → AdditionalMount → Bool → Option MountAllowlist → MountValidationResult
unfolding check_real_path
check_mount fs mount is_default_agent none = refused no_allowlist
check_mount fs mount is_default_agent (some allowlist) =
    let container_path = container_path_of fs mount in
    if not (is_valid_container_path container_path)
    then refused (invalid_container_path container_path)
    else check_real_path fs allowlist mount is_default_agent container_path
        (fs.realpath (expand_path fs mount.host_path))

-- `validateMount`: the result and the cache it leaves.
unfoldable pub validate_mount :
    Filesystem → AllowlistFile → Cache → AdditionalMount → Bool → MountValidationResult × Cache
unfolding check_mount
validate_mount fs file cache mount is_default_agent =
    let (allowlist, cache) = load_mount_allowlist file cache in
    (check_mount fs mount is_default_agent allowlist, cache)

abbrev pub workspace_extra : Text
workspace_extra =
    b'/' ∷ b'w' ∷ b'o' ∷ b'r' ∷ b'k' ∷ b's' ∷ b'p' ∷ b'a' ∷ b'c' ∷ b'e' ∷ b'/' ∷ b'e' ∷ b'x' ∷ b't'
    ∷ b'r' ∷ b'a' ∷ b'/' ∷ []

abbrev pub keep_allowed : MountValidationResult → List Mount → List Mount
keep_allowed (refused _) mounts = mounts
keep_allowed (allowed m) mounts =
    record m { container_path = workspace_extra ++ m.container_path } ∷ mounts

-- `validateAdditionalMounts`
unfoldable pub validate_additional_mounts :
    Filesystem → AllowlistFile → Cache → List AdditionalMount → Bool → List Mount × Cache
unfolding validate_mount
validate_additional_mounts fs file cache [] is_default_agent = ([], cache)
validate_additional_mounts fs file cache (mount ∷ mounts) is_default_agent =
    let (result, cache) = validate_mount fs file cache mount is_default_agent in
    let (rest, cache) = validate_additional_mounts fs file cache mounts is_default_agent in
    (keep_allowed result rest, cache)
