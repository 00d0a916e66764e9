-- ===== src/Mounts/Load.antt =====
-- src/mount-security.ts: `loadMountAllowlist` and its cache.
use nanoclaw_github_copilot.Base.{
  Bool, false, ◌||◌, Option, none, some, List, [], ◌∷◌, ◌++◌, if◌then◌else◌,
}
use nanoclaw_github_copilot.Mounts.Strings.{Text, same}
use nanoclaw_github_copilot.Mounts.{MountAllowlist}

-- What stands at `MOUNT_ALLOWLIST_PATH`: nothing, a file that does not parse or misses a member of
-- the right type, or an allowlist.
pub data AllowlistFile : Type 0 where
  missing : AllowlistFile
  malformed : (error : Text) → AllowlistFile
  well_formed : MountAllowlist → AllowlistFile

pub record Cache : Type 0 where
  pub cached_allowlist : Option MountAllowlist
  pub allowlist_load_error : Option Text

abbrev pub default_blocked_patterns : List Text
default_blocked_patterns =
    (b'.' ∷ b's' ∷ b's' ∷ b'h' ∷ [])
    ∷ (b'.' ∷ b'g' ∷ b'n' ∷ b'u' ∷ b'p' ∷ b'g' ∷ [])
    ∷ (b'.' ∷ b'g' ∷ b'p' ∷ b'g' ∷ [])
    ∷ (b'.' ∷ b'a' ∷ b'w' ∷ b's' ∷ [])
    ∷ (b'.' ∷ b'a' ∷ b'z' ∷ b'u' ∷ b'r' ∷ b'e' ∷ [])
    ∷ (b'.' ∷ b'g' ∷ b'c' ∷ b'l' ∷ b'o' ∷ b'u' ∷ b'd' ∷ [])
    ∷ (b'.' ∷ b'k' ∷ b'u' ∷ b'b' ∷ b'e' ∷ [])
    ∷ (b'.' ∷ b'd' ∷ b'o' ∷ b'c' ∷ b'k' ∷ b'e' ∷ b'r' ∷ [])
    ∷ (b'c' ∷ b'r' ∷ b'e' ∷ b'd' ∷ b'e' ∷ b'n' ∷ b't' ∷ b'i' ∷ b'a' ∷ b'l' ∷ b's' ∷ [])
    ∷ (b'.' ∷ b'e' ∷ b'n' ∷ b'v' ∷ [])
    ∷ (b'.' ∷ b'n' ∷ b'e' ∷ b't' ∷ b'r' ∷ b'c' ∷ [])
    ∷ (b'.' ∷ b'n' ∷ b'p' ∷ b'm' ∷ b'r' ∷ b'c' ∷ [])
    ∷ (b'.' ∷ b'p' ∷ b'y' ∷ b'p' ∷ b'i' ∷ b'r' ∷ b'c' ∷ [])
    ∷ (b'i' ∷ b'd' ∷ b'_' ∷ b'r' ∷ b's' ∷ b'a' ∷ [])
    ∷ (b'i' ∷ b'd' ∷ b'_' ∷ b'e' ∷ b'd' ∷ b'2' ∷ b'5' ∷ b'5' ∷ b'1' ∷ b'9' ∷ [])
    ∷ (b'p' ∷ b'r' ∷ b'i' ∷ b'v' ∷ b'a' ∷ b't' ∷ b'e' ∷ b'_' ∷ b'k' ∷ b'e' ∷ b'y' ∷ [])
    ∷ (b'.' ∷ b's' ∷ b'e' ∷ b'c' ∷ b'r' ∷ b'e' ∷ b't' ∷ [])
    ∷ []

-- `new Set(xs)`, in the order of first insertion.
unfoldable pub has : Text → List Text → Bool
unfolding same
has p [] = false
has p (q ∷ ps) = same q p || has p ps

unfoldable pub add_all : List Text → List Text → List Text
unfolding has
add_all set [] = set
add_all set (p ∷ ps) = add_all (if has p set then set else set ++ p ∷ []) ps

-- The allowlist with the default patterns in front of its own, each once.
unfoldable pub merged : MountAllowlist → MountAllowlist
unfolding add_all
merged allowlist = record allowlist {
  blocked_patterns = add_all [] (default_blocked_patterns ++ allowlist.blocked_patterns);
}

unfoldable pub load_file : AllowlistFile → Cache → Option MountAllowlist × Cache
unfolding merged
load_file missing cache = (none, cache)
load_file (malformed error) cache = (none, record cache { allowlist_load_error = some error })
load_file (well_formed allowlist) cache =
    (some (merged allowlist), record cache { cached_allowlist = some (merged allowlist) })

abbrev pub load_uncached : AllowlistFile → Cache → Option Text → Option MountAllowlist × Cache
load_uncached file cache none = load_file file cache
load_uncached file cache (some _) = (none, cache)

abbrev pub load_cached :
    AllowlistFile → Cache → Option MountAllowlist → Option MountAllowlist × Cache
load_cached file cache none = load_uncached file cache cache.allowlist_load_error
load_cached file cache (some allowlist) = (some allowlist, cache)

-- `loadMountAllowlist`: its answer and the cache it leaves.
unfoldable pub load_mount_allowlist : AllowlistFile → Cache → Option MountAllowlist × Cache
unfolding load_file
load_mount_allowlist file cache = load_cached file cache cache.cached_allowlist
