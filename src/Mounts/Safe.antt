-- ===== src/Mounts/Safe.antt =====
-- src/mount-security.ts: what every mount that is passed on satisfies.
use nanoclaw_github_copilot.Base.{◌≡◌, refl, Bool, true, false, List, [], ◌∷◌, ◌++◌, All, All-map}
use nanoclaw_github_copilot.Mounts.Strings.{Text, contains, render}
use nanoclaw_github_copilot.Mounts.Blocked.{Free}
use nanoclaw_github_copilot.Mounts.Load.{
  AllowlistFile, Cache, default_blocked_patterns, has, load_mount_allowlist,
}
use nanoclaw_github_copilot.Mounts.Cached.{has-Free, Guarded, load_mount_allowlist-Guarded}
use nanoclaw_github_copilot.Mounts.Validate.{
  Mount, MountValidationResult, refused, allowed, validate_mount, workspace_extra, keep_allowed,
  validate_additional_mounts,
}
use nanoclaw_github_copilot.Mounts.{AdditionalMount, Filesystem}
use nanoclaw_github_copilot.Mounts.Grants.{Contained, validate_mount-Granted}

-- The directory's path has none of the default patterns, and its path in the container is a contained
-- one under `/workspace/extra/`.
abbrev pub SafeMount : Mount → Type 0
SafeMount m =
    Free (render m.host_path) default_blocked_patterns
    × ((p : Text) × (m.container_path ≡ workspace_extra ++ p) × Contained p)

keep_allowed-Safe :
    (r : MountValidationResult) (mounts : List Mount)
    → ((m : Mount)
        → r ≡ allowed m
        → Free (render m.host_path) default_blocked_patterns × Contained m.container_path)
    → All SafeMount mounts
    → All SafeMount (keep_allowed r mounts)
keep_allowed-Safe (refused _) mounts f h = h
keep_allowed-Safe (allowed m) mounts f h =
    let (free, path) = f m refl in ((free, (m.container_path, refl, path)), h)

-- From a cache that blocks the default patterns, every mount that `validateAdditionalMounts` passes on
-- is safe, whatever the allowlist file and the requests say: the path of the host that it mounts matches
-- no default pattern (`.ssh`, `.env`, `credentials`, …), and it lands below `/workspace/extra/`. What lies
-- below that path is not bounded. The cache goes on blocking the patterns.
pub validate_additional_mounts-Safe :
    (fs : Filesystem) (file : AllowlistFile) (cache : Cache) (mounts : List AdditionalMount)
    (is_default : Bool)
    → Guarded cache
    → All SafeMount (validate_additional_mounts fs file cache mounts is_default).0
      × Guarded (validate_additional_mounts fs file cache mounts is_default).1
unfolding validate_additional_mounts validate_mount
validate_additional_mounts-Safe fs file cache [] is_default g = (tt, g)
validate_additional_mounts-Safe fs file cache (mount ∷ mounts) is_default g =
    let later = load_mount_allowlist-Guarded file cache g in
    let (rest, g') =
      validate_additional_mounts-Safe fs file (load_mount_allowlist file cache).1 mounts is_default
        later.1 in
    (
      keep_allowed-Safe (validate_mount fs file cache mount is_default).0
          (validate_additional_mounts fs file (load_mount_allowlist file cache).1 mounts
            is_default).0
          safe rest,
      g',
    )
  where
    safe :
        (m : Mount)
        → (validate_mount fs file cache mount is_default).0 ≡ allowed m
        → Free (render m.host_path) default_blocked_patterns × Contained m.container_path
    safe m h =
        let (a, loaded, (_, _, path, free, _)) =
          validate_mount-Granted fs file cache mount is_default m h in
        (
          All-map (λ p. has p a.blocked_patterns ≡ true)
              (λ p. contains (render m.host_path) p ≡ false) default_blocked_patterns
              (λ p k. has-Free (render m.host_path) p a.blocked_patterns k free)
              ((load_mount_allowlist-Guarded file cache g).0 a loaded),
          path,
        )
