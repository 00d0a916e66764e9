-- ===== src/Mounts/Grants.antt =====
-- src/mount-security.ts: what an allowlist grants.
use nanoclaw_github_copilot.Base.{
  ◌≡◌, refl, sym, ap, subst, ◌⊎◌, inl, inr, Bool, true, false, Option, none, some, List, [], ◌∷◌,
  arith, Bool-cases, Any, Any-map,
}
use nanoclaw_github_copilot.Mounts.Strings.{
  Text, RealPath, starts_with, contains, is_blank, render, up,
}
use nanoclaw_github_copilot.Mounts.Roots.{Under, is_under_iff}
use nanoclaw_github_copilot.Mounts.Blocked.{Free, matches-Free}
use nanoclaw_github_copilot.Mounts.Load.{AllowlistFile, Cache, load_mount_allowlist}
use nanoclaw_github_copilot.Mounts.Validate.{
  expand_path, matches_blocked_pattern, covers, find_allowed_root, is_valid_container_path, Mount,
  allowed, container_path_of, effective_readonly, is_false, check_root, check_blocked,
  check_real_path, check_mount, validate_mount,
}
use nanoclaw_github_copilot.Mounts.{AdditionalMount, AllowedRoot, MountAllowlist, Filesystem}

-- A path inside the container that cannot leave the directory in front of it nor add an option.
abbrev pub Contained : Text → Type 0
Contained p =
    (contains p up ≡ false)
    × (starts_with p (b'/' ∷ []) ≡ false)
    × (is_blank p ≡ false)
    × (contains p (b':' ∷ []) ≡ false)

valid-Contained : (p : Text) → is_valid_container_path p ≡ true → Contained p
unfolding is_valid_container_path
valid-Contained p h = (ground (arith, h), ground (arith, h), ground (arith, h), ground (arith, h))

-- The root exists and the path is the root or below it.
abbrev pub Covers : Filesystem → RealPath → AllowedRoot → Type 0
Covers fs real root =
    (real_root : RealPath) × (fs.realpath (expand_path fs root.path) ≡ some real_root)
    × Under real_root real

covers-Under :
    (real : RealPath) (o : Option RealPath)
    → covers real o ≡ true
    → (real_root : RealPath) × (o ≡ some real_root) × Under real_root real
covers-Under real none h = absurd (cc h)
covers-Under real (some r) h = (r, refl, (is_under_iff r real).0 h)

find-Covers :
    (fs : Filesystem) (real : RealPath) (roots : List AllowedRoot) (root : AllowedRoot)
    → find_allowed_root fs real roots ≡ some root
    → Any (λ r. (r ≡ root) × Covers fs real r) roots
unfolding find_allowed_root
find-Covers fs real [] root h = absurd (cc h)
find-Covers fs real (r ∷ roots) root h =
    elim (Bool-cases (covers real (fs.realpath (expand_path fs r.path)))) [
      | inl e ↦
          inl (ground (arith, h, e), covers-Under real (fs.realpath (expand_path fs r.path)) e)
      | inr e ↦ inr (find-Covers fs real roots root (ground (arith, h, e)))
    ]

-- Writing was asked for, the root grants it, and the group is the main one or the others may write.
abbrev pub Writable : MountAllowlist → AdditionalMount → Bool → AllowedRoot → Type 0
Writable a mount is_default root =
    (mount.readonly ≡ some false)
    × (root.allow_read_write ≡ true)
    × ((is_default ≡ true) ⊎ (a.non_main_read_only ≡ false))

readonly-Writable :
    (a : MountAllowlist) (root : AllowedRoot) (mount : AdditionalMount) (is_default : Bool)
    → effective_readonly a root mount is_default ≡ false
    → Writable a mount is_default root
unfolding effective_readonly
readonly-Writable a root mount is_default h =
    (asked mount.readonly (ground (arith, h)), ground (arith, h), main (Bool-cases is_default))
  where
    asked : (o : Option Bool) → is_false o ≡ true → o ≡ some false
    asked none e = absurd (cc e)
    asked (some true) e = absurd (cc e)
    asked (some false) e = refl

    main :
        (is_default ≡ true) ⊎ (is_default ≡ false)
        → (is_default ≡ true) ⊎ (a.non_main_read_only ≡ false)
    main (inl e) = inl e
    main (inr e) = inr (ground (arith, h, e))

-- A root of the allowlist covers the mount's directory, and grants writing where the mount may write.
abbrev pub RootGrants : Filesystem → MountAllowlist → AdditionalMount → Bool → Mount → Type 0
RootGrants fs a mount is_default m =
    Any
      (λ root. Covers fs m.host_path root × (m.readonly ≡ false → Writable a mount is_default root))
      a.allowed_roots

-- What the allowlist demands of a mount that it grants.
abbrev pub Granted : Filesystem → MountAllowlist → AdditionalMount → Bool → Mount → Type 0
Granted fs a mount is_default m =
    (fs.realpath (expand_path fs mount.host_path) ≡ some m.host_path)
    × (m.container_path ≡ container_path_of fs mount)
    × Contained m.container_path
    × Free (render m.host_path) a.blocked_patterns
    × RootGrants fs a mount is_default m

module _ (fs : Filesystem) (a : MountAllowlist) (mount : AdditionalMount) (is_default : Bool)
    (m : Mount) where
  check_root-grants :
      (p : Text) (real : RealPath) (o : Option AllowedRoot)
      → find_allowed_root fs real a.allowed_roots ≡ o
      → check_root a mount is_default p real o ≡ allowed m
      → (real ≡ m.host_path) × (p ≡ m.container_path) × RootGrants fs a mount is_default m
  unfolding check_root
  check_root-grants p real none f h = absurd (cc h)
  check_root-grants p real (some root) f h =
      (cc h, cc h, subst (RootGrants fs a mount is_default) same_mount grants)
    where
      granted : Mount
      granted = record {
        host_path = real;
        container_path = p;
        readonly = effective_readonly a root mount is_default;
      }

      same_mount : granted ≡ m
      same_mount = cc h

      grants : RootGrants fs a mount is_default granted
      grants =
          Any-map (λ r. (r ≡ root) × Covers fs real r)
            (λ r. Covers fs real r × (granted.readonly ≡ false → Writable a mount is_default r))
            a.allowed_roots
            (λ r w. (
              w.1,
              λ e.
                  subst (Writable a mount is_default) (sym w.0)
                    (readonly-Writable a root mount is_default e),
            ))
            (find-Covers fs real a.allowed_roots root f)

  check_blocked-grants :
      (p : Text) (real : RealPath) (o : Option Text)
      → matches_blocked_pattern (render real) a.blocked_patterns ≡ o
      → check_blocked fs a mount is_default p real o ≡ allowed m
      → (real ≡ m.host_path)
        × (p ≡ m.container_path)
        × Free (render real) a.blocked_patterns
        × RootGrants fs a mount is_default m
  unfolding check_blocked
  check_blocked-grants p real (some pattern) f h = absurd (cc h)
  check_blocked-grants p real none f h =
      let (e, c, g) = check_root-grants p real (find_allowed_root fs real a.allowed_roots) refl h in
      (e, c, matches-Free (render real) a.blocked_patterns f, g)

  check_real_path-grants :
      (p : Text) (o : Option RealPath)
      → check_real_path fs a mount is_default p o ≡ allowed m
      → (o ≡ some m.host_path)
        × (p ≡ m.container_path)
        × Free (render m.host_path) a.blocked_patterns
        × RootGrants fs a mount is_default m
  unfolding check_real_path
  check_real_path-grants p none h = absurd (cc h)
  check_real_path-grants p (some real) h =
      let (e, c, f, g) =
        check_blocked-grants p real (matches_blocked_pattern (render real) a.blocked_patterns) refl
          h in
      (ap some e, c, subst (λ r. Free (render r) a.blocked_patterns) e f, g)

  check_mount-Granted :
      check_mount fs mount is_default (some a) ≡ allowed m → Granted fs a mount is_default m
  unfolding check_mount
  check_mount-Granted h = elim (Bool-cases (is_valid_container_path path)) [
    | inl valid ↦
        let (e, c, f, g) =
          check_real_path-grants path (fs.realpath (expand_path fs mount.host_path))
            (ground (arith, h, valid)) in
        (e, sym c, subst Contained c (valid-Contained path valid), f, g)
    | inr invalid ↦ absurd (ground (arith, h, invalid))
  ]
    where
      path : Text
      path = container_path_of fs mount

-- An allowed mount is one that the loaded allowlist grants: its directory is real, lies under an
-- allowed root and has no blocked pattern in its path; its path in the container stays there; and it
-- is writable only if writing was asked for, the root grants it, and the group is the main one or
-- the allowlist lets the others write.
pub validate_mount-Granted :
    (fs : Filesystem) (file : AllowlistFile) (cache : Cache) (mount : AdditionalMount)
    (is_default : Bool) (m : Mount)
    → (validate_mount fs file cache mount is_default).0 ≡ allowed m
    → (a : MountAllowlist) × ((load_mount_allowlist file cache).0 ≡ some a)
      × Granted fs a mount is_default m
unfolding validate_mount check_mount
validate_mount-Granted fs file cache mount is_default m = answer (load_mount_allowlist file cache).0
  where
    answer :
        (o : Option MountAllowlist)
        → check_mount fs mount is_default o ≡ allowed m
        → (a : MountAllowlist) × (o ≡ some a) × Granted fs a mount is_default m
    answer none h = absurd (cc h)
    answer (some a) h = (a, refl, check_mount-Granted fs a mount is_default m h)
