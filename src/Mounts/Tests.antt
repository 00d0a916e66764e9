-- ===== src/Mounts/Tests.antt =====
-- src/mount-security.ts: mounts checked against a concrete allowlist and file system.
use nanoclaw_github_copilot.Base.{◌≡◌, ◌≢◌, refl, true, false, Option, none, some, [], ◌∷◌, All}
use nanoclaw_github_copilot.Mounts.Strings.{
  Text, RealPath, same, starts_with, contains, is_blank, split, split_first, split_rest, render,
  render_tail, relative, climb, render_relative,
}
use nanoclaw_github_copilot.Mounts.Blocked.{first_contained, matches_blocked_pattern-first}
use nanoclaw_github_copilot.Mounts.Load.{
  missing, malformed, well_formed, Cache, has, add_all, merged, load_file, load_mount_allowlist,
}
use nanoclaw_github_copilot.Mounts.Cached.{Guarded}
use nanoclaw_github_copilot.Mounts.Validate.{
  expand_path, some_part_matches, matches_blocked_pattern, is_under, find_allowed_root,
  is_valid_container_path, Mount, allowed, container_path_of, effective_readonly, check_root,
  check_blocked, check_real_path, check_mount, validate_mount, validate_additional_mounts,
}
use nanoclaw_github_copilot.Mounts.Grants.{Granted, validate_mount-Granted}
use nanoclaw_github_copilot.Mounts.Safe.{SafeMount, validate_additional_mounts-Safe}
use nanoclaw_github_copilot.Mounts.{AdditionalMount, MountAllowlist, Filesystem}

abbrev srv : Text
srv = b's' ∷ b'r' ∷ b'v' ∷ []

abbrev app : Text
app = b'a' ∷ b'p' ∷ b'p' ∷ []

abbrev app_old : Text
app_old = b'a' ∷ b'p' ∷ b'p' ∷ b'-' ∷ b'o' ∷ b'l' ∷ b'd' ∷ []

abbrev ssh : Text
ssh = b'.' ∷ b's' ∷ b's' ∷ b'h' ∷ []

-- Three directories: `r` names `/srv`, `a` names `/srv/app`, any other text `/srv/.ssh`.
abbrev three_dirs : Text → Option RealPath
three_dirs (c ∷ []) = elim (same (c ∷ []) (b'r' ∷ [])) [
  | true ↦ some (srv ∷ [])
  | false ↦ some (srv ∷ app ∷ [])
]
three_dirs _ = some (srv ∷ ssh ∷ [])

abbrev disk : Filesystem
disk = record {
  home = b'h' ∷ [];
  resolve = λ p. p;
  join = λ p _. p;
  basename = λ _. app;
  realpath = three_dirs;
}

abbrev allowlist : MountAllowlist
allowlist = record {
  allowed_roots = record { path = b'r' ∷ []; allow_read_write = true; description = none } ∷ [];
  blocked_patterns = [];
  non_main_read_only = true;
}

abbrev asked : Text → AdditionalMount
asked p = record { host_path = p; container_path = none; readonly = some false }

abbrev empty_cache : Cache
empty_cache = record { cached_allowlist = none; allowlist_load_error = none }

empty_cache-Guarded : Guarded empty_cache
empty_cache-Guarded a h = absurd (cc h)

-- Everything that a validation computes with.
machine : Unit {0}
unfolding validate_additional_mounts validate_mount check_mount check_real_path check_blocked
    check_root effective_readonly container_path_of is_valid_container_path find_allowed_root
    is_under matches_blocked_pattern some_part_matches expand_path load_mount_allowlist load_file
    merged add_all has same starts_with contains is_blank split split_first split_rest render
    render_tail relative climb render_relative
machine = tt

abbrev granted : Mount
granted = record { host_path = srv ∷ app ∷ []; container_path = app; readonly = false }

main_writes :
    (validate_mount disk (well_formed allowlist) empty_cache (asked (b'a' ∷ [])) true).0
    ≡ allowed granted
unfolding machine
main_writes = refl

-- The group that is not the main one reads, and the directory `.ssh` is left out.
others_read :
    (validate_additional_mounts disk
      (well_formed allowlist)
      empty_cache
      (asked (b'a' ∷ []) ∷ asked (b's' ∷ b's' ∷ []) ∷ [])
      false).0
    ≡ record {
      host_path = srv ∷ app ∷ [];
      container_path =
          b'/' ∷ b'w' ∷ b'o' ∷ b'r' ∷ b'k' ∷ b's' ∷ b'p' ∷ b'a' ∷ b'c' ∷ b'e' ∷ b'/' ∷ b'e' ∷ b'x'
          ∷ b't' ∷ b'r' ∷ b'a' ∷ b'/' ∷ b'a' ∷ b'p' ∷ b'p' ∷ [];
      readonly = true;
    }
      ∷ []
unfolding machine
others_read = refl

sibling_outside : is_under (srv ∷ app ∷ []) (srv ∷ app_old ∷ []) ≡ false
unfolding machine
sibling_outside = refl

matches_blocked_pattern-first_example :
    matches_blocked_pattern (b'/' ∷ ssh) (app ∷ ssh ∷ [])
    ≡ first_contained (b'/' ∷ ssh) (app ∷ ssh ∷ [])
matches_blocked_pattern-first_example = matches_blocked_pattern-first (b'/' ∷ ssh) (app ∷ ssh ∷ [])

found : malformed [] ≢ missing
found e = cc e

validate_mount-Granted_example :
    (a : MountAllowlist) × ((load_mount_allowlist (well_formed allowlist) empty_cache).0 ≡ some a)
    × Granted disk a (asked (b'a' ∷ [])) true granted
validate_mount-Granted_example =
    validate_mount-Granted disk (well_formed allowlist) empty_cache (asked (b'a' ∷ [])) true granted
      main_writes

validate_additional_mounts-Safe_example :
    All SafeMount
      (validate_additional_mounts disk
        (well_formed allowlist)
        empty_cache
        (asked (b'a' ∷ []) ∷ [])
        true).0
    × Guarded
        (validate_additional_mounts disk
          (well_formed allowlist)
          empty_cache
          (asked (b'a' ∷ []) ∷ [])
          true).1
validate_additional_mounts-Safe_example =
    validate_additional_mounts-Safe disk (well_formed allowlist) empty_cache
      (asked (b'a' ∷ []) ∷ []) true empty_cache-Guarded
