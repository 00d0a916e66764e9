-- ===== src/Mounts.antt =====
-- src/mount-security.ts: which host directories a container may mount. A string is the list of its
-- characters. A real path, which `fs.realpathSync` answers, is the list of its components: it is
-- absolute and has no empty component, no `.`, no `..` and no link. What the file system and
-- `path.resolve` answer is a `Filesystem`; `logger` calls are left out.
pub mod Strings
pub mod Load
pub mod Validate
pub mod Blocked
pub mod Roots
pub mod Cached
pub mod Grants
pub mod Safe
pub mod Tests
use nanoclaw_github_copilot.Base.{Bool, Option, List}
use nanoclaw_github_copilot.Mounts.Strings.{Text, RealPath}

pub record AdditionalMount : Type 0 where
  pub host_path : Text
  pub container_path : Option Text
  pub readonly : Option Bool

pub record AllowedRoot : Type 0 where
  pub path : Text
  pub allow_read_write : Bool
  pub description : Option Text

pub record MountAllowlist : Type 0 where
  pub allowed_roots : List AllowedRoot
  pub blocked_patterns : List Text
  pub non_main_read_only : Bool

pub record Filesystem : Type 0 where
  pub home : Text
  pub resolve : Text → Text
  pub join : Text → Text → Text
  pub basename : Text → Text
  pub realpath : Text → Option RealPath
