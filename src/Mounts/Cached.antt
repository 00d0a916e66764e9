-- ===== src/Mounts/Cached.antt =====
-- src/mount-security.ts: what `loadMountAllowlist` answers and caches.
use nanoclaw_github_copilot.Base.{
  ◌≡◌, ◌≢◌, refl, sym, inl, inr, true, false, Option, Option-cases, none, some, List, [], ◌∷◌, ◌++◌,
  arith, if◌then◌else◌, if_elim, Bool-cases, All, All-map,
}
use nanoclaw_github_copilot.Mounts.Strings.{Text, same, contains}
use nanoclaw_github_copilot.Mounts.Roots.{same_refl, same-eq}
use nanoclaw_github_copilot.Mounts.Blocked.{Free}
use nanoclaw_github_copilot.Mounts.Load.{
  AllowlistFile, missing, malformed, well_formed, Cache, default_blocked_patterns, has, add_all,
  merged, load_file, load_uncached, load_cached, load_mount_allowlist,
}
use nanoclaw_github_copilot.Mounts.{MountAllowlist}

has-append_left : (p : Text) (xs ys : List Text) → has p xs ≡ true → has p (xs ++ ys) ≡ true
unfolding has
has-append_left p [] ys h = absurd (cc h)
has-append_left p (x ∷ xs) ys h = ground (arith, h, has-append_left p xs ys)

has-snoc : (p : Text) (xs : List Text) → has p (xs ++ p ∷ []) ≡ true
unfolding has
has-snoc p [] = ground (arith, same_refl p)
has-snoc p (x ∷ xs) = ground (arith, has-snoc p xs)

-- The patterns of the set and those that are added are in the result.
has-add_all_set : (p : Text) (set ps : List Text) → has p set ≡ true → has p (add_all set ps) ≡ true
unfolding add_all
has-add_all_set p set [] h = h
has-add_all_set p set (q ∷ ps) h = has-add_all_set p (if has q set then set else set ++ q ∷ []) ps (
    if_elim (λ (s : List Text). has p s ≡ true) (has q set) (λ _. h)
      (λ _. has-append_left p set (q ∷ []) h))

has-add_all : (p : Text) (set ps : List Text) → has p ps ≡ true → has p (add_all set ps) ≡ true
unfolding add_all has
has-add_all p set [] h = absurd (cc h)
has-add_all p set (q ∷ ps) h = elim (Bool-cases (same q p)) [
  | inl e ↦ has-add_all_set p (if has q set then set else set ++ q ∷ []) ps (
      if_elim (λ (s : List Text). has p s ≡ true) (has q set) (λ k. rw (sym (same-eq q p e)) k)
        (λ _. rw (same-eq q p e) (has-snoc p set)))
  | inr e ↦ has-add_all p (if has q set then set else set ++ q ∷ []) ps (ground (arith, h, e))
]

-- Every pattern of the first list is in the second.
abbrev pub Included : List Text → List Text → Type 0
Included ps qs = All (λ p. has p qs ≡ true) ps

Included-refl : (ps : List Text) → Included ps ps
unfolding has
Included-refl [] = tt
Included-refl (p ∷ ps) = (
  ground (arith, same_refl p),
  All-map (λ q. has q ps ≡ true) (λ q. has q (p ∷ ps) ≡ true) ps (λ q h. ground (arith, h))
      (Included-refl ps),
)

pub has-Free : (s p : Text) (ps : List Text) → has p ps ≡ true → Free s ps → contains s p ≡ false
unfolding has
has-Free s p [] h f = absurd (cc h)
has-Free s p (q ∷ ps) h f = elim (Bool-cases (same q p)) [
  | inl e ↦ ground (arith, f.0, same-eq q p e)
  | inr e ↦ has-Free s p ps (ground (arith, h, e)) f.1
]

merged-Included :
    (a : MountAllowlist) → Included default_blocked_patterns (merged a).blocked_patterns
unfolding merged
merged-Included a =
    All-map (λ p. has p default_blocked_patterns ≡ true)
      (λ p. has p (merged a).blocked_patterns ≡ true) default_blocked_patterns
      (λ p h.
        has-add_all p [] (default_blocked_patterns ++ a.blocked_patterns)
          (has-append_left p default_blocked_patterns a.blocked_patterns h))
      (Included-refl default_blocked_patterns)

-- A cached allowlist blocks the default patterns.
abbrev pub Guarded : Cache → Type 0
Guarded cache =
    (a : MountAllowlist)
    → cache.cached_allowlist ≡ some a
    → Included default_blocked_patterns a.blocked_patterns

-- The allowlist that an answer holds blocks the default patterns, and the cache goes on doing so.
abbrev pub GuardedAnswer : Option MountAllowlist × Cache → Type 0
GuardedAnswer r =
    ((a : MountAllowlist) → r.0 ≡ some a → Included default_blocked_patterns a.blocked_patterns)
    × Guarded r.1

abbrev Guards : Option MountAllowlist → Type 0
Guards o = (a : MountAllowlist) → o ≡ some a → Included default_blocked_patterns a.blocked_patterns

Guards-merged : (f : MountAllowlist) → Guards (some (merged f))
Guards-merged f a h = rw (sym (same_allowlist h)) (merged-Included f)
  where
    same_allowlist : some (merged f) ≡ some a → merged f ≡ a
    same_allowlist e = cc e

load_file-Guarded :
    (file : AllowlistFile) (cache : Cache) → Guarded cache → GuardedAnswer (load_file file cache)
unfolding load_file
load_file-Guarded missing cache g = ((λ a h. absurd (cc h)), g)
load_file-Guarded (malformed error) cache g = ((λ a h. absurd (cc h)), g)
load_file-Guarded (well_formed f) cache g = (Guards-merged f, Guards-merged f)

load_uncached-Guarded :
    (file : AllowlistFile) (cache : Cache) (e : Option Text)
    → Guarded cache
    → GuardedAnswer (load_uncached file cache e)
load_uncached-Guarded file cache none g = load_file-Guarded file cache g
load_uncached-Guarded file cache (some _) g = ((λ a h. absurd (cc h)), g)

load_cached-Guarded :
    (file : AllowlistFile) (cache : Cache) (o : Option MountAllowlist)
    → Guards o
    → Guarded cache
    → GuardedAnswer (load_cached file cache o)
load_cached-Guarded file cache none h g =
    load_uncached-Guarded file cache cache.allowlist_load_error g
load_cached-Guarded file cache (some b) h g = (h, g)

-- From a cache whose allowlist blocks the default patterns, loading answers, and caches, only
-- allowlists that block them all, whatever the file says: a file adds patterns and removes none.
pub load_mount_allowlist-Guarded :
    (file : AllowlistFile) (cache : Cache)
    → Guarded cache
    → GuardedAnswer (load_mount_allowlist file cache)
unfolding load_mount_allowlist
load_mount_allowlist-Guarded file cache g =
    load_cached-Guarded file cache cache.cached_allowlist g g

-- Once a load has found a file, well formed or not, later loads answer the same and leave the cache,
-- whatever has become of the file: an edit takes effect with the next start only. A file that is
-- missing is looked for again.
pub load_mount_allowlist_once :
    (first later : AllowlistFile) (cache : Cache)
    → first ≢ missing
    → load_mount_allowlist later (load_mount_allowlist first cache).1
      ≡ load_mount_allowlist first cache
unfolding load_mount_allowlist load_file
load_mount_allowlist_once missing later cache h = absurd (h refl)
load_mount_allowlist_once (malformed error) later cache h =
    ground (arith, Option-cases cache.cached_allowlist, Option-cases cache.allowlist_load_error)
load_mount_allowlist_once (well_formed f) later cache h =
    ground (arith, Option-cases cache.cached_allowlist, Option-cases cache.allowlist_load_error)
