-- ===== src/Names/Safe.antt =====
-- src/attachment-safety.ts and src/platform-id.ts: where an attachment lands, and the prefix of a platform
-- id.
use nanoclaw_github_copilot.Base.{◌≡◌, refl, true, false, [], ◌∷◌, ◌++◌, arith}
use nanoclaw_github_copilot.Mounts.Strings.{Text, RealPath, starts_with}
use nanoclaw_github_copilot.Names.{
  slash, enter, walk, resolve_path, has_separator, is_safe_attachment_name, colon,
  namespaced_platform_id,
}
use nanoclaw_github_copilot.Names.Folder.{IsOnePart, split-one}

separators-IsOnePart : (s : Text) → has_separator s ≡ false → IsOnePart s
unfolding has_separator
separators-IsOnePart [] h = tt
separators-IsOnePart (c ∷ s) h = (ground (arith, h), separators-IsOnePart s (ground (arith, h)))

part-slash : (s : Text) → IsOnePart s → starts_with s slash ≡ false
unfolding starts_with
part-slash [] h = refl
part-slash (c ∷ s) h = ground (arith, h.0)

-- A safe attachment name, joined to the staging directory, is the file of that name directly in that
-- directory.
pub safe_name_below :
    (dir : RealPath) (name : Text)
    → is_safe_attachment_name name ≡ true
    → resolve_path dir name ≡ dir ++ name ∷ []
unfolding is_safe_attachment_name resolve_path walk enter
safe_name_below dir name h = rw (split-one name part, part-slash name part) (ground (arith, h))
  where
    part : IsOnePart name
    part = separators-IsOnePart name (ground (arith, h))

starts_with-append : (p s : Text) → starts_with (p ++ s) p ≡ true
unfolding starts_with
starts_with-append [] [] = refl
starts_with-append [] (c ∷ s) = refl
starts_with-append (c ∷ p) s = ground (arith, starts_with-append p s)

append_assoc : (p q s : Text) → p ++ q ++ s ≡ (p ++ q) ++ s
append_assoc [] q s = refl
append_assoc (c ∷ p) q s = ground (arith, append_assoc p q s)

-- Giving a platform id its channel's prefix a second time changes nothing, so a row that is written from a
-- row has the key that the first has.
pub namespaced_platform_id_idem :
    (channel raw : Text)
    → namespaced_platform_id channel (namespaced_platform_id channel raw)
      ≡ namespaced_platform_id channel raw
unfolding namespaced_platform_id
namespaced_platform_id_idem channel raw =
    ground (arith, append_assoc channel colon raw, starts_with-append (channel ++ colon) raw)
