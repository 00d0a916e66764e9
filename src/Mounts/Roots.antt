-- ===== src/Mounts/Roots.antt =====
-- src/mount-security.ts: what the `path.relative` test of `findAllowedRoot` accepts.
use nanoclaw_github_copilot.Base.{
  ◌≡◌, refl, ◌↔◌, inl, inr, true, false, [], ◌∷◌, ◌++◌, arith, Bool-cases,
}
use nanoclaw_github_copilot.Mounts.Strings.{
  Text, RealPath, same, starts_with, up, climb, relative, render_relative,
}
use nanoclaw_github_copilot.Mounts.Validate.{is_under}

pub same_refl : (s : Text) → same s s ≡ true
unfolding same
same_refl [] = refl
same_refl (c ∷ s) = ground (arith, same_refl s)

pub same-eq : (s t : Text) → same s t ≡ true → s ≡ t
unfolding same
same-eq [] [] h = refl
same-eq [] (d ∷ t) h = absurd (cc h)
same-eq (c ∷ s) [] h = absurd (cc h)
same-eq (c ∷ s) (d ∷ t) h = ground (arith, h, same-eq s t)

-- The real path is the root's path continued by components of which the first does not begin with
-- two dots.
abbrev pub Under : RealPath → RealPath → Type 0
Under real_root real_path =
    (rest : RealPath) × (real_path ≡ real_root ++ rest)
    × (starts_with (render_relative rest) up ≡ false)

starts_with-up : (s : Text) → starts_with (up ++ s) up ≡ true
unfolding starts_with
starts_with-up s = refl

climb-up :
    (c : Text) (from to : RealPath) → starts_with (render_relative (climb (c ∷ from) to)) up ≡ true
unfolding climb render_relative starts_with
climb-up c from to = refl

is_under-Under : (root real : RealPath) → is_under root real ≡ true → Under root real
unfolding is_under relative
is_under-Under [] real h = (real, refl, ground (arith, h))
is_under-Under (c ∷ root) [] h = absurd (ground (arith, h, climb-up c root []))
is_under-Under (c ∷ root) (d ∷ real) h = elim (Bool-cases (same c d)) [
  | inl e ↦
      let (rest, eq, dots) = is_under-Under root real (ground (arith, h, e)) in
      (rest, ground (arith, eq, same-eq c d e), dots)
  | inr e ↦ absurd (ground (arith, h, e, climb-up c root (d ∷ real)))
]

Under-is_under :
    (root rest : RealPath)
    → starts_with (render_relative rest) up ≡ false
    → is_under root (root ++ rest) ≡ true
unfolding is_under relative
Under-is_under [] rest h = ground (arith, h)
Under-is_under (c ∷ root) rest h = ground (arith, same_refl c, Under-is_under root rest h)

-- A real path passes the test for a real root exactly if it is the root or lies below it and its next
-- component does not begin with two dots: a sibling whose name the root's name begins
-- (`/srv/app-old` for `/srv/app`) never passes.
pub is_under_iff : (root real : RealPath) → (is_under root real ≡ true) ↔ Under root real
is_under_iff root real = (is_under-Under root real, back)
  where
    back : Under root real → is_under root real ≡ true
    back (rest, e, dots) = rw e (Under-is_under root rest dots)
