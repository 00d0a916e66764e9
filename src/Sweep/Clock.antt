-- ===== src/Sweep/Clock.antt =====
-- src/host-sweep.ts: `parseSqliteUtc` reads every text with a zone.
use nanoclaw_github_copilot.Base.{◌≡◌, refl, true, [], ◌∷◌, ◌++◌, arith}
use nanoclaw_github_copilot.Sweep.{Text, has_z, has_zone, as_utc}

has_z-append : (s : Text) → has_z (s ++ b'Z' ∷ []) ≡ true
unfolding has_z
has_z-append [] = refl
has_z-append (c ∷ s) = ground (arith, has_z-append s)

-- What `parseSqliteUtc` hands to `Date.parse` always names a time zone, so it is never read as
-- local time, and a text that names one already is handed over as it is.
pub as_utc-has_zone :
    (s : Text)
    → (has_zone (as_utc s) ≡ true)
      × (has_zone s ≡ true → as_utc s ≡ s)
      × (as_utc (as_utc s) ≡ as_utc s)
unfolding as_utc has_zone
as_utc-has_zone s = (zoned, (λ h. ground (arith, h)), ground (arith, zoned))
  where
    zoned : has_zone (as_utc s) ≡ true
    zoned = ground (arith, has_z-append s)
