-- ===== src/Breaker/Tests.antt =====
-- src/circuit-breaker.ts: a crash loop.
use nanoclaw_github_copilot.Base.{ℕ, ◌≡◌, refl, none, List, [], ◌∷◌, arith}
use nanoclaw_github_copilot.Breaker.{
  entry, get_delay, next_attempt, enforce_startup_backoff, reset_circuit_breaker,
}
use nanoclaw_github_copilot.Breaker.Schedule.{
  crash_delays, CrashLoop, delays_from, crash_delays-reset,
}

-- Starts a minute apart.
abbrev minutes : List ℕ
minutes = 60000 ∷ 120000 ∷ 180000 ∷ 240000 ∷ 300000 ∷ 360000 ∷ 420000 ∷ 480000 ∷ []

minutes_delays : crash_delays none minutes ≡ 0 ∷ 0 ∷ 10 ∷ 30 ∷ 120 ∷ 300 ∷ 900 ∷ 900 ∷ []
unfolding crash_delays enforce_startup_backoff next_attempt get_delay entry
minutes_delays = refl

minutes-CrashLoop : CrashLoop minutes
minutes-CrashLoop = (
  omega arith,
  (omega arith, (omega arith, (omega arith, (omega arith, (omega arith, (omega arith, tt)))))),
)

crash_delays-reset_example :
    crash_delays (reset_circuit_breaker none) minutes ≡ delays_from 1 minutes
crash_delays-reset_example = crash_delays-reset none minutes minutes-CrashLoop
