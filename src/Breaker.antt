-- ===== src/Breaker.antt =====
-- src/circuit-breaker.ts: the back-off of starts after crashes. What JSON.stringify writes is read again
-- as it was; a timestamp that `Date` does not read is `none`.
pub mod Schedule
pub mod Tests
use nanoclaw_github_copilot.Base.{
  ℕ, zero, suc, ◌-◌, ◌*◌, min, Bool, Option, none, some, List, [], ◌∷◌, ltb, if◌then◌else◌,
}

abbrev pub reset_window_ms : ℕ
reset_window_ms = 60 * 60 * 1000

abbrev pub backoff_schedule_s : List ℕ
backoff_schedule_s = 0 ∷ 0 ∷ 10 ∷ 30 ∷ 120 ∷ 300 ∷ 900 ∷ []

pub record CircuitBreakerState : Type 0 where
  pub attempt : ℕ
  pub timestamp : Option ℕ

-- `xs[i]`, with 0 for `undefined`, which is no delay either.
unfoldable pub entry : List ℕ → ℕ → ℕ
entry [] i = 0
entry (x ∷ xs) zero = x
entry (x ∷ xs) (suc i) = entry xs i

-- `getDelay`, for an attempt from 1 on.
unfoldable pub get_delay : ℕ → ℕ
unfolding entry
get_delay attempt = entry backoff_schedule_s (min (attempt - 1) 6)

-- `elapsedMs < RESET_WINDOW_MS`. A timestamp in the future has elapsed 0 here and less than 0 in the
-- source, both within the window; one that does not parse is outside.
abbrev pub within_window : ℕ → Option ℕ → Bool
within_window now none = Bool.false
within_window now (some t) = ltb (now - t) reset_window_ms

unfoldable pub next_attempt : ℕ → Option CircuitBreakerState → ℕ
next_attempt now none = 1
next_attempt now (some prev) = if within_window now prev.timestamp then suc prev.attempt else 1

-- `enforceStartupBackoff`: the file that it writes, and the seconds that it waits.
unfoldable pub enforce_startup_backoff :
    ℕ → Option CircuitBreakerState → Option CircuitBreakerState × ℕ
unfolding next_attempt get_delay
enforce_startup_backoff now prev =
    let attempt = next_attempt now prev in
    (some (record { attempt = attempt; timestamp = some now }), get_delay attempt)

-- `resetCircuitBreaker`: the file is gone.
unfoldable pub reset_circuit_breaker : Option CircuitBreakerState → Option CircuitBreakerState
reset_circuit_breaker prev = none
