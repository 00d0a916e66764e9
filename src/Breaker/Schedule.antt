-- ===== src/Breaker/Schedule.antt =====
-- src/circuit-breaker.ts: the delays of a row of starts.
use nanoclaw_github_copilot.Base.{
  ℕ, zero, suc, ◌-◌, ◌≤◌, ◌<◌, min, ◌≡◌, refl, ap, Option, some, List, [], ◌∷◌, arith,
}
use nanoclaw_github_copilot.Breaker.{
  reset_window_ms, CircuitBreakerState, entry, get_delay, next_attempt, enforce_startup_backoff,
  reset_circuit_breaker,
}

-- The delays of starts at these instants, none of them shut down in order.
unfoldable pub crash_delays : Option CircuitBreakerState → List ℕ → List ℕ
crash_delays prev [] = []
crash_delays prev (now ∷ later) =
    let started = enforce_startup_backoff now prev in started.1 ∷ crash_delays started.0 later

-- Each instant is less than an hour after the one before.
abbrev pub Close : ℕ → List ℕ → Type 0
Close t [] = Unit {0}
Close t (now ∷ later) = (now - t < reset_window_ms) × Close now later

-- The first start of a row and those after it.
abbrev pub CrashLoop : List ℕ → Type 0
CrashLoop [] = Unit {0}
CrashLoop (t ∷ later) = Close t later

-- The delays of the attempts from this one on, one for each instant.
abbrev pub delays_from : ℕ → List ℕ → List ℕ
delays_from attempt [] = []
delays_from attempt (_ ∷ later) = get_delay attempt ∷ delays_from (suc attempt) later

crash_delays-Close :
    (attempt t : ℕ) (later : List ℕ)
    → Close t later
    → crash_delays (some (record { attempt = attempt; timestamp = some t })) later
      ≡ delays_from (suc attempt) later
unfolding crash_delays enforce_startup_backoff next_attempt
crash_delays-Close attempt t [] c = refl
crash_delays-Close attempt t (now ∷ later) c =
    ground (arith, c.0, crash_delays-Close (suc attempt) now later c.1)

-- After an orderly shutdown, a row of crashes less than an hour apart waits by the schedule of the
-- attempts 1, 2, 3, …: each crash counts once.
pub crash_delays-reset :
    (prev : Option CircuitBreakerState) (starts : List ℕ)
    → CrashLoop starts
    → crash_delays (reset_circuit_breaker prev) starts ≡ delays_from 1 starts
unfolding crash_delays enforce_startup_backoff next_attempt reset_circuit_breaker
crash_delays-reset prev [] c = refl
crash_delays-reset prev (t ∷ later) c = ap (λ ds. get_delay 1 ∷ ds) (crash_delays-Close 1 t later c)

get_delay-late : (n : ℕ) → 7 ≤ n → get_delay n ≡ 900
unfolding get_delay entry
get_delay-late n h = rw (sixth) refl
  where
    sixth : min (n - 1) 6 ≡ 6
    sixth = omega (arith, h)

-- The delay never falls from one attempt to the next, is 0 for the first two, and is 15 minutes from the
-- seventh on and never more.
pub get_delay_bounds :
    (n : ℕ)
    → (get_delay n ≤ get_delay (suc n))
      × (get_delay n ≤ 900)
      × (n < 3 → get_delay n ≡ 0)
      × (7 ≤ n → get_delay n ≡ 900)
unfolding get_delay entry
get_delay_bounds zero = (omega arith, omega arith, (λ _. refl), λ h. absurd (omega (arith, h)))
get_delay_bounds (suc zero) =
    (omega arith, omega arith, (λ _. refl), λ h. absurd (omega (arith, h)))
get_delay_bounds (suc (suc zero)) =
    (omega arith, omega arith, (λ _. refl), λ h. absurd (omega (arith, h)))
get_delay_bounds (suc (suc (suc zero))) =
    (omega arith, omega arith, (λ h. absurd (omega (arith, h))), λ h. absurd (omega (arith, h)))
get_delay_bounds (suc (suc (suc (suc zero)))) =
    (omega arith, omega arith, (λ h. absurd (omega (arith, h))), λ h. absurd (omega (arith, h)))
get_delay_bounds (suc (suc (suc (suc (suc zero))))) =
    (omega arith, omega arith, (λ h. absurd (omega (arith, h))), λ h. absurd (omega (arith, h)))
get_delay_bounds (suc (suc (suc (suc (suc (suc zero)))))) =
    (omega arith, omega arith, (λ h. absurd (omega (arith, h))), λ h. absurd (omega (arith, h)))
get_delay_bounds (suc (suc (suc (suc (suc (suc (suc n))))))) =
    let n7 = suc (suc (suc (suc (suc (suc (suc n)))))) in
    let late = get_delay-late n7 (omega arith) in
    let next = get_delay-late (suc n7) (omega arith) in
    (omega (arith, late, next), omega (arith, late), (λ h. absurd (omega (arith, h))), λ _. late)
