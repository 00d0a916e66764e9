-- ===== src/Scheduler/Advance.antt =====
-- src/task-scheduler.ts: `computeNextRun` ends, and where.
use nanoclaw_github_copilot.Base.{
  ℕ, zero, suc, ◌+◌, ◌*◌, ◌≡◌, refl, ◌≤◌, ◌<◌, ◌⊎◌, inl, inr, Bool, true, false, Option, none, some,
  ℤ, pos, negsuc, arith, leb,
}
use nanoclaw_github_copilot.Mounts.Strings.{Text}
use nanoclaw_github_copilot.Scheduler.{
  interval, ScheduledTask, parse_int, usable, runs_at, or_epoch, catch_up, compute_next_run,
}

-- The first instant after `now` among `start`, `start + ms`, `start + 2 * ms` and so on.
pub record IsNext (now ms start t : ℕ) : Type 0 where
  pub later : now < t
  pub steps : ℕ
  pub on_grid : t ≡ start + steps * ms
  pub nearest : (steps ≡ 0) ⊎ (t ≤ now + ms)

IsNext-suc :
    (now ms start t : ℕ) → start ≤ now → IsNext now ms (start + ms) t → IsNext now ms start t
IsNext-suc now ms start t h n = record {
  later = n.later;
  steps = suc n.steps;
  on_grid = omega (arith, n.on_grid);
  nearest = elim n.nearest [
    | inl e ↦ inr (omega (arith, h, n.on_grid, zero_times n.steps ms e))
    | inr l ↦ inr l
  ];
}
  where
    zero_times : (k m : ℕ) → k ≡ 0 → k * m ≡ 0
    zero_times k m e = ground (arith, e)

-- What holds of the rest of the loop and of its exit holds of the loop.
loop_elim :
    (P : Option ℕ → Type 0) (b : Bool) {rest exit : Option ℕ}
    → (b ≡ true → P rest)
    → (b ≡ false → P exit)
    → P (elim b [ true ↦ rest | false ↦ exit ])
loop_elim P true f g = f refl
loop_elim P false f g = g refl

-- With fuel that covers the distance to `now`, the loop ends.
catch_up-IsNext :
    (fuel now ms next : ℕ)
    → 1 ≤ ms
    → now < next + fuel
    → (t : ℕ) × (catch_up (suc fuel) now ms next ≡ some t) × IsNext now ms next t
unfolding catch_up
catch_up-IsNext zero now ms next p f = (
  next,
  ground (arith, f),
  record { later = omega (arith, f); steps = 0; on_grid = ground arith; nearest = inl refl },
)
catch_up-IsNext (suc fuel) now ms next p f =
    loop_elim (λ (o : Option ℕ). (t : ℕ) × (o ≡ some t) × IsNext now ms next t) (leb next now)
      (λ e.
        let rest = catch_up-IsNext fuel now ms (next + ms) p (omega (arith, p, f)) in
        (rest.0, rest.1, IsNext-suc now ms next rest.0 (ground (arith, e)) rest.2))
      (λ e. (
        next,
        refl,
        record { later = ground (arith, e); steps = 0; on_grid = ground arith; nearest = inl refl },
      ))

usable-pos : (z : Option ℤ) (ms : ℕ) → usable z ≡ some ms → 1 ≤ ms
usable-pos none ms h = absurd (cc h)
usable-pos (some (negsuc n)) ms h = absurd (cc h)
usable-pos (some (pos zero)) ms h = absurd (cc h)
usable-pos (some (pos (suc n))) ms h = ground (arith, h)

-- For a task with a usable interval the loop of `computeNextRun` ends, and the next run is the first instant
-- after now at a whole number of intervals, one at least, from the scheduled one: it neither drifts nor is
-- in the past, and it comes at most one interval from now or from the scheduled instant.
pub compute_next_run-IsNext :
    (cron_next : Text → ℕ → Option ℕ) (now ms : ℕ) (task : ScheduledTask)
    → task.schedule_type ≡ interval
    → usable (parse_int task.schedule_value) ≡ some ms
    → (t : ℕ) × (compute_next_run cron_next now task ≡ runs_at t)
      × IsNext now ms (or_epoch task.next_run + ms) t
unfolding compute_next_run
compute_next_run-IsNext cron_next now ms task k u =
    let p = usable-pos (parse_int task.schedule_value) ms u in
    let c = catch_up-IsNext now now ms (or_epoch task.next_run + ms) p (omega (arith, p)) in
    (c.0, ground (arith, k, u, c.1), c.2)
