-- ===== src/Queue/Retry.antt =====
-- src/group-queue.ts: the backoff of `scheduleRetry` over consecutive failures.
use mathlib.Core.List.{append-nil, append_assoc}
use nanoclaw_github_copilot.Base.{
  ℕ, zero, suc, ◌+◌, ◌-◌, ◌*◌, ◌^◌, ◌≤◌, ◌<◌, ◌≡◌, refl, ◌∙◌, sym, String, false, List, [], ◌∷◌,
  ◌++◌, arith, ltb, lookup-insert, eq_refl,
}
use nanoclaw_github_copilot.Queue.{
  GroupQueue, GroupState, Effect, retry_timer, get_slot, get_group, store, emit,
}
use nanoclaw_github_copilot.Queue.Run.{max_retries, base_retry_ms, schedule_retry}

-- `n` failures of the chat's runs in a row, each ending in `scheduleRetry`.
unfoldable pub fail : ℕ → String → GroupQueue → GroupQueue
fail zero k q = q
fail (suc n) k q = schedule_retry k (fail n k q)

-- The delays of the first `n` retries.
abbrev pub backoff : ℕ → List ℕ
backoff zero = []
backoff (suc n) = backoff n ++ (base_retry_ms * 2 ^ n) ∷ []

abbrev pub timers : String → List ℕ → List Effect
timers k [] = []
timers k (ms ∷ rest) = retry_timer k ms ∷ timers k rest

timers-append : (k : String) (xs ys : List ℕ) → timers k (xs ++ ys) ≡ timers k xs ++ timers k ys
timers-append k [] ys = refl
timers-append k (x ∷ xs) ys = rw (timers-append k xs ys)

record After (k : String) (n : ℕ) (ms : List ℕ) (q r : GroupQueue) : Type 0 where
  count : (get_group r k).retry_count ≡ n
  effects : r.effects ≡ q.effects ++ timers k ms

retry_count-store :
    (q : GroupQueue) (k : String) (s : GroupState)
    → (get_group (store k s q) k).retry_count ≡ s.retry_count
unfolding get_group get_slot store
retry_count-store q k s = ground (arith, lookup-insert k k s q.slots, eq_refl k)

retry_count-emit :
    (e : Effect) (q : GroupQueue) (k : String)
    → (get_group (emit e q) k).retry_count ≡ (get_group q k).retry_count
unfolding get_group get_slot emit
retry_count-emit e q k = refl

effects-store : (k : String) (s : GroupState) (q : GroupQueue) → (store k s q).effects ≡ q.effects
unfolding store
effects-store k s q = refl

effects-emit : (e : Effect) (q : GroupQueue) → (emit e q).effects ≡ q.effects ++ e ∷ []
unfolding emit
effects-emit e q = refl

-- One more failure below the bound sets a timer twice as long as the one before.
schedule_retry-After :
    (k : String) (n : ℕ) (q r : GroupQueue)
    → n < max_retries
    → After k n (backoff n) q r
    → After k (suc n) (backoff (suc n)) q (schedule_retry k r)
unfolding schedule_retry
schedule_retry-After k n q r h a =
    let below : ltb max_retries (suc n) ≡ false = ground arith in
    let same : suc n - 1 ≡ n = omega arith in
    rw (a.count, below, same)
      (record {
        count =
            retry_count-emit _ _ k
            ∙ retry_count-store r k (record (get_group r k) { retry_count = suc n });
        effects =
            rw (effects-emit, effects-store, a.effects, timers-append k (backoff n), append_assoc)
              refl;
      })

fail-After :
    (k : String) (n : ℕ) (q : GroupQueue)
    → n ≤ max_retries
    → (get_group q k).retry_count ≡ 0
    → After k n (backoff n) q (fail n k q)
unfolding fail
fail-After k zero q h z = record { count = z; effects = sym (append-nil q.effects) }
fail-After k (suc n) q h z =
    schedule_retry-After k n q (fail n k q) h (fail-After k n q (omega arith) z)

abbrev pub total : List ℕ → ℕ
total [] = 0
total (ms ∷ rest) = ms + total rest

-- From a slot with no failure yet, `n` failures in a row, up to five, set timers of 5000, 10000, …
-- milliseconds, each twice the one before, and `n` is remembered.
pub fail-backoff :
    (k : String) (n : ℕ) (q : GroupQueue)
    → n ≤ max_retries
    → (get_group q k).retry_count ≡ 0
    → ((get_group (fail n k q) k).retry_count ≡ n)
      × ((fail n k q).effects ≡ q.effects ++ timers k (backoff n))
fail-backoff k n q h z = let a = fail-After k n q h z in (a.count, a.effects)

-- The sixth failure in a row sets no timer and forgets the five before it.
pub fail-drop :
    (k : String) (q : GroupQueue)
    → (get_group q k).retry_count ≡ 0
    → ((get_group (fail 6 k q) k).retry_count ≡ 0)
      × ((fail 6 k q).effects ≡ q.effects ++ timers k (backoff 5))
unfolding fail schedule_retry
fail-drop k q z =
    let a = fail-After k 5 q (omega arith) z in
    let r = fail 5 k q in
    rw a.count (
      retry_count-store r k (record (get_group r k) { retry_count = 0 }),
      effects-store k _ r ∙ a.effects,
    )
