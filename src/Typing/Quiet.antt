-- ===== src/Typing/Quiet.antt =====
-- src/modules/typing/index.ts: when the indicator stays dark.
use nanoclaw_github_copilot.Base.{
  ℕ, suc, ◌+◌, ◌-◌, ◌<◌, ◌≤◌, ◌≡◌, ◌≢◌, refl, subst, ◌∙◌, String, ◌||◌, Option, none, some, List,
  [], ◌∷◌, arith, ltb, if◌then◌else◌, if_elim, str_eq, eq_iff, eq_refl, lookup, insert,
  lookup-insert, lookup-discard, inl, inr, Bool-cases,
}
use nanoclaw_github_copilot.Typing.{
  Place, TypingTarget, SetTyping, Typing, trigger_typing, is_heartbeat_fresh, refresh_entry,
  start_typing_refresh, stop_typing_refresh, tick_entry, tick, pause_entry,
  pause_typing_refresh_after_delivery, typing_grace_ms, post_delivery_pause_ms, Event, starts,
  ticks, pauses, stops, step, run,
}

-- How often setTyping was called for the session.
unfoldable pub typing_count : String → List SetTyping → ℕ
typing_count session [] = 0
typing_count session (c ∷ calls) =
    let rest = typing_count session calls in if str_eq c.session_id session then suc rest else rest

-- The session has no entry, or one that is paused until this instant at least.
abbrev pub PausedUntil : ℕ → String → Typing → Type 0
PausedUntil until session t =
    (entry : TypingTarget)
    → lookup session t.typing_refreshers ≡ some entry
    → until ≤ entry.paused_until

-- Before the instant, and no new message for the session; a further delivery does not come at an
-- earlier instant than the one that paused it.
abbrev pub Before : ℕ → String → Event → Type 0
Before until session (starts now other _ _) = other ≢ session
Before until session (ticks now _ _) = now < until
Before until session (pauses now _) = until ≤ now + post_delivery_pause_ms
Before until session (stops _) = Unit {0}

abbrev pub AllBefore : ℕ → String → List Event → Type 0
AllBefore until session [] = Unit {0}
AllBefore until session (e ∷ es) = Before until session e × AllBefore until session es

same_entry : (v entry : TypingTarget) → some v ≡ some entry → v ≡ entry
same_entry v entry h = cc h

-- The session stays paused, and setTyping is not called for it.
abbrev Dark : ℕ → String → Typing → Typing → Type 0
Dark until session t later =
    PausedUntil until session later
    × (typing_count session later.calls ≡ typing_count session t.calls)

module _ (until : ℕ) (session : String) (t : Typing) (p : PausedUntil until session t) where
  start-Dark :
      (now : ℕ) (other group : String) (place : Place)
      → other ≢ session
      → Dark until session t (start_typing_refresh now other group place t)
  unfolding start_typing_refresh trigger_typing typing_count
  start-Dark now other group place ne = at (lookup other t.typing_refreshers)
    where
      kept :
          (v : TypingTarget) (entry : TypingTarget)
          → lookup session (insert other v t.typing_refreshers) ≡ some entry
          → until ≤ entry.paused_until
      kept v entry h = p entry (
          ground
            (arith, ne, h, lookup-insert other session v t.typing_refreshers, eq_iff other session))

      at :
          (o : Option TypingTarget)
          → Dark until session t
              (refresh_entry now other group place o (trigger_typing other place t))
      at none = (kept _, ground (arith, ne, eq_iff other session))
      at (some existing) = (kept _, ground (arith, ne, eq_iff other session))

  stop-Dark : (other : String) → Dark until session t (stop_typing_refresh other t)
  unfolding stop_typing_refresh
  stop-Dark other = (
    (λ entry h. p entry (ground (arith, h, lookup-discard other session t.typing_refreshers))),
    refl,
  )

  pause-Dark :
      (now : ℕ) (other : String)
      → until ≤ now + post_delivery_pause_ms
      → Dark until session t (pause_typing_refresh_after_delivery now other t)
  unfolding pause_typing_refresh_after_delivery
  pause-Dark now other late = at (lookup other t.typing_refreshers)
    where
      at : (o : Option TypingTarget) → Dark until session t (pause_entry now other o t)
      at none = (p, refl)
      at (some existing) = (moved, refl)
        where
          v : TypingTarget
          v = record existing { paused_until = now + post_delivery_pause_ms }

          moved :
              (entry : TypingTarget)
              → lookup session (insert other v t.typing_refreshers) ≡ some entry
              → until ≤ entry.paused_until
          moved entry h = elim (Bool-cases (str_eq other session)) [
            | inl e ↦
                subst (λ (x : TypingTarget). until ≤ x.paused_until)
                  (same_entry v entry
                    (ground (arith, e, h, lookup-insert other session v t.typing_refreshers)))
                  late
            | inr e ↦
                p entry (ground (arith, e, h, lookup-insert other session v t.typing_refreshers))
          ]

  tick-Dark :
      (now : ℕ) (heartbeat : Option ℕ) (other : String)
      → now < until
      → Dark until session t (tick now heartbeat other t)
  unfolding tick trigger_typing typing_count
  tick-Dark now heartbeat other early = at (lookup other t.typing_refreshers) refl
    where
      at :
          (o : Option TypingTarget)
          → lookup other t.typing_refreshers ≡ o
          → Dark until session t (tick_entry now heartbeat other o t)
      at none e = (p, refl)
      at (some entry) e =
          if_elim (Dark until session t) (ltb now entry.paused_until) (λ _. (p, refl))
            (λ over.
              if_elim (Dark until session t)
                (ltb (now - entry.started_at) typing_grace_ms || is_heartbeat_fresh now heartbeat)
                (λ _. (p, ground (arith, over, early, e, p entry, eq_iff other session)))
                (λ _. stop-Dark other))

step-Dark :
    (until : ℕ) (session : String) (e : Event) (t : Typing)
    → PausedUntil until session t
    → Before until session e
    → Dark until session t (step e t)
unfolding step
step-Dark until session (starts now other group place) t p b =
    start-Dark until session t p now other group place b
step-Dark until session (ticks now heartbeat other) t p b =
    tick-Dark until session t p now heartbeat other b
step-Dark until session (pauses now other) t p b = pause-Dark until session t p now other b
step-Dark until session (stops other) t p b = stop-Dark until session t p other

run-Dark :
    (until : ℕ) (session : String) (es : List Event) (t : Typing)
    → PausedUntil until session t
    → AllBefore until session es
    → Dark until session t (run es t)
unfolding run
run-Dark until session [] t p b = (p, refl)
run-Dark until session (e ∷ es) t p b =
    let now = step-Dark until session e t p b.0 in
    let later = run-Dark until session es (step e t) now.0 b.1 in (later.0, later.1 ∙ now.1)

paused :
    (now : ℕ) (session : String) (t : Typing)
    → PausedUntil
        (now + post_delivery_pause_ms)
        session
        (pause_typing_refresh_after_delivery now session t)
unfolding pause_typing_refresh_after_delivery
paused now session t = at (lookup session t.typing_refreshers) refl
  where
    at :
        (o : Option TypingTarget)
        → lookup session t.typing_refreshers ≡ o
        → PausedUntil (now + post_delivery_pause_ms) session (pause_entry now session o t)
    at none e entry h = absurd (ground (arith, e, h))
    at (some existing) e entry h =
        subst (λ (x : TypingTarget). now + post_delivery_pause_ms ≤ x.paused_until)
          (same_entry v entry (
            ground
              (arith, h, eq_refl session, lookup-insert session session v t.typing_refreshers)))
          (omega arith)
      where
        v : TypingTarget
        v = record existing { paused_until = now + post_delivery_pause_ms }

-- After a delivery, setTyping is not called for the session for ten seconds, whatever ticks, stops and
-- further deliveries come and whatever the heartbeat says, unless a new message arrives for it.
pub run-paused :
    (now : ℕ) (session : String) (es : List Event) (t : Typing)
    → AllBefore (now + post_delivery_pause_ms) session es
    → typing_count session (run es (pause_typing_refresh_after_delivery now session t)).calls
      ≡ typing_count session (pause_typing_refresh_after_delivery now session t).calls
run-paused now session es t b =
    (run-Dark (now + post_delivery_pause_ms) session es
      (pause_typing_refresh_after_delivery now session t) (paused now session t) b).1
