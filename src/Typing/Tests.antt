-- ===== src/Typing/Tests.antt =====
-- src/modules/typing/index.ts: an agent that works, delivers and falls silent.
use nanoclaw_github_copilot.Base.{
  ◌≡◌, refl, none, some, List, [], ◌∷◌, lookup, insert, discard, arith,
}
use nanoclaw_github_copilot.Typing.{
  Place, Typing, trigger_typing, is_heartbeat_fresh, start_typing_refresh, stop_typing_refresh,
  tick, pause_typing_refresh_after_delivery, Event, starts, ticks, step, run,
}
use nanoclaw_github_copilot.Typing.Quiet.{typing_count, run-paused}

machine : Unit {0}
unfolding run step start_typing_refresh stop_typing_refresh tick pause_typing_refresh_after_delivery
    trigger_typing is_heartbeat_fresh lookup insert discard typing_count
machine = tt

abbrev room : Place
room = record { channel_type = "slack"; platform_id = "room"; thread_id = none }

abbrev blank : Typing
blank = record { typing_refreshers = []; calls = [] }

abbrev working : Typing
working =
    run (starts 1000 "s" "g" room ∷ ticks 5000 none "s" ∷ ticks 21000 (some 20000) "s" ∷ []) blank

-- The immediate call, a tick within the grace window, and one by the heartbeat.
working_calls : typing_count "s" working.calls ≡ 3
unfolding machine
working_calls = refl

-- Without a heartbeat the tick after the grace window ends the refresh.
idle_ends : (run (ticks 30000 (some 20000) "s" ∷ []) working).typing_refreshers ≡ []
unfolding machine
idle_ends = refl

abbrev after_delivery : List Event
after_delivery = ticks 25000 (some 25000) "s" ∷ ticks 29000 (some 29000) "s" ∷ []

run-paused_example :
    typing_count "s"
      (run after_delivery (pause_typing_refresh_after_delivery 21500 "s" working)).calls
    ≡ typing_count "s" (pause_typing_refresh_after_delivery 21500 "s" working).calls
run-paused_example = run-paused 21500 "s" after_delivery working (omega arith, (omega arith, tt))
