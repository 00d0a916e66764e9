-- ===== src/Typing.antt =====
-- src/modules/typing/index.ts: the typing indicator of a session. An instant is passed to every call in
-- place of `Date.now()`; the tick of a session's interval is an event with the heartbeat file's mtime,
-- if there is a file. An adapter is set; a failed setTyping call changes nothing.
pub mod Quiet
pub mod Tests
use nanoclaw_github_copilot.Base.{
  ℕ, ◌+◌, ◌-◌, String, Bool, true, false, ◌||◌, Option, none, some, List, [], ◌∷◌, ltb,
  if◌then◌else◌, Table, lookup, insert, discard,
}

abbrev pub typing_grace_ms : ℕ
typing_grace_ms = 15000

abbrev pub heartbeat_fresh_ms : ℕ
heartbeat_fresh_ms = 6000

abbrev pub post_delivery_pause_ms : ℕ
post_delivery_pause_ms = 10000

-- Where the indicator shows.
pub record Place : Type 0 where
  pub channel_type : String
  pub platform_id : String
  pub thread_id : Option String

-- The interval of an entry is the ticks that come for its session.
pub record TypingTarget : Type 0 where
  pub agent_group_id : String
  pub place : Place
  pub started_at : ℕ
  pub paused_until : ℕ

-- A call of setTyping, and the session that it is made for.
pub record SetTyping : Type 0 where
  pub session_id : String
  pub place : Place

pub record Typing : Type 0 where
  pub typing_refreshers : Table TypingTarget
  pub calls : List SetTyping

-- `triggerTyping`
unfoldable pub trigger_typing : String → Place → Typing → Typing
trigger_typing session place t = record t {
  calls = record { session_id = session; place = place } ∷ t.calls;
}

-- `isHeartbeatFresh`. An mtime in the future has age 0 here and a negative one in the source.
unfoldable pub is_heartbeat_fresh : ℕ → Option ℕ → Bool
is_heartbeat_fresh now none = false
is_heartbeat_fresh now (some mtime) = ltb (now - mtime) heartbeat_fresh_ms

abbrev pub refresh_entry : ℕ → String → String → Place → Option TypingTarget → Typing → Typing
refresh_entry now session group place none t = record t {
  typing_refreshers =
      insert session
        (record { agent_group_id = group; place = place; started_at = now; paused_until = 0 })
        t.typing_refreshers;
}
refresh_entry now session group place (some existing) t = record t {
  typing_refreshers =
      insert session (record existing { started_at = now; paused_until = 0 }) t.typing_refreshers;
}

-- `startTypingRefresh`
unfoldable pub start_typing_refresh : ℕ → String → String → Place → Typing → Typing
unfolding trigger_typing
start_typing_refresh now session group place t =
    refresh_entry now session group place (lookup session t.typing_refreshers)
      (trigger_typing session place t)

-- `stopTypingRefresh`
unfoldable pub stop_typing_refresh : String → Typing → Typing
stop_typing_refresh session t = record t { typing_refreshers = discard session t.typing_refreshers }

abbrev pub tick_entry : ℕ → Option ℕ → String → Option TypingTarget → Typing → Typing
tick_entry now heartbeat session none t = t
tick_entry now heartbeat session (some entry) t =
    if ltb now entry.paused_until
    then t
    else if ltb (now - entry.started_at) typing_grace_ms || is_heartbeat_fresh now heartbeat
    then trigger_typing session entry.place t
    else stop_typing_refresh session t

-- The callback of `setInterval`.
unfoldable pub tick : ℕ → Option ℕ → String → Typing → Typing
unfolding is_heartbeat_fresh trigger_typing stop_typing_refresh
tick now heartbeat session t =
    tick_entry now heartbeat session (lookup session t.typing_refreshers) t

abbrev pub pause_entry : ℕ → String → Option TypingTarget → Typing → Typing
pause_entry now session none t = t
pause_entry now session (some entry) t = record t {
  typing_refreshers =
      insert session (record entry { paused_until = now + post_delivery_pause_ms })
        t.typing_refreshers;
}

-- `pauseTypingRefreshAfterDelivery`
unfoldable pub pause_typing_refresh_after_delivery : ℕ → String → Typing → Typing
pause_typing_refresh_after_delivery now session t =
    pause_entry now session (lookup session t.typing_refreshers) t

pub data Event : Type 0 where
  starts : (now : ℕ) (session agent_group : String) → Place → Event
  ticks : (now : ℕ) (heartbeat : Option ℕ) (session : String) → Event
  pauses : (now : ℕ) (session : String) → Event
  stops : (session : String) → Event

unfoldable pub step : Event → Typing → Typing
unfolding start_typing_refresh tick pause_typing_refresh_after_delivery stop_typing_refresh
step (starts now session group place) t = start_typing_refresh now session group place t
step (ticks now heartbeat session) t = tick now heartbeat session t
step (pauses now session) t = pause_typing_refresh_after_delivery now session t
step (stops session) t = stop_typing_refresh session t

unfoldable pub run : List Event → Typing → Typing
unfolding step
run [] t = t
run (e ∷ es) t = run es (step e t)
