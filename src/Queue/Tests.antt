-- ===== src/Queue/Tests.antt =====
-- src/group-queue.ts: runs of the queue on concrete events, and the theorems at concrete states.
use nanoclaw_github_copilot.Base.{
  ◌+◌, ◌≤◌, ◌≡◌, refl, ◌≢◌, String, true, false, Option, none, some, List, [], ◌∷◌, lookup, insert,
  erase, includes, incr, decr, at_least, pos, negsuc, eq_iff, inl, arith,
}
use nanoclaw_github_copilot.Queue.{
  QueuedTask, GroupState, GroupQueue, run_task_fn, process_messages, init, task_slot_key, get_group,
  peek_slot, store, emit, fresh_slot,
}
use nanoclaw_github_copilot.Queue.Run.{
  start_task, start_run, succeeded, finish_task, drain_waiting, serve_waiting, finish_run,
}
use nanoclaw_github_copilot.Queue.Enqueue.{enqueue_message_check, enqueue_task, retry_due}
use nanoclaw_github_copilot.Queue.Pipe.{
  send_message, request_delivery_retry, notify_agent_output, mark_idle,
  set_current_turn_start_cursor, piped, can_receive, has_exited,
}
use nanoclaw_github_copilot.Queue.Process.{register_process, process_exit}
use nanoclaw_github_copilot.Queue.Shutdown.{Host, begin_shutdown, kill_active, notify_task_idle}
use nanoclaw_github_copilot.Queue.Events.{
  Event, messages_arrive, task_due, process_starts, process_exits, run_ends, task_ends, sends,
  outputs, task_idles, step, run,
}
use nanoclaw_github_copilot.Queue.Accounting.{
  active_total, active_at, Inv, AdmissibleRun, drift_after, step-Inv, run-init_bounds,
}
use nanoclaw_github_copilot.Queue.Delivery.{
  IsLive, Sent, send_all, send_all-Sent, request_delivery_retry-turn,
}
use nanoclaw_github_copilot.Queue.Retry.{backoff}
use nanoclaw_github_copilot.Queue.Kill.{task_exit-second_run}

-- Everything that a run of the queue computes with.
machine : Unit {0}
unfolding init run step enqueue_message_check enqueue_task retry_due send_message
    request_delivery_retry notify_agent_output mark_idle set_current_turn_start_cursor
    register_process process_exit begin_shutdown kill_active notify_task_idle finish_task finish_run
    start_run start_task drain_waiting serve_waiting store emit get_group peek_slot task_slot_key
    fresh_slot lookup insert erase includes incr decr at_least active_total
machine = tt

abbrev host : Host
host = record { tree_kill = λ _. true; kill = λ _. true }

abbrev nightly : QueuedTask
nightly = record { id = "t"; group_jid = "a"; fn = 0 }

-- A chat's agent is up, its first run still going.
abbrev live : GroupQueue
live = run 2 host (messages_arrive "a" ∷ process_starts "a" 7 "c" (some "g") ∷ []) init

live_count : live.active_count ≡ pos 1
unfolding machine
live_count = refl

abbrev texts : List (String × Option String)
texts = ("x", some "10") ∷ ("y", some "11") ∷ []

live-IsLive : IsLive "a" live
unfolding machine can_receive has_exited
live-IsLive = record { receives = refl; runs = refl }

abbrev history : List Event
history =
    messages_arrive "a"
    ∷ process_starts "a" 7 "c" (some "g")
    ∷ task_due nightly
    ∷ messages_arrive "b"
    ∷ sends "a" "x" (some "10") true
    ∷ run_ends "a" succeeded
    ∷ []

-- With a limit of two, the chat `b` waits for the chat `a` to end its run.
history_runs :
    (run 2 host history init).effects
    ≡ process_messages "a" ∷ run_task_fn "a::task::t" nightly ∷ process_messages "b" ∷ []
unfolding machine piped
history_runs = refl

history-AdmissibleRun : AdmissibleRun 2 host history init
unfolding machine
history-AdmissibleRun = (tt, (tt, (tt, (tt, (tt, (inl refl, tt))))))

run-init_bounds_example :
    (active_total (run 2 host history init).slots ≤ 2 + drift_after 2 host history init 0)
    × ((run 2 host history init).shutting_down ≡ false
        → (run 2 host history init).waiting_slots ≢ []
        → active_total (run 2 host history init).slots ≡ 2 + drift_after 2 host history init 0)
run-init_bounds_example = run-init_bounds 2 host history history-AdmissibleRun

live-Inv : Inv 2 0 live
unfolding machine
live-Inv = record {
  core = record {
    counted = refl;
    parked = tt;
    distinct = tt;
    plain = (refl, tt);
    capped = omega arith;
  };
  full = λ _ w. absurd (w refl);
}

step-Inv_example : Inv 2 0 (step 2 host (messages_arrive "b") live)
step-Inv_example = step-Inv 2 host 0 (messages_arrive "b") live live-Inv tt

-- A task goes idle, its process exits, and then its function returns: the counter falls to -1.
drift_test :
    (run 2 host
      (task_due nightly
        ∷ process_starts "a::task::t" 7 "c" (some "g")
        ∷ task_idles "a" "t"
        ∷ process_exits "a::task::t" 0 7 true true (some 0)
        ∷ task_ends "a::task::t"
        ∷ [])
      init).active_count
    ≡ negsuc 0
unfolding machine
drift_test = refl

send_all-Sent_example : Sent "a" texts (get_group live "a") (send_all 2 "a" texts live)
send_all-Sent_example = send_all-Sent 2 "a" texts live live-IsLive

abbrev failed_turn : GroupQueue
failed_turn = run 2 host (sends "a" "x" (some "10") true ∷ outputs "a" ∷ []) live

failed_turn_cursor : (get_group failed_turn "a").current_turn_start_cursor ≢ some ""
unfolding machine piped
failed_turn_cursor e = ground (arith, e, eq_iff "10" "")

request_delivery_retry-turn_example :
    let r = request_delivery_retry 2 "a" false failed_turn in
    (r.1 ≡ (get_group failed_turn "a").current_turn_start_cursor)
    × ((get_group r.0 "a").current_turn_start_cursor
        ≡ (get_group failed_turn "a").current_turn_start_cursor)
    × ((get_group r.0 "a").current_turn_text ≡ (get_group failed_turn "a").current_turn_text)
request_delivery_retry-turn_example =
    request_delivery_retry-turn 2 "a" false failed_turn failed_turn_cursor

backoff_test : backoff 5 ≡ 5000 ∷ 10000 ∷ 20000 ∷ 40000 ∷ 80000 ∷ []
backoff_test = refl

nightly_key : task_slot_key "a" "t" ≢ "a"
unfolding machine
nightly_key e = ground (arith, e, eq_iff "a::task::t" "a")

-- The chat's agent is busy with a message pending, and its task has gone idle.
abbrev crossed : GroupQueue
crossed =
    run 3 host
      (messages_arrive "a" ∷ task_due nightly ∷ task_idles "a" "t" ∷ messages_arrive "a" ∷ []) init

abbrev idle_task : GroupState
idle_task = record fresh_task { active = true; idle_waiting = true }
  where
    fresh_task : GroupState
    fresh_task = fresh_slot 1 "a" (some "t")

abbrev busy_chat : GroupState
busy_chat = record (fresh_slot 0 "a" none) {
  active = true;
  pending_messages = true;
  user_turn_seq = 1;
}

task_exit-second_run_example :
    (r : GroupQueue) × (process_exit 3 "a::task::t" idle_task.serial 8 true true (some 0) crossed
      ≡ start_run "a" r)
    × (active_at "a" r.slots ≡ true)
unfolding machine
task_exit-second_run_example =
    task_exit-second_run 3 "a::task::t" 8 true true (some 0) idle_task busy_chat crossed refl refl
      refl refl refl refl refl refl refl refl
