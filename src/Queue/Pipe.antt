-- ===== src/Queue/Pipe.antt =====
-- src/group-queue.ts: `sendMessage`, the delivery cursor, `requestDeliveryRetry`, the busy ack and
-- the notifications of the dispatcher. `fs_ok` says whether the directory and file calls succeed.
use Prim.Native.String
use nanoclaw_github_copilot.Base.{
  ℕ, suc, String, Bool, true, false, not, ◌&&◌, Option, none, some, List, [], ◌∷◌, ◌++◌,
  if◌then◌else◌, is_some, truthy, ◌==◌,
}
use nanoclaw_github_copilot.Queue.{
  GroupState, IpcFile, message, close, GroupQueue, get_group, store,
}
use nanoclaw_github_copilot.Queue.Run.{count_down, drain_group}

-- A file that `writeFileSync` and `renameSync` leave in the input directory of the slot's folder.
unfoldable pub write_ipc : Option String → IpcFile → GroupQueue → GroupQueue
write_ipc none file q = q
write_ipc (some folder) file q = record q { ipc = q.ipc ++ (folder, file) ∷ [] }

-- `state.process && state.process.exitCode !== null`
unfoldable pub has_exited : GroupQueue → Option ℕ → Bool
has_exited q none = false
has_exited q (some p) = is_some (q.procs p).exit_code

-- `a && !b ? a : b` on cursors: the first that was set stays.
unfoldable pub keep_first : Option String → Option String → Option String
keep_first held cursor = if truthy cursor && not (truthy held) then cursor else held

-- `state.currentTurnText ? `${state.currentTurnText}\n${text}` : text`
unfoldable pub join_text : Option String → String → String
join_text none text = text
join_text (some held) text =
    if truthy (some held) then String.◌++◌ held (String.◌++◌ "\n" text) else text

-- The writes to the slot once the file is in place.
unfoldable pub piped : String → Option String → GroupState → GroupState
unfolding keep_first join_text
piped text cursor s = record s {
  idle_waiting = false;
  piped_since_output = suc s.piped_since_output;
  user_turn_seq = suc s.user_turn_seq;
  in_flight_cursor_rollback = keep_first s.in_flight_cursor_rollback cursor;
  current_turn_start_cursor = keep_first s.current_turn_start_cursor cursor;
  current_turn_text = some (join_text s.current_turn_text text);
}

-- The slot of a process that exited, torn down with the message left pending.
unfoldable pub torn_down : GroupState → GroupState
torn_down s = record s {
  active = false;
  idle_waiting = false;
  process = none;
  container_name = none;
  group_folder = none;
  in_flight_cursor_rollback = none;
  pending_messages = true;
}

unfoldable pub can_receive : GroupState → Bool
can_receive s = s.active && truthy s.group_folder && not s.is_task_container

-- `sendMessage`: the new queue, and whether the message was written.
unfoldable pub send_message :
    ℕ → String → String → Option String → Bool → GroupQueue → GroupQueue × Bool
unfolding can_receive has_exited torn_down count_down write_ipc piped
send_message limit jid text cursor fs_ok q =
    let s = get_group q jid in
    if not (can_receive s)
    then (store jid s q, false)
    else if has_exited q s.process
    then (drain_group limit jid (count_down (store jid (torn_down s) q)), false)
    else if fs_ok
    then (write_ipc s.group_folder (message text) (store jid (piped text cursor s) q), true)
    else (store jid (record s { idle_waiting = false }) q, false)

unfoldable pub get_user_turn_seq : GroupQueue → String → ℕ
get_user_turn_seq q jid = (get_group q jid).user_turn_seq

unfoldable pub set_current_turn_start_cursor : String → String → GroupQueue → GroupQueue
set_current_turn_start_cursor jid cursor q =
    store jid (record (get_group q jid) { current_turn_start_cursor = some cursor }) q

unfoldable pub get_current_turn_start_cursor : GroupQueue → String → Option String
get_current_turn_start_cursor q jid = (get_group q jid).current_turn_start_cursor

unfoldable pub notify_user_delivery : String → GroupQueue → GroupQueue
notify_user_delivery jid q =
    store jid
      (record (get_group q jid) { current_turn_start_cursor = none; current_turn_text = none }) q

-- The slot as `requestDeliveryRetry` leaves it before `sendMessage`.
unfoldable pub reopened : GroupState → GroupState
reopened s = record s {
  current_turn_start_cursor = none;
  current_turn_text = none;
  piped_since_output = 0;
  agent_has_output = false;
}

unfoldable pub restore_turn : String → String → String → GroupQueue × Bool → GroupQueue
restore_turn jid cursor text (q, true) = q
restore_turn jid cursor text (q, false) =
    store jid
      (record (get_group q jid) {
        current_turn_start_cursor = some cursor;
        current_turn_text = some text;
      })
      q

unfoldable pub retry_turn :
    ℕ → String → Bool → Option String → Option String → GroupQueue → GroupQueue × Option String
unfolding reopened restore_turn
retry_turn limit jid fs_ok none text q = (store jid (get_group q jid) q, none)
retry_turn limit jid fs_ok (some cursor) none q = (store jid (get_group q jid) q, some cursor)
retry_turn limit jid fs_ok (some cursor) (some text) q =
    if not (truthy (some text)) then (store jid (get_group q jid) q, some cursor) else (
      restore_turn jid cursor text (
          send_message limit jid text (some cursor) fs_ok
            (store jid (reopened (get_group q jid)) q)),
      some cursor,
    )

-- `requestDeliveryRetry`: the new queue, and the cursor that it returns.
unfoldable pub request_delivery_retry : ℕ → String → Bool → GroupQueue → GroupQueue × Option String
unfolding retry_turn
request_delivery_retry limit jid fs_ok q =
    retry_turn limit jid fs_ok (get_group q jid).current_turn_start_cursor
      (get_group q jid).current_turn_text q

unfoldable pub notify_agent_output : String → GroupQueue → GroupQueue
notify_agent_output jid q =
    store jid
      (record (get_group q jid) {
        piped_since_output = 0;
        agent_has_output = true;
        in_flight_cursor_rollback = none;
      })
      q

-- `shouldSendBusyAck`
unfoldable pub should_send_busy_ack : GroupQueue → String → Option ℕ
should_send_busy_ack q jid =
    let s = get_group q jid in
    if s.agent_has_output
    then none
    else if s.piped_since_output == 2
    then some s.piped_since_output
    else none

-- `markIdle`
unfoldable pub mark_idle : String → GroupQueue → GroupQueue
mark_idle jid q = store jid (record (get_group q jid) { idle_waiting = true }) q

-- `closeStdin`
unfoldable pub close_stdin : String → Bool → GroupQueue → GroupQueue
unfolding write_ipc
close_stdin jid fs_ok q =
    let s = get_group q jid in
    if s.active && truthy s.group_folder && fs_ok
    then write_ipc s.group_folder close (store jid s q)
    else store jid s q

abbrev pub is_empty {ℓ} : {A : Type ℓ} → List A → Bool
is_empty [] = true
is_empty (_ ∷ _) = false

-- `notifyIdle`
unfoldable pub notify_idle : String → Bool → GroupQueue → GroupQueue
unfolding mark_idle close_stdin
notify_idle jid fs_ok q =
    if is_empty (get_group q jid).pending_tasks
    then mark_idle jid q
    else close_stdin jid fs_ok (mark_idle jid q)
