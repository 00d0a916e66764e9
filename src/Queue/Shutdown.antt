-- ===== src/Queue/Shutdown.antt =====
-- src/group-queue.ts: `killProcess`, `killActive`, `recycleIdleForAuthRefresh`, the task-slot calls
-- `notifyTaskIdle` and `closeTaskStdin`, and `shutdown`.
use nanoclaw_github_copilot.Base.{
  ℕ, String, Bool, true, false, not, ◌&&◌, ◌||◌, Option, none, some, List, [], ◌∷◌, if◌then◌else◌,
  truthy, str_eq,
}
use nanoclaw_github_copilot.Queue.{
  GroupState, IpcFile, close, Signal, sigterm, sigkill, signal_process, signal_tree, docker_kill,
  kill_timer, GroupQueue, task_slot_key, get_group, peek_slot, store, emit,
}
use nanoclaw_github_copilot.Queue.Run.{not_killed, process_alive}
use nanoclaw_github_copilot.Queue.Pipe.{write_ipc}
use nanoclaw_github_copilot.Queue.Process.{update}

-- How the operating system answers: does the kill of a process's tree (`taskkill /T`, or a signal
-- to the group) go through, and does `proc.kill`, which alone sets `proc.killed`.
pub record Host : Type 0 where
  pub tree_kill : ℕ → Bool
  pub kill : ℕ → Bool

-- `proc.kill(signal)`
unfoldable pub kill_handle : Host → ℕ → Signal → GroupQueue → GroupQueue
kill_handle host p signal q = emit (signal_process p signal) (
    if host.kill p
    then record q { procs = update q.procs p (record (q.procs p) { killed = true }) }
    else q)

abbrev pub has_pid : Option ℕ → Bool
has_pid none = false
has_pid (some _) = true

-- `killProcess`
unfoldable pub kill_process : Host → ℕ → Signal → GroupQueue → GroupQueue
unfolding kill_handle
kill_process host p signal q =
    if has_pid (q.procs p).pid && host.tree_kill p
    then emit (signal_tree p signal) q
    else kill_handle host p signal q

-- The unlinking of every file in the slot's input directory.
unfoldable pub unlink_all : String → List (String × IpcFile) → List (String × IpcFile)
unlink_all folder [] = []
unlink_all folder ((at, file) ∷ files) =
    let rest = unlink_all folder files in if str_eq at folder then rest else (at, file) ∷ rest

unfoldable pub clear_ipc : Option String → Bool → GroupQueue → GroupQueue
unfolding unlink_all
clear_ipc none fs_ok q = q
clear_ipc (some folder) fs_ok q =
    if truthy (some folder) && fs_ok then record q { ipc = unlink_all folder q.ipc } else q

unfoldable pub kill_container : Option String → GroupQueue → GroupQueue
kill_container none q = q
kill_container (some name) q = if truthy (some name) then emit (docker_kill name) q else q

-- Step 3 of `killActive`: SIGTERM now and a timer for SIGKILL, or `docker kill`.
unfoldable pub stop_agent : Host → Option String → Option ℕ → GroupQueue → GroupQueue
unfolding kill_handle kill_container
stop_agent host name none q = kill_container name q
stop_agent host name (some p) q =
    if not (q.procs p).killed
    then emit (kill_timer p) (kill_handle host p sigterm q)
    else kill_container name q

-- `killActive`
unfoldable pub kill_active : Host → Bool → String → GroupQueue → GroupQueue × Bool
unfolding clear_ipc stop_agent
kill_active host fs_ok jid q =
    let s = get_group q jid in
    if not s.active then (store jid s q, false) else (
      stop_agent host s.container_name s.process (
          clear_ipc s.group_folder fs_ok
            (store jid (record s { pending_tasks = []; pending_messages = false }) q)),
      true,
    )

-- The callback of the timer that `killActive` sets, two seconds later.
unfoldable pub escalate : Host → ℕ → GroupQueue → GroupQueue
unfolding kill_handle
escalate host p q = if not (q.procs p).killed then kill_handle host p sigkill q else q

unfoldable pub recycle : Host → Option ℕ → GroupQueue → GroupQueue
unfolding kill_process
recycle host none q = q
recycle host (some p) q = kill_process host p sigterm q

-- `recycleIdleForAuthRefresh`
unfoldable pub recycle_idle_for_auth_refresh : Host → String → GroupQueue → GroupQueue × Bool
unfolding process_alive recycle
recycle_idle_for_auth_refresh host jid q =
    let s = get_group q jid in
    if s.active && s.idle_waiting && process_alive q s.process
    then (recycle host s.process (store jid (record s { pending_messages = true }) q), true)
    else (store jid s q, false)

unfoldable pub idle_slot : String → Option GroupState → GroupQueue → GroupQueue
idle_slot slot_key none q = q
idle_slot slot_key (some s) q = store slot_key (record s { idle_waiting = true }) q

-- `notifyTaskIdle`
unfoldable pub notify_task_idle : String → String → GroupQueue → GroupQueue
unfolding idle_slot
notify_task_idle chat_jid task_id q =
    let slot_key = task_slot_key chat_jid task_id in idle_slot slot_key (peek_slot q slot_key) q

unfoldable pub reap : Host → Option ℕ → GroupQueue → GroupQueue
unfolding kill_process
reap host none q = q
reap host (some p) q = if process_alive q (some p) then kill_process host p sigkill q else q

unfoldable pub close_slot : Host → Bool → Option GroupState → GroupQueue → GroupQueue
unfolding reap
close_slot host fs_ok none q = q
close_slot host fs_ok (some s) q =
    if s.active && truthy s.group_folder
    then reap host s.process (if fs_ok then write_ipc s.group_folder close q else q)
    else q

-- `closeTaskStdin`
unfoldable pub close_task_stdin : Host → Bool → String → String → GroupQueue → GroupQueue
unfolding close_slot
close_task_stdin host fs_ok chat_jid task_id q =
    close_slot host fs_ok (peek_slot q (task_slot_key chat_jid task_id)) q

unfoldable pub kill_slot : Host → Signal → Option ℕ → GroupQueue → GroupQueue
unfolding kill_process
kill_slot host signal none q = q
kill_slot host signal (some p) q =
    if not (q.procs p).killed then kill_process host p signal q else q

-- One pass of `shutdown` over the slots.
unfoldable pub kill_slots : Host → Signal → List (String × GroupState) → GroupQueue → GroupQueue
unfolding kill_slot
kill_slots host signal [] q = q
kill_slots host signal ((_, s) ∷ slots) q =
    kill_slots host signal slots (kill_slot host signal s.process q)

-- Whether a pass of `shutdown` finds a process to kill.
unfoldable pub has_target : GroupQueue → List (String × GroupState) → Bool
unfolding not_killed
has_target q [] = false
has_target q ((_, s) ∷ slots) = not_killed q s.process || has_target q slots

-- `shutdown` up to its `await`, and whether it comes to the `await`.
unfoldable pub begin_shutdown : Host → GroupQueue → GroupQueue × Bool
unfolding kill_slots has_target
begin_shutdown host q =
    (kill_slots host sigterm q.slots (record q { shutting_down = true }), has_target q q.slots)

-- The force kill after the grace period, if anything was killed before it.
unfoldable pub finish_shutdown : Host → GroupQueue → GroupQueue
unfolding kill_slots
finish_shutdown host q = kill_slots host sigkill q.slots q
