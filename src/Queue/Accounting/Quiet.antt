-- ===== src/Queue/Accounting/Quiet.antt =====
-- src/group-queue.ts: the calls that start and release nothing.
use nanoclaw_github_copilot.Base.{
  ℕ, ◌≡◌, refl, String, Bool, true, false, not, ◌&&◌, Option, none, some, [], ◌∷◌, lookup, if_elim,
  if◌then◌else◌, truthy,
}
use nanoclaw_github_copilot.Queue.{
  GroupState, GroupQueue, Signal, sigterm, sigkill, get_group, task_slot_key, peek_slot, store,
  close, kill_timer, docker_kill, signal_process, signal_tree,
}
use nanoclaw_github_copilot.Queue.Run.{process_alive}
use nanoclaw_github_copilot.Queue.Pipe.{
  write_ipc, mark_idle, close_stdin, notify_idle, set_current_turn_start_cursor,
  notify_user_delivery, notify_agent_output, is_empty,
}
use nanoclaw_github_copilot.Queue.Process.{update}
use nanoclaw_github_copilot.Queue.Shutdown.{
  Host, kill_handle, kill_process, has_pid, clear_ipc, kill_container, stop_agent, kill_active,
  escalate, recycle, recycle_idle_for_auth_refresh, idle_slot, notify_task_idle, reap, close_slot,
  close_task_stdin, kill_slot, kill_slots, begin_shutdown, finish_shutdown, unlink_all,
}
use nanoclaw_github_copilot.Queue.Accounting.Core.{Slots, plain-lookup}
use nanoclaw_github_copilot.Queue.Accounting.Drain.{get_group-active}
use nanoclaw_github_copilot.Queue.Accounting.Calls.{Inv, store-Inv, emit-Inv}
use nanoclaw_github_copilot.Queue.Accounting.Steps.{quiet-Inv}
use nanoclaw_github_copilot.Queue.Accounting.Exits.{write_ipc-Inv}

module _ {limit d : ℕ} where
  pub mark_idle-Inv : (k : String) (q : GroupQueue) → Inv limit d q → Inv limit d (mark_idle k q)
  unfolding mark_idle
  mark_idle-Inv k q v = quiet-Inv q k (record (get_group q k) { idle_waiting = true }) v refl refl

  pub close_stdin-Inv :
      (k : String) (fs_ok : Bool) (q : GroupQueue)
      → Inv limit d q
      → Inv limit d (close_stdin k fs_ok q)
  unfolding close_stdin
  close_stdin-Inv k fs_ok q v =
      let s = get_group q k in
      if_elim (Inv limit d) (s.active && truthy s.group_folder && fs_ok)
        (λ _. write_ipc-Inv s.group_folder close (store k s q) (quiet-Inv q k s v refl refl))
        (λ _. quiet-Inv q k s v refl refl)

  pub notify_idle-Inv :
      (k : String) (fs_ok : Bool) (q : GroupQueue)
      → Inv limit d q
      → Inv limit d (notify_idle k fs_ok q)
  unfolding notify_idle
  notify_idle-Inv k fs_ok q v =
      if_elim (Inv limit d) (is_empty (get_group q k).pending_tasks) (λ _. mark_idle-Inv k q v)
        (λ _. close_stdin-Inv k fs_ok (mark_idle k q) (mark_idle-Inv k q v))

  pub set_cursor-Inv :
      (k cursor : String) (q : GroupQueue)
      → Inv limit d q
      → Inv limit d (set_current_turn_start_cursor k cursor q)
  unfolding set_current_turn_start_cursor
  set_cursor-Inv k cursor q v =
      quiet-Inv q k (record (get_group q k) { current_turn_start_cursor = some cursor }) v refl refl

  pub notify_user_delivery-Inv :
      (k : String) (q : GroupQueue) → Inv limit d q → Inv limit d (notify_user_delivery k q)
  unfolding notify_user_delivery
  notify_user_delivery-Inv k q v =
      quiet-Inv q k
        (record (get_group q k) { current_turn_start_cursor = none; current_turn_text = none }) v
        refl refl

  pub notify_agent_output-Inv :
      (k : String) (q : GroupQueue) → Inv limit d q → Inv limit d (notify_agent_output k q)
  unfolding notify_agent_output
  notify_agent_output-Inv k q v =
      quiet-Inv q k
        (record (get_group q k) {
          piped_since_output = 0;
          agent_has_output = true;
          in_flight_cursor_rollback = none;
        })
        v refl refl

module _ {limit d : ℕ} (host : Host) where
  kill_handle-Inv :
      (p : ℕ) (signal : Signal) (q : GroupQueue)
      → Inv limit d q
      → Inv limit d (kill_handle host p signal q)
  unfolding kill_handle
  kill_handle-Inv p signal q v =
      let q' = record q { procs = update q.procs p (record (q.procs p) { killed = true }) } in
      emit-Inv (signal_process p signal) (if host.kill p then q' else q) (
        if_elim (Inv limit d) (host.kill p) (λ _. record { core = v.core; full = v.full }) (λ _. v))

  kill_process-Inv :
      (p : ℕ) (signal : Signal) (q : GroupQueue)
      → Inv limit d q
      → Inv limit d (kill_process host p signal q)
  unfolding kill_process
  kill_process-Inv p signal q v =
      if_elim (Inv limit d) (has_pid (q.procs p).pid && host.tree_kill p)
        (λ _. emit-Inv (signal_tree p signal) q v) (λ _. kill_handle-Inv p signal q v)

  clear_ipc-Inv :
      (o : Option String) (fs_ok : Bool) (q : GroupQueue)
      → Inv limit d q
      → Inv limit d (clear_ipc o fs_ok q)
  unfolding clear_ipc
  clear_ipc-Inv none fs_ok q v = v
  clear_ipc-Inv (some folder) fs_ok q v =
      if_elim (Inv limit d) (truthy (some folder) && fs_ok)
        {x = record q { ipc = unlink_all folder q.ipc }}
        (λ _. record { core = v.core; full = v.full }) (λ _. v)

  kill_container-Inv :
      (o : Option String) (q : GroupQueue) → Inv limit d q → Inv limit d (kill_container o q)
  unfolding kill_container
  kill_container-Inv none q v = v
  kill_container-Inv (some name) q v =
      if_elim (Inv limit d) (truthy (some name)) (λ _. emit-Inv (docker_kill name) q v) (λ _. v)

  stop_agent-Inv :
      (name : Option String) (o : Option ℕ) (q : GroupQueue)
      → Inv limit d q
      → Inv limit d (stop_agent host name o q)
  unfolding stop_agent
  stop_agent-Inv name none q v = kill_container-Inv name q v
  stop_agent-Inv name (some p) q v =
      if_elim (Inv limit d) (not (q.procs p).killed)
        (λ _. emit-Inv (kill_timer p) _ (kill_handle-Inv p sigterm q v))
        (λ _. kill_container-Inv name q v)

  pub kill_active-Inv :
      (fs_ok : Bool) (k : String) (q : GroupQueue)
      → Inv limit d q
      → Inv limit d (kill_active host fs_ok k q).0
  unfolding kill_active
  kill_active-Inv fs_ok k q v =
      let s = get_group q k in
      let s' = record s { pending_tasks = []; pending_messages = false } in
      if_elim (λ (r : GroupQueue × Bool). Inv limit d r.0) (not s.active)
        (λ _. quiet-Inv q k s v refl refl)
        λ _.
          stop_agent-Inv s.container_name s.process _
            (clear_ipc-Inv s.group_folder fs_ok _ (store-Inv q k s' v refl (get_group-active q k)))

  pub escalate-Inv : (p : ℕ) (q : GroupQueue) → Inv limit d q → Inv limit d (escalate host p q)
  unfolding escalate
  escalate-Inv p q v =
      if_elim (Inv limit d) (not (q.procs p).killed) (λ _. kill_handle-Inv p sigkill q v) (λ _. v)

  recycle-Inv : (o : Option ℕ) (q : GroupQueue) → Inv limit d q → Inv limit d (recycle host o q)
  unfolding recycle
  recycle-Inv none q v = v
  recycle-Inv (some p) q v = kill_process-Inv p sigterm q v

  pub recycle_idle-Inv :
      (k : String) (q : GroupQueue)
      → Inv limit d q
      → Inv limit d (recycle_idle_for_auth_refresh host k q).0
  unfolding recycle_idle_for_auth_refresh
  recycle_idle-Inv k q v =
      let s = get_group q k in
      if_elim (λ (r : GroupQueue × Bool). Inv limit d r.0)
        (s.active && s.idle_waiting && process_alive q s.process)
        (λ _.
          recycle-Inv s.process _
            (quiet-Inv q k (record s { pending_messages = true }) v refl refl))
        (λ _. quiet-Inv q k s v refl refl)

  idle_slot-Inv :
      (k : String) (o : Option GroupState) (q : GroupQueue)
      → Inv limit d q
      → lookup k q.slots ≡ o
      → Inv limit d (idle_slot k o q)
  unfolding idle_slot
  idle_slot-Inv k none q v e = v
  idle_slot-Inv k (some s) q v e =
      store-Inv q k (record s { idle_waiting = true }) v (plain-lookup k q.slots s v.core.plain e)
        (rw e)

  pub notify_task_idle-Inv :
      (chat id : String) (q : GroupQueue) → Inv limit d q → Inv limit d (notify_task_idle chat id q)
  unfolding notify_task_idle peek_slot
  notify_task_idle-Inv chat id q v =
      let k = task_slot_key chat id in idle_slot-Inv k (lookup k q.slots) q v refl

  reap-Inv : (o : Option ℕ) (q : GroupQueue) → Inv limit d q → Inv limit d (reap host o q)
  unfolding reap
  reap-Inv none q v = v
  reap-Inv (some p) q v =
      if_elim (Inv limit d) (process_alive q (some p)) (λ _. kill_process-Inv p sigkill q v)
        (λ _. v)

  close_slot-Inv :
      (fs_ok : Bool) (o : Option GroupState) (q : GroupQueue)
      → Inv limit d q
      → Inv limit d (close_slot host fs_ok o q)
  unfolding close_slot
  close_slot-Inv fs_ok none q v = v
  close_slot-Inv fs_ok (some s) q v =
      if_elim (Inv limit d) (s.active && truthy s.group_folder)
        (λ _.
          reap-Inv s.process (if fs_ok then write_ipc s.group_folder close q else q)
            (if_elim (Inv limit d) fs_ok (λ _. write_ipc-Inv s.group_folder close q v) (λ _. v)))
        (λ _. v)

  pub close_task_stdin-Inv :
      (fs_ok : Bool) (chat id : String) (q : GroupQueue)
      → Inv limit d q
      → Inv limit d (close_task_stdin host fs_ok chat id q)
  unfolding close_task_stdin
  close_task_stdin-Inv fs_ok chat id q v =
      close_slot-Inv fs_ok (peek_slot q (task_slot_key chat id)) q v

  kill_slot-Inv :
      (signal : Signal) (o : Option ℕ) (q : GroupQueue)
      → Inv limit d q
      → Inv limit d (kill_slot host signal o q)
  unfolding kill_slot
  kill_slot-Inv signal none q v = v
  kill_slot-Inv signal (some p) q v =
      if_elim (Inv limit d) (not (q.procs p).killed) (λ _. kill_process-Inv p signal q v) (λ _. v)

  kill_slots-Inv :
      (signal : Signal) (m : Slots) (q : GroupQueue)
      → Inv limit d q
      → Inv limit d (kill_slots host signal m q)
  unfolding kill_slots
  kill_slots-Inv signal [] q v = v
  kill_slots-Inv signal ((k, s) ∷ m) q v =
      kill_slots-Inv signal m (kill_slot host signal s.process q)
        (kill_slot-Inv signal s.process q v)

  pub begin_shutdown-Inv : (q : GroupQueue) → Inv limit d q → Inv limit d (begin_shutdown host q).0
  unfolding begin_shutdown
  begin_shutdown-Inv q v =
      kill_slots-Inv sigterm q.slots (record q { shutting_down = true })
        (record { core = v.core; full = λ off _. absurd (cc off) })

  pub finish_shutdown-Inv : (q : GroupQueue) → Inv limit d q → Inv limit d (finish_shutdown host q)
  unfolding finish_shutdown
  finish_shutdown-Inv q v = kill_slots-Inv sigkill q.slots q v
