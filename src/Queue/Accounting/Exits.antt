-- ===== src/Queue/Accounting/Exits.antt =====
-- src/group-queue.ts: `sendMessage`, `requestDeliveryRetry` and the exit of a process keep the
-- accounting.
use text.Mathlib.Text.{find?}
use nanoclaw_github_copilot.Base.{
  ℕ, ◌≡◌, refl, inl, inr, ◌⊎◌, String, Bool, true, false, not, ◌&&◌, ◌||◌, Option, none, some,
  arith, lookup, if_elim, if◌then◌else◌, ltb, truthy, ◌==◌, is_some,
}
use nanoclaw_github_copilot.Queue.{
  GroupState, GroupQueue, Effect, get_group, get_slot, peek_slot, store, emit, IpcFile, message,
}
use nanoclaw_github_copilot.Queue.Run.{count_down, drain_group, not_killed}
use nanoclaw_github_copilot.Queue.Pipe.{
  write_ipc, has_exited, piped, torn_down, can_receive, send_message, reopened, restore_turn,
  retry_turn, request_delivery_retry,
}
use nanoclaw_github_copilot.Queue.Process.{
  exited, report_death, release_exited, owns_exit, exit_owned, exit_held, process_exit, registered,
  register_at, register_process, unlink_messages, folder_name, has_messages, delivered_then_died,
  update,
}
use nanoclaw_github_copilot.Queue.Accounting.Core.{active_at, plain-lookup}
use nanoclaw_github_copilot.Queue.Accounting.Drain.{get_group-plain, get_group-active}
use nanoclaw_github_copilot.Queue.Accounting.Calls.{Inv, Ready, store-Inv, drain_group-Inv}
use nanoclaw_github_copilot.Queue.Accounting.Ends.{release-Ready}
use nanoclaw_github_copilot.Queue.Accounting.Steps.{quiet-Inv}

pub write_ipc-Inv :
    {limit d : ℕ} (o : Option String) (file : IpcFile) (q : GroupQueue)
    → Inv limit d q
    → Inv limit d (write_ipc o file q)
unfolding write_ipc
write_ipc-Inv none file q v = v
write_ipc-Inv (some f) file q v = record { core = v.core; full = v.full }

pub send_message-Inv :
    {limit d : ℕ} (k text : String) (cursor : Option String) (fs_ok : Bool) (q : GroupQueue)
    → Inv limit d q
    → Inv limit d (send_message limit k text cursor fs_ok q).0
unfolding send_message piped torn_down
send_message-Inv {limit} {d} k text cursor fs_ok q v =
    let s = get_group q k in
    if_elim (λ (r : GroupQueue × Bool). Inv limit d r.0) (not (can_receive s))
      (λ _. quiet-Inv q k s v refl refl)
      λ ready.
        if_elim (λ (r : GroupQueue × Bool). Inv limit d r.0) (has_exited q s.process)
          (λ _. drain_group-Inv k (count_down (store k (torn_down s) q)) (
            release-Ready q k (torn_down s) v (get_group-plain q v.core k) refl
              (active_of_ready s ready (get_group-active q k))))
          λ _.
            if_elim (λ (r : GroupQueue × Bool). Inv limit d r.0) fs_ok
              (λ _.
                write_ipc-Inv s.group_folder (message text) (store k (piped text cursor s) q)
                  (quiet-Inv q k (piped text cursor s) v refl refl))
              (λ _. quiet-Inv q k (record s { idle_waiting = false }) v refl refl)
  where
    active_of_ready :
        (s : GroupState)
        → not (can_receive s) ≡ false
        → s.active ≡ active_at k q.slots
        → active_at k q.slots ≡ true
    active_of_ready s h e = unfold can_receive in ground arith

restore_turn-Inv :
    {limit d : ℕ} (k cursor text : String) (r : GroupQueue × Bool)
    → Inv limit d r.0
    → Inv limit d (restore_turn k cursor text r)
unfolding restore_turn
restore_turn-Inv k cursor text (q, true) v = v
restore_turn-Inv k cursor text (q, false) v = quiet-Inv q k _ v refl refl

retry_turn-Inv :
    {limit d : ℕ} (k : String) (fs_ok : Bool) (cursor text : Option String) (q : GroupQueue)
    → Inv limit d q
    → Inv limit d (retry_turn limit k fs_ok cursor text q).0
unfolding retry_turn reopened
retry_turn-Inv k fs_ok none text q v = quiet-Inv q k _ v refl refl
retry_turn-Inv k fs_ok (some cursor) none q v = quiet-Inv q k _ v refl refl
retry_turn-Inv {limit} {d} k fs_ok (some cursor) (some text) q v =
    if_elim (λ (r : GroupQueue × Option String). Inv limit d r.0) (not (truthy (some text)))
      (λ _. quiet-Inv q k (get_group q k) v refl refl)
      λ _. restore_turn-Inv k cursor text _ (
        send_message-Inv k text (some cursor) fs_ok (store k (reopened (get_group q k)) q)
          (quiet-Inv q k (reopened (get_group q k)) v refl refl))

pub request_delivery_retry-Inv :
    {limit d : ℕ} (k : String) (fs_ok : Bool) (q : GroupQueue)
    → Inv limit d q
    → Inv limit d (request_delivery_retry limit k fs_ok q).0
unfolding request_delivery_retry
request_delivery_retry-Inv k fs_ok q v =
    retry_turn-Inv k fs_ok (get_group q k).current_turn_start_cursor
      (get_group q k).current_turn_text q v

register_at-Inv :
    {limit d : ℕ} (k : String) (p : ℕ) (name : String) (folder : Option String)
    (o : Option GroupState) (q : GroupQueue)
    → Inv limit d q
    → lookup k q.slots ≡ o
    → Inv limit d (register_at k p name folder o q)
unfolding register_at registered
register_at-Inv k p name folder (some s) q v e =
    store-Inv q k _ v (plain-lookup k q.slots s v.core.plain e) (rw e)
register_at-Inv {limit} {d} k p name folder none q v e =
    if_elim (Inv limit d) (is_some (find? k "::task::")) (λ _. v)
      (λ _. quiet-Inv q k (registered p name folder (get_group q k)) v refl refl)

pub register_process-Inv :
    {limit d : ℕ} (k : String) (p : ℕ) (name : String) (folder : Option String) (q : GroupQueue)
    → Inv limit d q
    → Inv limit d (register_process k p name folder q)
unfolding register_process peek_slot
register_process-Inv k p name folder q v = register_at-Inv k p name folder _ q v refl

emit-Ready :
    {limit d : ℕ} (k : String) (e : Effect) (q : GroupQueue)
    → Ready limit d k q
    → Ready limit d k (emit e q)
unfolding emit get_group get_slot not_killed
emit-Ready k e q r = record {
  core = r.core;
  apart = r.apart;
  room = r.room;
  idle = r.idle;
  kept = r.kept;
  near = r.near;
}

owns_exit-active : (s : GroupState) → owns_exit s ≡ true → s.active ≡ true
unfolding owns_exit
owns_exit-active s h = ground arith

report_death-Ready :
    {limit d : ℕ} (k : String) (listener : Bool) (code : Option ℕ) (s : GroupState) (q : GroupQueue)
    → Ready limit d k q
    → Ready limit d k (report_death listener code s q)
unfolding report_death
report_death-Ready {limit} {d} k listener code s q r =
    let in_flight = ltb 0 s.piped_since_output && not s.agent_has_output in
    if_elim (Ready limit d k) (listener && (in_flight || delivered_then_died s))
      (λ _. emit-Ready k _ q r) (λ _. r)

drain_same-Inv :
    {limit d : ℕ} (j k : String) (q : GroupQueue)
    → j ≡ k
    → Ready limit d k q
    → Inv limit d (drain_group limit j q)
drain_same-Inv j k q e r = rw e (drain_group-Inv k q r)

-- A chat slot's process exits: the handler releases the slot and drains the same chat.
release_exited-Inv :
    {limit d : ℕ} (k : String) (listener fs_ok : Bool) (code : Option ℕ) (s : GroupState)
    (q : GroupQueue)
    → Inv limit d q
    → s.chat_jid ≡ k
    → lookup k q.slots ≡ some s
    → s.active ≡ true
    → Inv limit d (release_exited limit k listener fs_ok code s q)
unfolding release_exited exited
release_exited-Inv k listener fs_ok code s q v same e on =
    let folder = folder_name s.group_folder in
    let reads = truthy s.group_folder && fs_ok in
    let stale = reads && has_messages folder q.ipc in
    let files = if reads then unlink_messages folder q.ipc else q.ipc in
    let q' = record q { ipc = files } in
    drain_same-Inv s.chat_jid k
      (report_death listener code s (count_down (store k (exited stale s) q'))) same
      (report_death-Ready k listener code s (count_down (store k (exited stale s) q')) (
        release-Ready q' k (exited stale s) (record { core = v.core; full = v.full })
          (plain-lookup k q.slots s v.core.plain e) refl (rw e on)))

-- The handler releases a chat's own slot, or it does nothing.
abbrev pub OwnExit : String → GroupQueue → Type 0
OwnExit k q =
    (s : GroupState) → lookup k q.slots ≡ some s → (s.chat_jid ≡ k) ⊎ (owns_exit s ≡ false)

exit_owned-Inv :
    {limit d : ℕ} (k : String) (listener fs_ok : Bool) (code : Option ℕ) (s : GroupState)
    (q : GroupQueue)
    → Inv limit d q
    → (s.chat_jid ≡ k) ⊎ (owns_exit s ≡ false)
    → lookup k q.slots ≡ some s
    → Inv limit d (exit_owned limit k listener fs_ok code s q)
unfolding exit_owned
exit_owned-Inv k listener fs_ok code s q v (inr idle) e = rw idle v
exit_owned-Inv {limit} {d} k listener fs_ok code s q v (inl same) e =
    if_elim (Inv limit d) (owns_exit s)
      (λ acts. release_exited-Inv k listener fs_ok code s q v same e (owns_exit-active s acts))
      (λ _. v)

exit_held-Inv :
    {limit d : ℕ} (k : String) (serial : ℕ) (listener fs_ok : Bool) (code : Option ℕ)
    (o : Option GroupState) (q : GroupQueue)
    → Inv limit d q
    → OwnExit k q
    → lookup k q.slots ≡ o
    → Inv limit d (exit_held limit k serial listener fs_ok code o q)
unfolding exit_held
exit_held-Inv k serial listener fs_ok code none q v own e = v
exit_held-Inv {limit} {d} k serial listener fs_ok code (some s) q v own e =
    if_elim (Inv limit d) (s.serial == serial)
      (λ _. exit_owned-Inv k listener fs_ok code s q v (own s e) e) (λ _. v)

pub process_exit-Inv :
    {limit d : ℕ} (k : String) (serial p : ℕ) (listener fs_ok : Bool) (code : Option ℕ)
    (q : GroupQueue)
    → Inv limit d q
    → OwnExit k q
    → Inv limit d (process_exit limit k serial p listener fs_ok code q)
unfolding process_exit peek_slot
process_exit-Inv k serial p listener fs_ok code q v own =
    let q' = record q { procs = update q.procs p (record (q.procs p) { exit_code = code }) } in
    exit_held-Inv k serial listener fs_ok code (lookup k q.slots) q'
      (record { core = v.core; full = v.full }) own refl
