-- ===== src/Queue/Kill.antt =====
-- src/group-queue.ts: `killActive` and its escalation, and two ways in which work is started that
-- should not be: a second run of a chat, and a task during shutdown.
use nanoclaw_github_copilot.Base.{
  ℕ, ◌≡◌, refl, ◌∙◌, ap, String, Bool, true, false, ◌&&◌, Option, none, some, List, [], ◌∷◌, ◌++◌,
  arith, lookup, lookup-insert, if_elim, if◌then◌else◌, str_eq, at_least, not, truthy, decr,
}
use nanoclaw_github_copilot.Queue.{
  QueuedTask, GroupState, GroupQueue, IpcFile, run_task_fn, get_slot, get_group, peek_slot, store,
  emit,
}
use nanoclaw_github_copilot.Queue.Run.{
  start_task, start_run, drain_group, drain_pending, drain_messages, count_down, finish_task,
  drain_waiting, serve_waiting,
}
use nanoclaw_github_copilot.Queue.Process.{
  update, exited, report_death, release_exited, owns_exit, exit_owned, exit_held, process_exit,
  folder_name, has_messages, unlink_messages, idle_then_died,
}
use nanoclaw_github_copilot.Queue.Shutdown.{
  Host, kill_handle, clear_ipc, stop_agent, kill_active, escalate,
}
use nanoclaw_github_copilot.Queue.Accounting.{active_at}

procs-clear_ipc :
    (o : Option String) (fs_ok : Bool) (q : GroupQueue) → (clear_ipc o fs_ok q).procs ≡ q.procs
unfolding clear_ipc
procs-clear_ipc none fs_ok q = refl
procs-clear_ipc (some f) fs_ok q =
    if_elim (λ (r : GroupQueue). r.procs ≡ q.procs) (truthy (some f) && fs_ok) (λ _. refl)
      (λ _. refl)

stop_agent-killed :
    (host : Host) (name : Option String) (p : ℕ) (o : Option ℕ) (q : GroupQueue)
    → o ≡ some p
    → (q.procs p).killed ≡ false
    → host.kill p ≡ true
    → ((stop_agent host name o q).procs p).killed ≡ true
unfolding stop_agent kill_handle emit
stop_agent-killed host name p none q e a h = absurd (cc e)
stop_agent-killed host name p (some p') q e a h = ground (arith, e, a, h)

killed-kill_active :
    (host : Host) (fs_ok : Bool) (k : String) (p : ℕ) (q : GroupQueue)
    → (get_group q k).active ≡ true
    → (get_group q k).process ≡ some p
    → (q.procs p).killed ≡ false
    → host.kill p ≡ true
    → ((kill_active host fs_ok k q).0.procs p).killed ≡ true
unfolding kill_active store
killed-kill_active host fs_ok k p q on e a h =
    let s = get_group q k in
    let cleared =
      clear_ipc s.group_folder fs_ok
        (store k (record s { pending_tasks = []; pending_messages = false }) q) in
    if_elim (λ (r : GroupQueue × Bool). (r.0.procs p).killed ≡ true) (not s.active)
      (λ off. absurd (ground (arith, on, off)))
      λ _.
        stop_agent-killed host s.container_name p s.process cleared e
          (rw (procs-clear_ipc s.group_folder fs_ok _) a) h

-- `killActive`, then at once what its timer does: no SIGKILL is sent, since `proc.killed` says that a signal was
-- sent, not that the process ended. The conditions are that the slot is active with a process not signalled
-- before, and that the signal goes through.
escalate-kill_active :
    (host : Host) (fs_ok : Bool) (k : String) (p : ℕ) (q : GroupQueue)
    → (get_group q k).active ≡ true
    → (get_group q k).process ≡ some p
    → (q.procs p).killed ≡ false
    → host.kill p ≡ true
    → escalate host p (kill_active host fs_ok k q).0 ≡ (kill_active host fs_ok k q).0
unfolding escalate
escalate-kill_active host fs_ok k p q on e a h =
    let r = (kill_active host fs_ok k q).0 in
    if_elim (λ x. x ≡ r) (not (r.procs p).killed)
      (λ alive. absurd (ground (arith, alive, killed-kill_active host fs_ok k p q on e a h)))
      (λ _. refl)

-- The end of a task starts the work that waits also while the queue shuts down, which `drainGroup`
-- and the two `enqueue` calls refuse. Stated for one task that waits, where the counter leaves room.
pub finish_task-shutting_down :
    (limit : ℕ) (key w : String) (t : QueuedTask) (q : GroupQueue)
    → q.shutting_down ≡ true
    → q.waiting_slots ≡ w ∷ []
    → lookup w q.waiting_task_fns ≡ some t
    → at_least (decr q.active_count) limit ≡ false
    → (finish_task limit key q).effects ≡ q.effects ++ run_task_fn w t ∷ []
unfolding finish_task serve_waiting start_task emit store drain_waiting
finish_task-shutting_down limit key w t q sd ws found room = rw (ws, room, found) refl

slots-report_death :
    (listener : Bool) (code : Option ℕ) (s : GroupState) (q : GroupQueue)
    → ((report_death listener code s q).slots ≡ q.slots)
      × ((report_death listener code s q).shutting_down ≡ q.shutting_down)
unfolding report_death emit
slots-report_death listener code s q =
    if_elim (λ (r : GroupQueue). (r.slots ≡ q.slots) × (r.shutting_down ≡ q.shutting_down)) _
      (λ _. (refl, refl)) (λ _. (refl, refl))

drain_group_busy :
    (limit : ℕ) (j : String) (c : GroupState) (r : GroupQueue)
    → r.shutting_down ≡ false
    → lookup j r.slots ≡ some c
    → c.pending_tasks ≡ []
    → c.pending_messages ≡ true
    → c.idle_waiting ≡ false
    → drain_group limit j r ≡ start_run j r
unfolding drain_group drain_pending drain_messages get_group get_slot
drain_group_busy limit j c r sd e ts pm idle = ground (arith, sd, e, ts, pm, idle)

-- The queue when the exit handler has released the slot of `key`, before it removes stale files.
abbrev released : String → Bool → GroupState → List (String × IpcFile) → GroupQueue → GroupQueue
released key stale s files q = count_down (store key (exited stale s) (record q { ipc = files }))

released_facts :
    (key j : String) (stale : Bool) (s c : GroupState) (files : List (String × IpcFile))
    (q : GroupQueue)
    → str_eq key j ≡ false
    → lookup j q.slots ≡ some c
    → (lookup j (released key stale s files q).slots ≡ some c)
      × ((released key stale s files q).shutting_down ≡ q.shutting_down)
unfolding count_down store
released_facts key j stale s c files q ne e =
    (ground (arith, lookup-insert key j (exited stale s) q.slots, ne, e), refl)

-- Whatever the handler reported, it drains the chat of the released slot.
drain_busy_chat :
    (limit : ℕ) (listener : Bool) (code : Option ℕ) (s c : GroupState) (r : GroupQueue)
    → r.shutting_down ≡ false
    → lookup s.chat_jid r.slots ≡ some c
    → c.pending_tasks ≡ []
    → c.pending_messages ≡ true
    → c.idle_waiting ≡ false
    → c.active ≡ true
    → let r' = report_death listener code s r in
      (drain_group limit s.chat_jid r' ≡ start_run s.chat_jid r')
      × (active_at s.chat_jid r'.slots ≡ true)
drain_busy_chat limit listener code s c r sd e ts pm idle on =
    let facts = slots-report_death listener code s r in
    let same : lookup s.chat_jid (report_death listener code s r).slots ≡ some c =
      ap (lookup s.chat_jid) facts.0 ∙ e in
    (
      drain_group_busy limit s.chat_jid c (report_death listener code s r) (facts.1 ∙ sd) same ts pm
          idle,
      rw same on,
    )

release_busy_chat :
    (limit : ℕ) (key : String) (listener fs_ok : Bool) (code : Option ℕ) (s c : GroupState)
    (q : GroupQueue)
    → q.shutting_down ≡ false
    → lookup s.chat_jid q.slots ≡ some c
    → str_eq key s.chat_jid ≡ false
    → c.active ≡ true
    → c.idle_waiting ≡ false
    → c.pending_messages ≡ true
    → c.pending_tasks ≡ []
    → (r : GroupQueue) × (release_exited limit key listener fs_ok code s q ≡ start_run s.chat_jid r)
      × (active_at s.chat_jid r.slots ≡ true)
unfolding release_exited
release_busy_chat limit key listener fs_ok code s c q sd ec ne con cidle pm ts =
    let folder = folder_name s.group_folder in
    let reads = truthy s.group_folder && fs_ok in
    let stale = reads && has_messages folder q.ipc in
    let files = if reads then unlink_messages folder q.ipc else q.ipc in
    let r = released key stale s files q in
    let facts = released_facts key s.chat_jid stale s c files q ne ec in
    let last = drain_busy_chat limit listener code s c r (facts.1 ∙ sd) facts.0 ts pm cidle con in
    (report_death listener code s r, last.0, last.1)

exit_acts :
    (limit : ℕ) (key : String) (listener fs_ok : Bool) (code : Option ℕ) (s : GroupState)
    (q : GroupQueue)
    → s.active ≡ true
    → s.idle_waiting ≡ true
    → exit_owned limit key listener fs_ok code s q
      ≡ release_exited limit key listener fs_ok code s q
unfolding exit_owned owns_exit idle_then_died
exit_acts limit key listener fs_ok code s q on idle = ground (arith, on, idle)

-- The process of a task that is idle exits before the task function returns, while the chat's own
-- agent is busy and messages wait for it: the handler starts a second run of the chat, whose slot is
-- still active. The conditions: the queue is not shutting down, the slot of the task is active and
-- idle and is the one registered, the chat's slot is another one, active, not idle, with messages
-- pending and no task of its own.
pub task_exit-second_run :
    (limit : ℕ) (key : String) (p : ℕ) (listener fs_ok : Bool) (code : Option ℕ) (s c : GroupState)
    (q : GroupQueue)
    → q.shutting_down ≡ false
    → lookup key q.slots ≡ some s
    → s.active ≡ true
    → s.idle_waiting ≡ true
    → lookup s.chat_jid q.slots ≡ some c
    → str_eq key s.chat_jid ≡ false
    → c.active ≡ true
    → c.idle_waiting ≡ false
    → c.pending_messages ≡ true
    → c.pending_tasks ≡ []
    → (r : GroupQueue) × (process_exit limit key s.serial p listener fs_ok code q
        ≡ start_run s.chat_jid r)
      × (active_at s.chat_jid r.slots ≡ true)
unfolding process_exit peek_slot
task_exit-second_run limit key p listener fs_ok code s c q sd e on idle ec ne con cidle pm ts =
    let q' = record q { procs = update q.procs p (record (q.procs p) { exit_code = code }) } in
    let (r, eq, active) =
      release_busy_chat limit key listener fs_ok code s c q' sd ec ne con cidle pm ts in
    (
      r,
      rw e (
          unfold exit_held in
          (ground (arith, exit_acts limit key listener fs_ok code s q' on idle) ∙ eq)),
      active,
    )
