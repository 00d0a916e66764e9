-- ===== src/Scheduler/Kept.antt =====
-- src/task-scheduler.ts: what the scheduler never takes away from a task that a person made.
use nanoclaw_github_copilot.Base.{
  not, ℕ, ◌≡◌, refl, sym, ap, ◌∙◌, subst, String, Option, none, some, leb, ltb, arith, if_elim,
  str_eq, eq_iff,
}
use nanoclaw_github_copilot.Mounts.Strings.{Text, RealPath}
use nanoclaw_github_copilot.Names.{resolve_group_folder_path}
use nanoclaw_github_copilot.Scheduler.{
  paused, TaskKind, user, system, Summary, paused_after, ScheduledTask, NextRun, runs_at, never,
  raised, stuck, compute_next_run,
}
use nanoclaw_github_copilot.Scheduler.Rows.{
  TaskDb, is_active_status, get_task_by_id, set_task, update_task, status_update,
  update_task_after_run, delete_task, count_missing, no_missing,
  increment_consecutive_group_missing, clear_consecutive_group_missing,
}
use nanoclaw_github_copilot.Scheduler.Run.{
  SchedulerHost, Env, Progress, returned, perform, on_db, advance_to, advance_task, reject_folder,
  on_kind, log_missing, group_missed, has_group, clear_streak, launch, begin_at, run_task,
  run_task_rest, max_consecutive_group_missing,
}
use nanoclaw_github_copilot.Scheduler.Found.{apply, delete_task_row, set_task_row, log_row, row-id}
use nanoclaw_github_copilot.Scheduler.Missing.{host_of, visit_row, visit}

-- The row is there, and is the same task: its counters, its results and its status may differ.
abbrev pub IsSameTask : ScheduledTask → Option ScheduledTask → Type 0
IsSameTask old none = ⊥
IsSameTask old (some t) =
    (t.kind ≡ old.kind)
    × (t.prompt ≡ old.prompt)
    × (t.script ≡ old.script)
    × (t.chat_jid ≡ old.chat_jid)
    × (t.group_folder ≡ old.group_folder)
    × (t.schedule_type ≡ old.schedule_type)
    × (t.schedule_value ≡ old.schedule_value)

abbrev Keeps : ScheduledTask → String → TaskDb → Type 0
Keeps old get db = IsSameTask old (get_task_by_id get db)

set_task-Keeps :
    (old : ScheduledTask) (id get : String) (set : ScheduledTask → ScheduledTask) (db : TaskDb)
    → ((t : ScheduledTask) → (set t).id ≡ t.id)
    → ((t : ScheduledTask) → IsSameTask old (some t) → IsSameTask old (some (set t)))
    → Keeps old get db
    → Keeps old get (set_task id set db)
set_task-Keeps old id get set db k same h =
    subst (IsSameTask old) (sym (set_task_row id get set db k))
      (if_elim (IsSameTask old) (str_eq id get) (λ _. applied (get_task_by_id get db) h) (λ _. h))
  where
    applied : (o : Option ScheduledTask) → IsSameTask old o → IsSameTask old (apply set o)
    applied none n = n
    applied (some t) n = same t n

module _ (old : ScheduledTask) (get : String) where
  advance_to-Keeps :
      (next : NextRun) (task : ScheduledTask) (summary : Summary) (now : ℕ) (h : SchedulerHost)
      → Keeps old get h.db
      → Keeps old get (host_of (advance_to next task summary now h)).db
  unfolding on_db update_task_after_run
  advance_to-Keeps raised task summary now h k = k
  advance_to-Keeps stuck task summary now h k = k
  advance_to-Keeps never task summary now h k =
      set_task-Keeps old task.id get _ h.db (λ t. refl) (λ t n. n) k
  advance_to-Keeps (runs_at next) task summary now h k =
      set_task-Keeps old task.id get _ h.db (λ t. refl) (λ t n. n) k

  paused-Keeps :
      (id : String) (db : TaskDb)
      → Keeps old get db
      → Keeps old get (update_task id (status_update paused) db)
  unfolding update_task
  paused-Keeps id db k = set_task-Keeps old id get _ db (λ t. refl) (λ t n. n) k

  -- A task of another id, or made by a person.
  abbrev Spared : ScheduledTask → Type 0
  Spared task = task.id ≡ get → task.kind ≡ user

  deleted-Keeps :
      (task : ScheduledTask) (db : TaskDb)
      → Spared task
      → task.kind ≡ system
      → Keeps old get db
      → Keeps old get (delete_task task.id db)
  deleted-Keeps task db s e k = subst (IsSameTask old) (sym (delete_task_row task.id get db)) (
      if_elim (IsSameTask old) (str_eq task.id get)
        (λ own. absurd (ground (arith, own, eq_iff task.id get, clash))) (λ _. k))
    where
      clash : task.id ≡ get → ⊥
      clash i = absurd (cc (s i, e))

  group_missed-Keeps :
      (env : Env) (task : ScheduledTask) (started now miss_count : ℕ) (h : SchedulerHost)
      → Spared task
      → Keeps old get h.db
      → Keeps old get (host_of (group_missed env.cron_next task started now miss_count h)).db
  unfolding group_missed advance_task on_db
  group_missed-Keeps env task started now n h s k =
      let next = compute_next_run env.cron_next now task in
      if_elim (λ (p : Progress). Keeps old get (host_of p).db) (leb max_consecutive_group_missing n)
        (λ _. by_kind task.kind refl) (λ _. advance_to-Keeps next task _ now _ (logged h.db k))
    where
      logged : (db : TaskDb) → Keeps old get db → Keeps old get (log_missing task started now db)
      logged db kept = subst (IsSameTask old) (sym (log_row get _ db)) kept

      by_kind :
          (kind : TaskKind)
          → task.kind ≡ kind
          → Keeps old get
              (host_of (
                on_kind kind (returned (on_db (delete_task task.id) h)) (
                  advance_task env.cron_next task (paused_after n) now (
                    on_db
                      (log_missing task started now)
                      (on_db (update_task task.id (status_update paused)) h))))).db
      by_kind system e = deleted-Keeps task h.db s e k
      by_kind user e =
          advance_to-Keeps (compute_next_run env.cron_next now task) task _ now _
            (logged _ (paused-Keeps task.id h.db k))

  clear_streak-Keeps :
      (task : ScheduledTask) (h : SchedulerHost)
      → Keeps old get h.db
      → Keeps old get (clear_streak task h).db
  unfolding clear_streak on_db clear_consecutive_group_missing
  clear_streak-Keeps task h k =
      if_elim (λ (c : SchedulerHost). Keeps old get c.db) (ltb 0 task.consecutive_group_missing)
        (λ _. set_task-Keeps old task.id get no_missing h.db (λ t. refl) (λ t n. n) k) (λ _. k)

  launch-Keeps :
      (env : Env) (task : ScheduledTask) (h : SchedulerHost)
      → Keeps old get h.db
      → Keeps old get (launch env task h).db
  unfolding launch perform
  launch-Keeps env task h k = clear_streak-Keeps task h k

  run_task-Keeps :
      (env : Env) (task : ScheduledTask) (started now : ℕ) (h : SchedulerHost)
      → Spared task
      → Keeps old get h.db
      → Keeps old get (host_of (run_task env task started now h)).db
  unfolding run_task reject_folder perform on_db increment_consecutive_group_missing
  run_task-Keeps env task started now h s k =
      by_folder (resolve_group_folder_path env.groups_dir task.group_folder)
    where
      counted : Keeps old get (increment_consecutive_group_missing task.id h.db).0
      counted = set_task-Keeps old task.id get count_missing h.db (λ t. refl) (λ t n. n) k

      by_folder :
          (path : Option RealPath)
          → Keeps old get (host_of (begin_at env task started now h path)).db
      by_folder none =
          subst (IsSameTask old)
            (sym (log_row get _ (update_task task.id (status_update paused) h.db)))
            (paused-Keeps task.id h.db k)
      by_folder (some dir) =
          if_elim (λ (p : Progress). Keeps old get (host_of p).db) (not (env.makes_dir dir))
            (λ _. k)
            (λ _.
              if_elim (λ (p : Progress). Keeps old get (host_of p).db)
                (has_group env.registered_groups task.group_folder)
                (λ _.
                  if_elim (λ (p : Progress). Keeps old get (host_of p).db)
                    (env.writes_snapshot task.group_folder) (λ _. launch-Keeps env task _ k)
                    (λ _. clear_streak-Keeps task _ k))
                (λ _. group_missed-Keeps env task started now _ _ s counted))

abbrev UsersRow : Option ScheduledTask → Type 0
UsersRow none = ⊥
UsersRow (some task) = task.kind ≡ user

-- A task that a person made is never lost: whichever task the scheduler visits or ends a run of, the row
-- stays in the table with its prompt, its script, its chat, its folder and its schedule.
pub user_task_kept :
    (env : Env) (get id : String) (now started : ℕ) (old task : ScheduledTask)
    (result error : Option Text) (h : SchedulerHost)
    → get_task_by_id get h.db ≡ some old
    → old.kind ≡ user
    → IsSameTask old (get_task_by_id get (visit env id now h).db)
      × IsSameTask old
          (get_task_by_id get (host_of (run_task_rest env task started now result error h)).db)
unfolding visit run_task_rest advance_task on_db perform
user_task_kept env get id now started old task result error h r u = (
  by_row (get_task_by_id id h.db) refl,
  advance_to-Keeps old get (compute_next_run env.cron_next now task) task _ now _
      (subst (IsSameTask old) (sym (log_row get _ h.db)) kept),
)
  where
    kept : Keeps old get h.db
    kept = subst (IsSameTask old) (sym r) (refl, refl, refl, refl, refl, refl, refl)

    by_row :
        (row : Option ScheduledTask)
        → get_task_by_id id h.db ≡ row
        → Keeps old get (visit_row env now h row).db
    by_row none e = kept
    by_row (some found) e =
        if_elim (λ (v : SchedulerHost). Keeps old get v.db) (is_active_status found.status)
          (λ _. run_task-Keeps old get env found now now h (spared found e) kept) (λ _. kept)
      where
        spared :
            (found : ScheduledTask)
            → get_task_by_id id h.db ≡ some found
            → found.id ≡ get
            → found.kind ≡ user
        spared found e i =
            let own : id ≡ get = sym (row-id id h.db found e) ∙ i in
            subst UsersRow (sym r ∙ sym (ap (λ (k : String). get_task_by_id k h.db) own) ∙ e) u
