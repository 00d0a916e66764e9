-- ===== src/Scheduler/Missing.antt =====
-- src/task-scheduler.ts: a task whose group stays away is stopped.
use nanoclaw_github_copilot.Base.{
  not, ℕ, suc, ◌+◌, ◌≡◌, refl, sym, subst, ◌≤◌, ◌<◌, ◌⊎◌, inl, inr, String, true, false, Option,
  none, some, List, [], ◌∷◌, arith, leb, if◌then◌else◌, if_elim, eq_refl, length,
}
use nanoclaw_github_copilot.Mounts.Strings.{RealPath}
use nanoclaw_github_copilot.Names.{resolve_group_folder_path}
use nanoclaw_github_copilot.Scheduler.{
  paused, TaskKind, user, system, Summary, paused_after, ScheduledTask, NextRun, runs_at, never,
  raised, stuck, compute_next_run,
}
use nanoclaw_github_copilot.Scheduler.Rows.{
  is_active_status, get_task_by_id, update_task, apply_updates, status_update, after_run,
  update_task_after_run, log_task_run, delete_task, count_missing,
}
use nanoclaw_github_copilot.Scheduler.Run.{
  SchedulerHost, Env, Progress, returned, threw, running, perform, on_db, advance_to, advance_task,
  reject_folder, on_kind, log_missing, group_missed, has_group, begin_at, run_task,
  max_consecutive_group_missing,
}
use nanoclaw_github_copilot.Scheduler.Found.{own_row, log_row, gone_row, missing_of-count, row-id}

-- The tables after a call of `runTask`, whether it returned, threw or waits.
abbrev pub host_of : Progress → SchedulerHost
host_of (returned h) = h
host_of (threw h) = h
host_of (running h) = h

-- What the scheduler does with one task of its list: it reads the row again, and runs it if it is active.
abbrev pub visit_row : Env → ℕ → SchedulerHost → Option ScheduledTask → SchedulerHost
visit_row env now h none = h
visit_row env now h (some task) =
    if is_active_status task.status then host_of (run_task env task now now h) else h

unfoldable pub visit : Env → String → ℕ → SchedulerHost → SchedulerHost
unfolding run_task get_task_by_id
visit env id now h = visit_row env now h (get_task_by_id id h.db)

unfoldable pub visits : Env → String → List ℕ → SchedulerHost → SchedulerHost
unfolding visit
visits env id [] h = h
visits env id (now ∷ later) h = visits env id later (visit env id now h)

-- The row has missed its group at least `k` times, or the scheduler leaves it alone.
abbrev MissedRow : Env → ℕ → Option ScheduledTask → Type 0
MissedRow env k none = Unit
MissedRow env k (some task) =
    (is_active_status task.status ≡ false)
    ⊎ ((has_group env.registered_groups task.group_folder ≡ false)
        × (k ≤ task.consecutive_group_missing)
        × (k < max_consecutive_group_missing))

abbrev Missed : Env → ℕ → String → SchedulerHost → Type 0
Missed env k id h = MissedRow env k (get_task_by_id id h.db)

-- What holds of the row before `computeNextRun` and after `updateTaskAfterRun` holds at the end.
advance_row :
    (P : Option ScheduledTask → Type 0) (next : NextRun) (task row : ScheduledTask)
    (summary : Summary) (now : ℕ) (h : SchedulerHost)
    → get_task_by_id task.id h.db ≡ some row
    → P (some row)
    → ((t : Option ℕ) → P (some (after_run t summary now row)))
    → P (get_task_by_id task.id (host_of (advance_to next task summary now h)).db)
unfolding on_db update_task_after_run
advance_row P raised task row summary now h r before after = subst P (sym r) before
advance_row P stuck task row summary now h r before after = subst P (sym r) before
advance_row P never task row summary now h r before after =
    subst P (sym (own_row task.id _ h.db row (λ t. refl) r)) (after none)
advance_row P (runs_at next) task row summary now h r before after =
    subst P (sym (own_row task.id _ h.db row (λ t. refl) r)) (after (some next))

after_run-inactive :
    (t : Option ℕ) (summary : Summary) (now : ℕ) (row : ScheduledTask)
    → is_active_status row.status ≡ false
    → is_active_status (after_run t summary now row).status ≡ false
after_run-inactive none summary now row h = refl
after_run-inactive (some next) summary now row h = h

module _ (env : Env) (k : ℕ) (task row : ScheduledTask) (started now : ℕ) (h : SchedulerHost)
    (found : get_task_by_id task.id h.db ≡ some row) where
  streak_kept :
      has_group env.registered_groups row.group_folder ≡ false
      → k ≤ row.consecutive_group_missing
      → k < max_consecutive_group_missing
      → (summary : Summary)
      → Missed env k task.id (
          host_of
            (advance_task env.cron_next task summary now (on_db (log_missing task started now) h)))
  unfolding advance_task on_db
  streak_kept g l b summary =
      advance_row (MissedRow env k) (compute_next_run env.cron_next now task) task row summary now _
        (subst (λ (o : Option ScheduledTask). o ≡ some row) (sym (log_row task.id _ h.db)) found)
        (inr (g, l, b)) (λ t. inr (g, l, b))

  streak_paused :
      (summary : Summary)
      → Missed env k task.id (
          host_of (
            advance_task env.cron_next task summary now (
              on_db
                (log_missing task started now)
                (on_db (update_task task.id (status_update paused)) h))))
  unfolding advance_task on_db update_task
  streak_paused summary =
      let stopped =
        own_row task.id (apply_updates (status_update paused)) h.db row (λ t. refl) found in
      advance_row (MissedRow env k) (compute_next_run env.cron_next now task) task
        (apply_updates (status_update paused) row) summary now _
        (subst (λ (o : Option ScheduledTask). o ≡ some (apply_updates (status_update paused) row))
          (sym (log_row task.id _ (update_task task.id (status_update paused) h.db))) stopped)
        (inl refl)
        (λ t.
          inl (after_run-inactive t summary now (apply_updates (status_update paused) row) refl))

  group_missed-Missed :
      (miss_count : ℕ)
      → miss_count ≡ row.consecutive_group_missing
      → has_group env.registered_groups row.group_folder ≡ false
      → k ≤ row.consecutive_group_missing
      → Missed env k task.id (host_of (group_missed env.cron_next task started now miss_count h))
  unfolding group_missed on_db
  group_missed-Missed n e g l =
      if_elim (λ (p : Progress). Missed env k task.id (host_of p))
        (leb max_consecutive_group_missing n) (λ _. by_kind task.kind)
        (λ few. streak_kept g l (ground (arith, few, e, l)) _)
    where
      by_kind :
          (kind : TaskKind)
          → Missed env k task.id (
              host_of (
                on_kind kind (returned (on_db (delete_task task.id) h)) (
                  advance_task env.cron_next task (paused_after n) now (
                    on_db
                      (log_missing task started now)
                      (on_db (update_task task.id (status_update paused)) h)))))
      by_kind user = streak_paused (paused_after n)
      by_kind system =
          subst (MissedRow env k) {x = none}
            (ground (arith, gone_row task.id h.db, eq_refl task.id)) tt

-- One more tick without the group.
run_task-Missed :
    (env : Env) (k now : ℕ) (task : ScheduledTask) (h : SchedulerHost)
    → ((dir : RealPath) → env.makes_dir dir ≡ true)
    → get_task_by_id task.id h.db ≡ some task
    → has_group env.registered_groups task.group_folder ≡ false
    → k ≤ task.consecutive_group_missing
    → Missed env (suc k) task.id (host_of (run_task env task now now h))
unfolding run_task reject_folder on_db update_task log_task_run get_task_by_id perform
run_task-Missed env k now task h made r g l =
    by_folder (resolve_group_folder_path env.groups_dir task.group_folder)
  where
    by_folder :
        (path : Option RealPath)
        → Missed env (suc k) task.id (host_of (begin_at env task now now h path))
    by_folder none =
        subst (MissedRow env (suc k)) (sym (own_row task.id _ h.db task (λ t. refl) r)) (inl refl)
    by_folder (some dir) =
        if_elim (λ (p : Progress). Missed env (suc k) task.id (host_of p)) (not (env.makes_dir dir))
          (λ e. absurd (ground (arith, e, made dir)))
          (λ _.
            if_elim (λ (p : Progress). Missed env (suc k) task.id (host_of p))
              (has_group env.registered_groups task.group_folder) (λ e. absurd (cc (e, g)))
              (λ _.
                let counted = missing_of-count task.id h.db task r in
                group_missed-Missed env (suc k) task (count_missing task) now now _ counted.0 _
                  counted.1 g (omega (arith, l))))

visit-Missed :
    (env : Env) (id : String) (k now : ℕ) (h : SchedulerHost)
    → ((dir : RealPath) → env.makes_dir dir ≡ true)
    → Missed env k id h
    → Missed env (suc k) id (visit env id now h)
unfolding visit
visit-Missed env id k now h made m = by_row (get_task_by_id id h.db) refl
  where
    skipped :
        (row : Option ScheduledTask)
        → get_task_by_id id h.db ≡ row
        → MissedRow env (suc k) row
        → Missed env (suc k) id h
    skipped row e n = subst (MissedRow env (suc k)) (sym e) n

    by_miss :
        (task : ScheduledTask)
        → get_task_by_id id h.db ≡ some task
        → is_active_status task.status ≡ true
        → MissedRow env k (some task)
        → Missed env (suc k) id (host_of (run_task env task now now h))
    by_miss task e a (inl off) = absurd (cc (off, a))
    by_miss task e a (inr miss) =
        let own = row-id id h.db task e in
        subst (λ (i : String). Missed env (suc k) i (host_of (run_task env task now now h))) own
          (run_task-Missed env k now task h made
            (subst (λ (i : String). get_task_by_id i h.db ≡ some task) (sym own) e) miss.0 miss.1)

    by_row :
        (row : Option ScheduledTask)
        → get_task_by_id id h.db ≡ row
        → Missed env (suc k) id (visit_row env now h row)
    by_row none e = skipped none e tt
    by_row (some task) e =
        if_elim (Missed env (suc k) id) (is_active_status task.status)
          (λ a. by_miss task e a (subst (MissedRow env k) e m)) (λ a. skipped (some task) e (inl a))

visits-Missed :
    (env : Env) (id : String) (times : List ℕ) (k : ℕ) (h : SchedulerHost)
    → ((dir : RealPath) → env.makes_dir dir ≡ true)
    → Missed env k id h
    → Missed env (k + length times) id (visits env id times h)
unfolding visits
visits-Missed env id [] k h made m = subst (λ (n : ℕ). Missed env n id h) (omega arith) m
visits-Missed env id (now ∷ later) k h made m =
    subst (λ (n : ℕ). Missed env n id (visits env id later (visit env id now h))) (omega arith)
      (visits-Missed env id later (suc k) (visit env id now h) made
        (visit-Missed env id k now h made m))

-- The row is gone, or the scheduler leaves it alone.
abbrev pub IsStopped : Option ScheduledTask → Type 0
IsStopped none = Unit
IsStopped (some task) = is_active_status task.status ≡ false

Missed-IsStopped :
    (env : Env) (k : ℕ) (row : Option ScheduledTask)
    → max_consecutive_group_missing ≤ k
    → MissedRow env k row
    → IsStopped row
Missed-IsStopped env k none l m = tt
Missed-IsStopped env k (some task) l (inl off) = off
Missed-IsStopped env k (some task) l (inr miss) = absurd (omega (arith, l, miss.2))

-- A task whose group stays unregistered is run at most three times more: after three visits of the
-- scheduler, whatever the schedule and even if the cron parser throws, its row is gone or no longer
-- active. The condition is that `mkdirSync` does not throw, which comes before the miss is counted.
pub visits-IsStopped :
    (env : Env) (id : String) (times : List ℕ) (task : ScheduledTask) (h : SchedulerHost)
    → get_task_by_id id h.db ≡ some task
    → has_group env.registered_groups task.group_folder ≡ false
    → ((dir : RealPath) → env.makes_dir dir ≡ true)
    → max_consecutive_group_missing ≤ length times
    → IsStopped (get_task_by_id id (visits env id times h).db)
visits-IsStopped env id times task h r g made l =
    Missed-IsStopped env (0 + length times) (get_task_by_id id (visits env id times h).db)
      (omega (arith, l))
      (visits-Missed env id times 0 h made
        (subst (MissedRow env 0) (sym r) (inr (g, omega arith, omega arith))))
