-- ===== src/Scheduler/Run.antt =====
-- src/task-scheduler.ts: `runTask`, split where it awaits the agent. Its stream callback is in Stream.
use nanoclaw_github_copilot.Base.{
  ℕ, suc, ◌-◌, String, Bool, true, false, not, Option, none, some, List, [], ◌∷◌, ◌++◌, map, ltb,
  leb, if◌then◌else◌,
}
use nanoclaw_github_copilot.Mounts.Strings.{Text, RealPath, same}
use nanoclaw_github_copilot.Names.{resolve_group_folder_path}
use nanoclaw_github_copilot.Scheduler.{
  ScheduleType, TaskStatus, paused, TaskKind, user, system, Summary, paused_after, group_missing,
  error_text, result_text, completed_text, ScheduledTask, NextRun, runs_at, never, raised, stuck,
  compute_next_run,
}
use nanoclaw_github_copilot.Scheduler.Rows.{
  RunError, invalid_folder, group_not_found, agent_error, TaskRunLog, TaskDb, status_update,
  update_task, increment_consecutive_group_missing, clear_consecutive_group_missing, delete_task,
  log_task_run, update_task_after_run, get_all_tasks, or_null,
}

-- The rows that `writeTasksSnapshot` writes for the container.
pub record TaskSnapshot : Type 0 where
  pub id : String
  pub group_folder : Text
  pub chat_jid : String
  pub prompt : String
  pub script : Option String
  pub schedule_type : ScheduleType
  pub schedule_value : Text
  pub status : TaskStatus
  pub next_run : Option ℕ
  pub last_run : Option ℕ
  pub last_result : Option Summary
  pub context_mode : String
  pub consecutive_group_missing : ℕ
  pub kind : TaskKind

-- The input of `runAgentForChat`; its `sessionId` is undefined and `isScheduledTask` is set.
pub record AgentCall : Type 0 where
  pub chat_jid : String
  pub group_folder : Text
  pub prompt : String
  pub task_id : String
  pub is_default_agent : Bool
  pub assistant_name : String
  pub script : Option String

pub data SchedulerEffect : Type 0 where
  make_dir : RealPath → SchedulerEffect
  write_tasks_snapshot : Text → Bool → List TaskSnapshot → SchedulerEffect
  run_agent_for_chat : AgentCall → SchedulerEffect
  send_text : String → Text → SchedulerEffect
  edit_message : String → Text → Text → SchedulerEffect
  task_idle : String → String → SchedulerEffect
  reap_slot : String → String → SchedulerEffect

pub record SchedulerHost : Type 0 where
  pub db : TaskDb
  pub effects : List SchedulerEffect

-- What the scheduler asks of other parts. `registered_groups` are the folders of the groups; `mkdirSync` on
-- a path and `writeTasksSnapshot` of a folder may throw.
pub record Env : Type 0 where
  pub groups_dir : RealPath
  pub registered_groups : List Text
  pub folder_is_default_agent : Text → Bool
  pub agent_name : String → String
  pub cron_next : Text → ℕ → Option ℕ
  pub makes_dir : RealPath → Bool
  pub writes_snapshot : Text → Bool

-- Where a call of `runTask` stands: it has returned, it has thrown, or it awaits the agent.
pub data Progress : Type 0 where
  returned threw running : SchedulerHost → Progress

unfoldable pub perform : SchedulerEffect → SchedulerHost → SchedulerHost
perform effect h = record h { effects = h.effects ++ effect ∷ [] }

unfoldable pub on_db : (TaskDb → TaskDb) → SchedulerHost → SchedulerHost
on_db f h = record h { db = f h.db }

abbrev pub max_consecutive_group_missing : ℕ
max_consecutive_group_missing = 3

unfoldable pub has_group : List Text → Text → Bool
unfolding same
has_group [] folder = false
has_group (group ∷ groups) folder =
    let later = has_group groups folder in if same group folder then true else later

abbrev pub failure : ScheduledTask → ℕ → ℕ → RunError → TaskRunLog
failure task started now error = record {
  task_id = task.id;
  run_at = now;
  duration_ms = now - started;
  failed = true;
  result = none;
  error = some error;
}

-- `computeNextRun`, then `updateTaskAfterRun`: the last lines of either path.
abbrev pub advance_to : NextRun → ScheduledTask → Summary → ℕ → SchedulerHost → Progress
advance_to raised task summary now h = threw h
advance_to stuck task summary now h = threw h
advance_to never task summary now h =
    returned (on_db (update_task_after_run task.id none summary now) h)
advance_to (runs_at next) task summary now h =
    returned (on_db (update_task_after_run task.id (some next) summary now) h)

unfoldable pub advance_task :
    (Text → ℕ → Option ℕ) → ScheduledTask → Summary → ℕ → SchedulerHost → Progress
unfolding compute_next_run on_db
advance_task cron_next task summary now h =
    advance_to (compute_next_run cron_next now task) task summary now h

-- The branch for a folder name that `resolveGroupFolderPath` rejects.
unfoldable pub reject_folder : ScheduledTask → ℕ → ℕ → SchedulerHost → Progress
unfolding on_db
reject_folder task started now h = returned (
    on_db (log_task_run (failure task started now (invalid_folder task.group_folder)))
      (on_db (update_task task.id (status_update paused)) h))

abbrev pub log_missing : ScheduledTask → ℕ → ℕ → TaskDb → TaskDb
log_missing task started now =
    log_task_run (failure task started now (group_not_found task.group_folder))

abbrev pub on_kind {ℓ} : {A : Type ℓ} → TaskKind → A → A → A
on_kind system gone kept = gone
on_kind user gone kept = kept

-- The branch for a missing group, once the misses are counted.
unfoldable pub group_missed :
    (Text → ℕ → Option ℕ) → ScheduledTask → ℕ → ℕ → ℕ → SchedulerHost → Progress
unfolding advance_task on_db
group_missed cron_next task started now miss_count h =
    if leb max_consecutive_group_missing miss_count
    then on_kind task.kind (returned (on_db (delete_task task.id) h)) (
        advance_task cron_next task (paused_after miss_count) now (
          on_db (log_missing task started now)
            (on_db (update_task task.id (status_update paused)) h)))
    else advance_task cron_next task (group_missing miss_count) now
        (on_db (log_missing task started now) h)

abbrev snapshot_row : ScheduledTask → TaskSnapshot
snapshot_row t = record {
  id = t.id;
  group_folder = t.group_folder;
  chat_jid = t.chat_jid;
  prompt = t.prompt;
  script = t.script;
  schedule_type = t.schedule_type;
  schedule_value = t.schedule_value;
  status = t.status;
  next_run = t.next_run;
  last_run = t.last_run;
  last_result = t.last_result;
  context_mode = t.context_mode;
  consecutive_group_missing = t.consecutive_group_missing;
  kind = t.kind;
}

unfoldable pub clear_streak : ScheduledTask → SchedulerHost → SchedulerHost
unfolding on_db
clear_streak task h =
    if ltb 0 task.consecutive_group_missing
    then on_db (clear_consecutive_group_missing task.id) h
    else h

-- From the group's lookup to `await runAgentForChat`, where the snapshot is written.
unfoldable pub launch : Env → ScheduledTask → SchedulerHost → SchedulerHost
unfolding clear_streak perform
launch env task h =
    let cleared = clear_streak task h in
    let is_default_agent = env.folder_is_default_agent task.group_folder in
    perform
      (run_agent_for_chat (record {
        chat_jid = task.chat_jid;
        group_folder = task.group_folder;
        prompt = task.prompt;
        task_id = task.id;
        is_default_agent = is_default_agent;
        assistant_name = env.agent_name task.chat_jid;
        script = or_null task.script;
      }))
      (perform
        (write_tasks_snapshot task.group_folder is_default_agent
          (map snapshot_row (get_all_tasks cleared.db)))
        cleared)

abbrev pub with_count : Env → ScheduledTask → ℕ → ℕ → SchedulerHost → TaskDb × ℕ → Progress
with_count env task started now h counted =
    group_missed env.cron_next task started now counted.1 (record h { db = counted.0 })

abbrev pub begin_at : Env → ScheduledTask → ℕ → ℕ → SchedulerHost → Option RealPath → Progress
begin_at env task started now h none = reject_folder task started now h
begin_at env task started now h (some group_dir) =
    let made = perform (make_dir group_dir) h in
    if not (env.makes_dir group_dir)
    then threw h
    else if has_group env.registered_groups task.group_folder
    then if env.writes_snapshot task.group_folder
      then running (launch env task made)
      else threw (clear_streak task made)
    else with_count env task started now made (increment_consecutive_group_missing task.id made.db)

-- `runTask` up to `await runAgentForChat`: all of it where the folder is invalid or the group missing.
unfoldable pub run_task : Env → ScheduledTask → ℕ → ℕ → SchedulerHost → Progress
unfolding resolve_group_folder_path has_group reject_folder group_missed launch clear_streak perform
run_task env task started now h =
    begin_at env task started now h (resolve_group_folder_path env.groups_dir task.group_folder)

-- A nullable text counts as absent where it is empty.
abbrev pub some_text : Option Text → Option Text
some_text none = none
some_text (some text) = if same text [] then none else some text

unfoldable pub slice : ℕ → Text → Text
slice n [] = []
slice n (c ∷ s) = elim n [ ℕ.zero ↦ [] | suc m ↦ c ∷ slice m s ]

abbrev result_summary : Option Text → Summary
result_summary none = completed_text
result_summary (some text) = result_text (slice 200 text)

abbrev pub run_summary : Option Text → Option Text → Summary
run_summary none result = result_summary (some_text result)
run_summary (some error) result = error_text error

abbrev is_failed : Option Text → Bool
is_failed none = false
is_failed (some _) = true

abbrev reported : Option Text → Option RunError
reported none = none
reported (some error) = some (agent_error error)

abbrev pub outcome_log : ScheduledTask → ℕ → ℕ → Option Text → Option Text → TaskRunLog
outcome_log task started now result error = record {
  task_id = task.id;
  run_at = now;
  duration_ms = now - started;
  failed = is_failed (some_text error);
  result = result;
  error = reported error;
}

-- `runTask` once the agent has returned or thrown, with its variables `result` and `error`.
unfoldable pub run_task_rest :
    Env → ScheduledTask → ℕ → ℕ → Option Text → Option Text → SchedulerHost → Progress
unfolding advance_task perform on_db slice
run_task_rest env task started now result error h =
    advance_task env.cron_next task (run_summary (some_text error) result) now (
      on_db (log_task_run (outcome_log task started now result error))
        (perform (reap_slot task.chat_jid task.id) h))
