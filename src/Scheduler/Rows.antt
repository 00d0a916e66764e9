-- ===== src/Scheduler/Rows.antt =====
-- src/db.ts: the tables scheduled_tasks and task_run_logs, with the statements that the scheduler runs.
use nanoclaw_github_copilot.Base.{
  ℕ, suc, String, Bool, true, false, ◌&&◌, Option, none, some, List, [], ◌∷◌, ◌++◌, leb,
  if◌then◌else◌, str_eq, truthy,
}
use nanoclaw_github_copilot.Mounts.Strings.{Text}
use nanoclaw_github_copilot.Scheduler.{
  ScheduleType, TaskStatus, active, completed, Summary, ScheduledTask,
}

-- Why a run failed: the folder's name is invalid, its group is missing, or the agent said so.
pub data RunError : Type 0 where
  invalid_folder group_not_found agent_error : Text → RunError

-- `failed` is the status 'error'.
pub record TaskRunLog : Type 0 where
  pub task_id : String
  pub run_at : ℕ
  pub duration_ms : ℕ
  pub failed : Bool
  pub result : Option Text
  pub error : Option RunError

pub record TaskDb : Type 0 where
  pub scheduled_tasks : List ScheduledTask
  pub task_run_logs : List TaskRunLog

-- `SELECT * FROM scheduled_tasks WHERE id = ?`
unfoldable pub find_task : String → List ScheduledTask → Option ScheduledTask
find_task id [] = none
find_task id (task ∷ tasks) =
    let found = find_task id tasks in if str_eq task.id id then some task else found

unfoldable pub get_task_by_id : String → TaskDb → Option ScheduledTask
unfolding find_task
get_task_by_id id db = find_task id db.scheduled_tasks

-- `UPDATE scheduled_tasks SET … WHERE id = ?`
unfoldable pub update_rows :
    String → (ScheduledTask → ScheduledTask) → List ScheduledTask → List ScheduledTask
update_rows id set [] = []
update_rows id set (task ∷ tasks) =
    let others = update_rows id set tasks in
    if str_eq task.id id then set task ∷ others else task ∷ others

unfoldable pub set_task : String → (ScheduledTask → ScheduledTask) → TaskDb → TaskDb
unfolding update_rows
set_task id set db = record db { scheduled_tasks = update_rows id set db.scheduled_tasks }

-- `text || null`
abbrev pub or_null : Option String → Option String
or_null text = if truthy text then text else none

-- The `Partial` that `updateTask` takes: `none` for a column that it leaves.
pub record TaskUpdates : Type 0 where
  pub prompt : Option String
  pub script : Option (Option String)
  pub schedule_type : Option ScheduleType
  pub schedule_value : Option Text
  pub next_run : Option (Option ℕ)
  pub status : Option TaskStatus
  pub consecutive_group_missing : Option ℕ

abbrev pub given {ℓ} : {A : Type ℓ} → Option A → A → A
given none old = old
given (some new) old = new

abbrev stored_script : Option (Option String) → Option String → Option String
stored_script none old = old
stored_script (some new) old = or_null new

-- The row after `updateTask`.
abbrev pub apply_updates : TaskUpdates → ScheduledTask → ScheduledTask
apply_updates updates task = record task {
  prompt = given updates.prompt task.prompt;
  script = stored_script updates.script task.script;
  schedule_type = given updates.schedule_type task.schedule_type;
  schedule_value = given updates.schedule_value task.schedule_value;
  next_run = given updates.next_run task.next_run;
  status = given updates.status task.status;
  consecutive_group_missing =
      given updates.consecutive_group_missing task.consecutive_group_missing;
}

unfoldable pub update_task : String → TaskUpdates → TaskDb → TaskDb
unfolding set_task
update_task id updates db = set_task id (apply_updates updates) db

abbrev pub status_update : TaskStatus → TaskUpdates
status_update status = record {
  prompt = none;
  script = none;
  schedule_type = none;
  schedule_value = none;
  next_run = none;
  status = some status;
  consecutive_group_missing = none;
}

abbrev or_isolated : String → String
or_isolated mode = if str_eq mode "" then "isolated" else mode

-- `createTask`: the row that it inserts, or `none` where the key is taken and the insertion throws.
unfoldable pub create_task : ScheduledTask → TaskDb → Option TaskDb
unfolding get_task_by_id
create_task task db = elim (get_task_by_id task.id db) [
  | some _ ↦ none
  | none ↦ some (record db {
    scheduled_tasks =
        db.scheduled_tasks
        ++ record task {
          script = or_null task.script;
          context_mode = or_isolated task.context_mode;
          last_run = none;
          last_result = none;
          consecutive_group_missing = 0;
        }
          ∷ [];
  })
]

abbrev missing_of : Option ScheduledTask → ℕ
missing_of none = 0
missing_of (some task) = task.consecutive_group_missing

abbrev pub count_missing : ScheduledTask → ScheduledTask
count_missing task = record task { consecutive_group_missing = suc task.consecutive_group_missing }

-- `incrementConsecutiveGroupMissing`: the new tables, and the count that it returns.
unfoldable pub increment_consecutive_group_missing : String → TaskDb → TaskDb × ℕ
unfolding set_task get_task_by_id
increment_consecutive_group_missing id db =
    let counted = set_task id count_missing db in (counted, missing_of (get_task_by_id id counted))

abbrev pub no_missing : ScheduledTask → ScheduledTask
no_missing task = record task { consecutive_group_missing = 0 }

unfoldable pub clear_consecutive_group_missing : String → TaskDb → TaskDb
unfolding set_task
clear_consecutive_group_missing id db = set_task id no_missing db

unfoldable pub without_task : String → List ScheduledTask → List ScheduledTask
without_task id [] = []
without_task id (task ∷ tasks) =
    let kept = without_task id tasks in if str_eq task.id id then kept else task ∷ kept

unfoldable pub without_logs : String → List TaskRunLog → List TaskRunLog
without_logs id [] = []
without_logs id (log ∷ logs) =
    let kept = without_logs id logs in if str_eq log.task_id id then kept else log ∷ kept

unfoldable pub delete_task : String → TaskDb → TaskDb
unfolding without_task without_logs
delete_task id db = record db {
  task_run_logs = without_logs id db.task_run_logs;
  scheduled_tasks = without_task id db.scheduled_tasks;
}

unfoldable pub log_task_run : TaskRunLog → TaskDb → TaskDb
log_task_run log db = record db { task_run_logs = db.task_run_logs ++ log ∷ [] }

-- `CASE WHEN next_run IS NULL THEN 'completed' ELSE status END`
abbrev status_after : Option ℕ → TaskStatus → TaskStatus
status_after none old = completed
status_after (some next) old = old

abbrev pub after_run : Option ℕ → Summary → ℕ → ScheduledTask → ScheduledTask
after_run next_run last_result now task = record task {
  next_run = next_run;
  last_run = some now;
  last_result = some last_result;
  status = status_after next_run task.status;
}

unfoldable pub update_task_after_run : String → Option ℕ → Summary → ℕ → TaskDb → TaskDb
unfolding set_task
update_task_after_run id next_run last_result now db =
    set_task id (after_run next_run last_result now) db

abbrev pub is_active_status : TaskStatus → Bool
is_active_status active = true
is_active_status _ = false

abbrev reached : ℕ → Option ℕ → Bool
reached now none = false
reached now (some next) = leb next now

-- `status = 'active' AND next_run IS NOT NULL AND next_run <= now`
abbrev pub is_due_row : ℕ → ScheduledTask → Bool
is_due_row now task = is_active_status task.status && reached now task.next_run

abbrev pub instant : Option ℕ → ℕ
instant none = 0
instant (some t) = t

-- The rows in the order of `next_run`; equal ones stay in the order of the table.
unfoldable pub insert_by_next_run : ScheduledTask → List ScheduledTask → List ScheduledTask
insert_by_next_run task [] = task ∷ []
insert_by_next_run task (other ∷ others) =
    let rest = insert_by_next_run task others in
    if leb (instant task.next_run) (instant other.next_run)
    then task ∷ other ∷ others
    else other ∷ rest

unfoldable pub due_rows : ℕ → List ScheduledTask → List ScheduledTask
unfolding insert_by_next_run
due_rows now [] = []
due_rows now (task ∷ tasks) =
    let due = due_rows now tasks in if is_due_row now task then insert_by_next_run task due else due

unfoldable pub get_due_tasks : ℕ → TaskDb → List ScheduledTask
unfolding due_rows
get_due_tasks now db = due_rows now db.scheduled_tasks

-- `ORDER BY created_at DESC`
unfoldable pub insert_by_created : ScheduledTask → List ScheduledTask → List ScheduledTask
insert_by_created task [] = task ∷ []
insert_by_created task (other ∷ others) =
    let rest = insert_by_created task others in
    if leb other.created_at task.created_at then task ∷ other ∷ others else other ∷ rest

unfoldable pub all_rows : List ScheduledTask → List ScheduledTask
unfolding insert_by_created
all_rows [] = []
all_rows (task ∷ tasks) = insert_by_created task (all_rows tasks)

unfoldable pub get_all_tasks : TaskDb → List ScheduledTask
unfolding all_rows
get_all_tasks db = all_rows db.scheduled_tasks
