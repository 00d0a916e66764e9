-- ===== src/Scheduler/Found.antt =====
-- src/db.ts: the row of a task after the statements of the scheduler.
use nanoclaw_github_copilot.Base.{
  suc, ◌≡◌, refl, String, Option, none, some, List, [], ◌∷◌, arith, if◌then◌else◌, str_eq, eq_iff,
  eq_refl,
}
use nanoclaw_github_copilot.Scheduler.{ScheduledTask}
use nanoclaw_github_copilot.Scheduler.Rows.{
  TaskDb, TaskRunLog, find_task, get_task_by_id, update_rows, set_task, log_task_run, without_task,
  delete_task, count_missing, increment_consecutive_group_missing,
}

abbrev pub apply {ℓ} : {A : Type ℓ} → (A → A) → Option A → Option A
apply f none = none
apply f (some a) = some (f a)

pub find_task-update_rows :
    (id get : String) (set : ScheduledTask → ScheduledTask) (rows : List ScheduledTask)
    → ((t : ScheduledTask) → (set t).id ≡ t.id)
    → find_task get (update_rows id set rows)
      ≡ (if str_eq id get then apply set (find_task get rows) else find_task get rows)
unfolding find_task update_rows
find_task-update_rows id get set [] k = ground arith
find_task-update_rows id get set (row ∷ rows) k = ground (
  arith,
  eq_iff row.id id,
  eq_iff row.id get,
  eq_iff id get,
  k row,
  find_task-update_rows id get set rows k,
)

pub find_task-without_task :
    (id get : String) (rows : List ScheduledTask)
    → find_task get (without_task id rows) ≡ (if str_eq id get then none else find_task get rows)
unfolding find_task without_task
find_task-without_task id get [] = ground arith
find_task-without_task id get (row ∷ rows) =
    ground (
      arith,
      eq_iff row.id id,
      eq_iff row.id get,
      eq_iff id get,
      find_task-without_task id get rows,
    )

pub find_task-id :
    (id : String) (rows : List ScheduledTask) (task : ScheduledTask)
    → find_task id rows ≡ some task
    → task.id ≡ id
unfolding find_task
find_task-id id [] task h = absurd (cc h)
find_task-id id (row ∷ rows) task h = ground (arith, h, eq_iff row.id id, find_task-id id rows task)

pub set_task_row :
    (id get : String) (set : ScheduledTask → ScheduledTask) (db : TaskDb)
    → ((t : ScheduledTask) → (set t).id ≡ t.id)
    → get_task_by_id get (set_task id set db)
      ≡ (if str_eq id get then apply set (get_task_by_id get db) else get_task_by_id get db)
unfolding set_task get_task_by_id
set_task_row id get set db k = find_task-update_rows id get set db.scheduled_tasks k

pub own_row :
    (id : String) (set : ScheduledTask → ScheduledTask) (db : TaskDb) (task : ScheduledTask)
    → ((t : ScheduledTask) → (set t).id ≡ t.id)
    → get_task_by_id id db ≡ some task
    → get_task_by_id id (set_task id set db) ≡ some (set task)
own_row id set db task k r = ground (arith, set_task_row id id set db k, eq_refl id, r)

pub log_row :
    (get : String) (log : TaskRunLog) (db : TaskDb)
    → get_task_by_id get (log_task_run log db) ≡ get_task_by_id get db
unfolding log_task_run get_task_by_id
log_row get log db = refl

pub delete_task_row :
    (id get : String) (db : TaskDb)
    → get_task_by_id get (delete_task id db)
      ≡ (if str_eq id get then none else get_task_by_id get db)
unfolding get_task_by_id delete_task
delete_task_row id get db = find_task-without_task id get db.scheduled_tasks

pub gone_row : (id : String) (db : TaskDb) → get_task_by_id id (delete_task id db) ≡ none
unfolding get_task_by_id delete_task
gone_row id db = ground (arith, find_task-without_task id id db.scheduled_tasks, eq_refl id)

pub missing_of-count :
    (id : String) (db : TaskDb) (row : ScheduledTask)
    → get_task_by_id id db ≡ some row
    → (get_task_by_id id (increment_consecutive_group_missing id db).0 ≡ some (count_missing row))
      × ((increment_consecutive_group_missing id db).1 ≡ suc row.consecutive_group_missing)
unfolding increment_consecutive_group_missing
missing_of-count id db row r =
    let counted = own_row id count_missing db row (λ t. refl) r in
    (counted, ground (arith, counted))

pub row-id :
    (id : String) (db : TaskDb) (task : ScheduledTask)
    → get_task_by_id id db ≡ some task
    → task.id ≡ id
unfolding get_task_by_id
row-id id db task e = find_task-id id db.scheduled_tasks task e
