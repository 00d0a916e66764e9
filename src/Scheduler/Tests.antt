-- ===== src/Scheduler/Tests.antt =====
-- src/task-scheduler.ts: runs and witnesses.
use nanoclaw_github_copilot.Base.{
  ℕ, ◌+◌, ◌≡◌, refl, String, true, false, none, some, [], ◌∷◌, arith,
}
use nanoclaw_github_copilot.Mounts.Strings.{
  Text, same, starts_with, contains, split, split_first, split_rest, relative, climb,
  render_relative, render_tail,
}
use nanoclaw_github_copilot.Gate.{trim, trim_start, trim_end, to_lower_case}
use nanoclaw_github_copilot.Names.{
  is_valid_group_folder, matches_folder_pattern, all_folder_chars, enter, walk, resolve_path,
  within_base, resolve_group_folder_path,
}
use nanoclaw_github_copilot.Queue.{init}
use nanoclaw_github_copilot.Scheduler.{
  interval, once, active, paused, user, group_missing, paused_after, ScheduledTask, runs_at, never,
  parse_int, parse_digits, digits, usable, catch_up, compute_next_run,
}
use nanoclaw_github_copilot.Scheduler.Advance.{IsNext, compute_next_run-IsNext}
use nanoclaw_github_copilot.Scheduler.Rows.{
  find_task, get_task_by_id, update_rows, set_task, update_task,
  increment_consecutive_group_missing, update_task_after_run, log_task_run,
}
use nanoclaw_github_copilot.Scheduler.Run.{
  SchedulerHost, Env, perform, on_db, advance_task, has_group, group_missed, run_task,
  run_task_rest,
}
use nanoclaw_github_copilot.Scheduler.Poll.{poll}
use nanoclaw_github_copilot.Scheduler.Missing.{host_of, visit, visits, IsStopped, visits-IsStopped}
use nanoclaw_github_copilot.Scheduler.Kept.{IsSameTask, user_task_kept}
use nanoclaw_github_copilot.Scheduler.Overlap.{poll_idem}

abbrev digest_id : String
digest_id = "digest"

-- `team`
abbrev team : Text
team = b't' ∷ b'e' ∷ b'a' ∷ b'm' ∷ []

-- Every ten milliseconds, due at 100.
abbrev digest : ScheduledTask
digest = record {
  id = digest_id;
  group_folder = team;
  chat_jid = "chat";
  prompt = "sum up";
  script = none;
  schedule_type = interval;
  schedule_value = b' ' ∷ b'1' ∷ b'0' ∷ b'm' ∷ [];
  context_mode = "isolated";
  kind = user;
  next_run = some 100;
  last_run = none;
  last_result = none;
  status = active;
  created_at = 1;
  consecutive_group_missing = 0;
}

abbrev host : SchedulerHost
host = record { db = record { scheduled_tasks = digest ∷ []; task_run_logs = [] }; effects = [] }

-- No group is registered.
abbrev deserted : Env
deserted = record {
  groups_dir = (b'g' ∷ []) ∷ [];
  registered_groups = [];
  folder_is_default_agent = λ _. false;
  agent_name = λ _. "Andy";
  cron_next = λ _ now. some (now + 1);
  makes_dir = λ _. true;
  writes_snapshot = λ _. true;
}

next_runs :
    (compute_next_run deserted.cron_next 134 digest ≡ runs_at 140)
    × (compute_next_run deserted.cron_next 105 digest ≡ runs_at 110)
    × (compute_next_run deserted.cron_next 140 digest ≡ runs_at 150)
    × (compute_next_run deserted.cron_next 140 (record digest { schedule_type = once }) ≡ never)
    × (compute_next_run deserted.cron_next 140 (record digest { schedule_value = b'-' ∷ b'1' ∷ [] })
        ≡ runs_at 60140)
unfolding compute_next_run catch_up parse_int parse_digits digits trim_start
next_runs = (refl, refl, refl, refl, refl)

-- Two ticks without the group, then a third.
three_ticks :
    (get_task_by_id digest_id (visits deserted digest_id (105 ∷ 112 ∷ []) host).db
      ≡ some (record digest {
        next_run = some 120;
        last_run = some 112;
        last_result = some (group_missing 2);
        consecutive_group_missing = 2;
      }))
    × (get_task_by_id digest_id (visits deserted digest_id (105 ∷ 112 ∷ 121 ∷ []) host).db
        ≡ some (record digest {
          next_run = some 130;
          last_run = some 121;
          last_result = some (paused_after 3);
          consecutive_group_missing = 3;
          status = paused;
        }))
unfolding visits visit run_task get_task_by_id find_task update_rows set_task update_task
    increment_consecutive_group_missing update_task_after_run log_task_run perform on_db
    advance_task has_group group_missed compute_next_run catch_up parse_int parse_digits digits
    trim_start resolve_group_folder_path is_valid_group_folder matches_folder_pattern
    all_folder_chars same contains trim trim_end to_lower_case resolve_path walk enter within_base
    relative climb render_relative render_tail split split_first split_rest starts_with
three_ticks = (refl, refl)

digest_interval : usable (parse_int digest.schedule_value) ≡ some 10
unfolding parse_int parse_digits digits trim_start
digest_interval = refl

compute_next_run-IsNext_example :
    (t : ℕ) × (compute_next_run deserted.cron_next 134 digest ≡ runs_at t) × IsNext 134 10 110 t
compute_next_run-IsNext_example =
    compute_next_run-IsNext deserted.cron_next 134 10 digest refl digest_interval

digest_found : get_task_by_id digest_id host.db ≡ some digest
unfolding get_task_by_id find_task
digest_found = refl

digest_deserted : has_group deserted.registered_groups digest.group_folder ≡ false
unfolding has_group
digest_deserted = refl

visits-IsStopped_example :
    IsStopped (get_task_by_id digest_id (visits deserted digest_id (105 ∷ 112 ∷ 121 ∷ []) host).db)
visits-IsStopped_example =
    visits-IsStopped deserted digest_id (105 ∷ 112 ∷ 121 ∷ []) digest host digest_found
      digest_deserted (λ _. refl) (omega arith)

user_task_kept_example :
    IsSameTask digest (get_task_by_id digest_id (visit deserted digest_id 105 host).db)
    × IsSameTask digest (
        get_task_by_id digest_id
          (host_of (run_task_rest deserted digest 100 105 none (some team) host)).db)
user_task_kept_example =
    user_task_kept deserted digest_id digest_id 105 100 digest digest none (some team) host
      digest_found refl

poll_idem_example :
    poll 2
      (λ _. 8)
      (λ _. some digest)
      105
      host.db
      (poll 2 (λ _. 7) (λ _. some digest) 105 host.db init)
    ≡ poll 2 (λ _. 7) (λ _. some digest) 105 host.db init
poll_idem_example = poll_idem 2 105 (λ _. some digest) (λ _. 7) (λ _. 8) host.db init
