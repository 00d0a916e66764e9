-- ===== src/Scheduler.antt =====
-- src/task-scheduler.ts: a task as src/types-extensions.ts declares it, and `computeNextRun`.
-- Instants are milliseconds since the epoch, which order as the ISO texts of the rows do. A text that the
-- code reads character by character is a list of characters; a text that it only formats for the log is
-- a constructor with the values it shows. Numbers of `parseInt` are taken to be exact. `cron_next` stands for
-- cron-parser: the first instant of the pattern after the given one, or `none` where it throws. Instants lie in the
-- range of `Date`, past which `toISOString` throws.
pub mod Rows
pub mod Run
pub mod Stream
pub mod Preview
pub mod Poll
pub mod Advance
pub mod Due
pub mod Found
pub mod Missing
pub mod Kept
pub mod Overlap
pub mod Tests
use nanoclaw_github_copilot.Base.{
  ℕ, zero, suc, ◌+◌, ◌-◌, ◌*◌, String, Bool, true, false, ◌&&◌, Option, none, some, [], ◌∷◌, ℤ, pos,
  negsuc, leb, ◌==◌, if◌then◌else◌,
}
use nanoclaw_github_copilot.Mounts.Strings.{Text}
use nanoclaw_github_copilot.Gate.{trim_start}

pub data ScheduleType : Type 0 where
  cron interval once : ScheduleType

pub data TaskStatus : Type 0 where
  active paused completed : TaskStatus

pub data TaskKind : Type 0 where
  user system : TaskKind

-- What a run reports about a task: the `resultSummary` of its end, or that its group was missing.
pub data Summary : Type 0 where
  paused_after group_missing : ℕ → Summary
  error_text result_text : Text → Summary
  completed_text : Summary

pub record ScheduledTask : Type 0 where
  pub id : String
  pub group_folder : Text
  pub chat_jid : String
  pub prompt : String
  pub script : Option String
  pub schedule_type : ScheduleType
  pub schedule_value : Text
  pub context_mode : String
  pub kind : TaskKind
  pub next_run : Option ℕ
  pub last_run : Option ℕ
  pub last_result : Option Summary
  pub status : TaskStatus
  pub created_at : ℕ
  pub consecutive_group_missing : ℕ

abbrev pub is_digit_char : ℕ → Bool
is_digit_char c = leb b'0' c && leb c b'9'

-- The number that the leading digits spell.
unfoldable pub digits : ℕ → Text → ℕ
digits acc [] = acc
digits acc (c ∷ s) =
    let rest = digits (acc * 10 + (c - b'0')) s in if is_digit_char c then rest else acc

unfoldable pub parse_digits : Text → Option ℕ
unfolding digits
parse_digits [] = none
parse_digits (c ∷ s) = if is_digit_char c then some (digits 0 (c ∷ s)) else none

abbrev negated : Option ℕ → Option ℤ
negated none = none
negated (some zero) = some (pos 0)
negated (some (suc n)) = some (negsuc n)

abbrev unsigned : Option ℕ → Option ℤ
unsigned none = none
unsigned (some n) = some (pos n)

abbrev pub parse_signed : Text → Option ℤ
parse_signed [] = none
parse_signed (c ∷ s) =
    if c == b'-'
    then negated (parse_digits s)
    else if c == b'+'
    then unsigned (parse_digits s)
    else unsigned (parse_digits (c ∷ s))

-- `parseInt(value, 10)`
unfoldable pub parse_int : Text → Option ℤ
unfolding parse_digits
parse_int value = parse_signed (trim_start value)

-- `!ms || ms <= 0`
abbrev pub usable : Option ℤ → Option ℕ
usable (some (pos (suc n))) = some (suc n)
usable _ = none

pub data NextRun : Type 0 where
  runs_at : ℕ → NextRun
  never raised stuck : NextRun

abbrev pub or_stuck : Option ℕ → NextRun
or_stuck none = stuck
or_stuck (some t) = runs_at t

abbrev pub or_raised : Option ℕ → NextRun
or_raised none = raised
or_raised (some t) = runs_at t

-- `new Date(task.next_run!).getTime()`, which is 0 for null
abbrev pub or_epoch : Option ℕ → ℕ
or_epoch none = 0
or_epoch (some t) = t

-- `while (next <= now) next += ms`; `none` if the loop still runs when the fuel is used up.
unfoldable pub catch_up : ℕ → ℕ → ℕ → ℕ → Option ℕ
catch_up zero now ms next = none
catch_up (suc fuel) now ms next = elim (leb next now) [
  | true ↦ catch_up fuel now ms (next + ms)
  | false ↦ some next
]

abbrev pub after_interval : ℕ → Option ℕ → ℕ → NextRun
after_interval now none anchor = runs_at (now + 60000)
after_interval now (some ms) anchor = or_stuck (catch_up (suc now) now ms (anchor + ms))

abbrev next_run_of : (Text → ℕ → Option ℕ) → ℕ → ScheduleType → ScheduledTask → NextRun
next_run_of cron_next now once task = never
next_run_of cron_next now cron task = or_raised (cron_next task.schedule_value now)
next_run_of cron_next now interval task =
    after_interval now (usable (parse_int task.schedule_value)) (or_epoch task.next_run)

-- `computeNextRun`
unfoldable pub compute_next_run : (Text → ℕ → Option ℕ) → ℕ → ScheduledTask → NextRun
unfolding catch_up
compute_next_run cron_next now task = next_run_of cron_next now task.schedule_type task
