-- ===== src/Queue.antt =====
-- src/group-queue.ts: the records of `GroupQueue` and the accessors of its slots.
-- The queue is read after `setProcessMessagesFn`, so `processMessagesFn` is not null. What the
-- class asks of its surroundings (an agent run, a timer, a signal) is appended to `effects`; the
-- time that passes before a run or a process ends is the time between two calls of the model.
pub mod Run
pub mod Enqueue
pub mod Pipe
pub mod Process
pub mod Shutdown
pub mod Events
pub mod Accounting
pub mod Lines
pub mod Delivery
pub mod Retry
pub mod Tasks
pub mod Kill
pub mod Tests
use Prim.Native.String
use nanoclaw_github_copilot.Base.{
  ℕ, suc, String, Bool, true, false, Option, none, some, List, [], ◌∷◌, ◌++◌, ℤ, pos, lookup,
  insert, is_some, if◌then◌else◌,
}

-- `fn`, the task's closure, is known by a number.
pub record QueuedTask : Type 0 where
  pub id : String
  pub group_jid : String
  pub fn : ℕ

-- `serial` tells one `GroupState` object from another that a later call made under the same key.
pub record GroupState : Type 0 where
  pub serial : ℕ
  pub chat_jid : String
  pub task_id : Option String
  pub active : Bool
  pub idle_waiting : Bool
  pub is_task_container : Bool
  pub running_task_id : Option String
  pub pending_messages : Bool
  pub pending_tasks : List QueuedTask
  pub process : Option ℕ
  pub container_name : Option String
  pub group_folder : Option String
  pub retry_count : ℕ
  pub piped_since_output : ℕ
  pub agent_has_output : Bool
  pub in_flight_cursor_rollback : Option String
  pub current_turn_start_cursor : Option String
  pub current_turn_text : Option String
  pub user_turn_seq : ℕ

-- The fields of Node's `ChildProcess` that the class reads.
pub record ChildProcess : Type 0 where
  pub pid : Option ℕ
  pub exit_code : Option ℕ
  pub killed : Bool

-- A file in the `input` directory of a group folder: a `.json` message, or `_close`.
pub data IpcFile : Type 0 where
  message : String → IpcFile
  close : IpcFile

pub data Signal : Type 0 where
  sigterm sigkill : Signal

pub data Effect : Type 0 where
  process_messages : String → Effect
  pipe_messages : String → Effect
  run_task_fn : String → QueuedTask → Effect
  retry_timer : String → ℕ → Effect
  kill_timer : ℕ → Effect
  died_without_output : String → Option String → Option ℕ → Effect
  signal_process : ℕ → Signal → Effect
  signal_tree : ℕ → Signal → Effect
  docker_kill : String → Effect

pub record GroupQueue : Type 0 where
  pub slots : List (String × GroupState)
  pub active_count : ℤ
  pub waiting_slots : List String
  pub waiting_task_fns : List (String × QueuedTask)
  pub shutting_down : Bool
  pub next_serial : ℕ
  pub procs : ℕ → ChildProcess
  pub ipc : List (String × IpcFile)
  pub effects : List Effect

pub no_process : ChildProcess
no_process = record { pid = none; exit_code = none; killed = false }

-- A new `GroupQueue`.
unfoldable pub init : GroupQueue
unfolding no_process
init = record {
  slots = [];
  active_count = pos 0;
  waiting_slots = [];
  waiting_task_fns = [];
  shutting_down = false;
  next_serial = 0;
  procs = λ _. no_process;
  ipc = [];
  effects = [];
}

-- `${groupJid}::task::${taskId}`
unfoldable pub task_slot_key : String → String → String
task_slot_key group_jid task_id = String.◌++◌ group_jid (String.◌++◌ "::task::" task_id)

-- The object that `getSlot` makes for an unknown key.
unfoldable pub fresh_slot : ℕ → String → Option String → GroupState
fresh_slot serial chat_jid task_id = record {
  serial = serial;
  chat_jid = chat_jid;
  task_id = task_id;
  active = false;
  idle_waiting = false;
  is_task_container = is_some task_id;
  running_task_id = task_id;
  pending_messages = false;
  pending_tasks = [];
  process = none;
  container_name = none;
  group_folder = none;
  retry_count = 0;
  piped_since_output = 0;
  agent_has_output = false;
  in_flight_cursor_rollback = none;
  current_turn_start_cursor = none;
  current_turn_text = none;
  user_turn_seq = 0;
}

abbrev pub or_fresh : ℕ → String → Option String → Option GroupState → GroupState
or_fresh serial chat_jid task_id none = fresh_slot serial chat_jid task_id
or_fresh serial chat_jid task_id (some s) = s

-- `getSlot`: what it returns. The entry that it may add is added by the `store` of each caller.
unfoldable pub get_slot : GroupQueue → String → String → Option String → GroupState
get_slot q slot_key chat_jid task_id =
    or_fresh q.next_serial chat_jid task_id (lookup slot_key q.slots)

unfoldable pub get_group : GroupQueue → String → GroupState
unfolding get_slot
get_group q group_jid = get_slot q group_jid group_jid none

unfoldable pub peek_slot : GroupQueue → String → Option GroupState
peek_slot q slot_key = lookup slot_key q.slots

-- The slot under a key after its fields were written, or after `getSlot` made it.
unfoldable pub store : String → GroupState → GroupQueue → GroupQueue
store slot_key s q = record q {
  slots = insert slot_key s q.slots;
  next_serial = if is_some (lookup slot_key q.slots) then q.next_serial else suc q.next_serial;
}

unfoldable pub emit : Effect → GroupQueue → GroupQueue
emit e q = record q { effects = q.effects ++ e ∷ [] }
