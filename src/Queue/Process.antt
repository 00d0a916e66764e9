-- ===== src/Queue/Process.antt =====
-- src/group-queue.ts: `registerProcess` and its handler of the process's `exit` event.
use text.Mathlib.Text.{find?}
use nanoclaw_github_copilot.Base.{
  ℕ, String, Bool, true, false, not, ◌&&◌, ◌||◌, Option, none, some, List, [], ◌∷◌, if◌then◌else◌,
  is_some, truthy, ltb, ◌==◌, str_eq,
}
use nanoclaw_github_copilot.Queue.{
  GroupState, IpcFile, message, close, died_without_output, GroupQueue, get_group, peek_slot, store,
  emit,
}
use nanoclaw_github_copilot.Queue.Run.{count_down, drain_group}

abbrev pub update {ℓ} : {A : Type ℓ} → (procs : ℕ → A) (proc : ℕ) (entry : A) (asked : ℕ) → A
update procs proc entry asked = if proc == asked then entry else procs asked

-- `if (groupFolder) state.groupFolder = groupFolder`
unfoldable pub folder_or : Option String → Option String → Option String
folder_or given held = if truthy given then given else held

unfoldable pub registered : ℕ → String → Option String → GroupState → GroupState
unfolding folder_or
registered p name folder s = record s {
  process = some p;
  container_name = some name;
  group_folder = folder_or folder s.group_folder;
}

unfoldable pub register_at :
    String → ℕ → String → Option String → Option GroupState → GroupQueue → GroupQueue
unfolding registered
register_at slot_key p name folder (some s) q = store slot_key (registered p name folder s) q
register_at slot_key p name folder none q =
    if is_some (find? slot_key "::task::")
    then q
    else store slot_key (registered p name folder (get_group q slot_key)) q

-- `registerProcess`. A process for a task slot that is gone is ignored.
unfoldable pub register_process : String → ℕ → String → Option String → GroupQueue → GroupQueue
unfolding register_at
register_process slot_key p name folder q =
    register_at slot_key p name folder (peek_slot q slot_key) q

abbrev pub is_message : IpcFile → Bool
is_message (message _) = true
is_message close = false

-- `readdirSync(inputDir).filter((f) => f.endsWith('.json'))`
unfoldable pub has_messages : String → List (String × IpcFile) → Bool
has_messages folder [] = false
has_messages folder ((at, file) ∷ files) =
    str_eq at folder && is_message file || has_messages folder files

-- `unlinkSync` of each of them.
unfoldable pub unlink_messages : String → List (String × IpcFile) → List (String × IpcFile)
unlink_messages folder [] = []
unlink_messages folder ((at, file) ∷ files) =
    let rest = unlink_messages folder files in
    if str_eq at folder && is_message file then rest else (at, file) ∷ rest

abbrev pub folder_name : Option String → String
folder_name none = ""
folder_name (some f) = f

-- The three cases in which the handler owns the cleanup.
unfoldable pub idle_then_died : GroupState → Bool
idle_then_died s = s.active && s.idle_waiting

unfoldable pub piped_then_died : GroupState → Bool
piped_then_died s = s.active && ltb 0 s.piped_since_output && not s.agent_has_output

unfoldable pub delivered_then_died : GroupState → Bool
delivered_then_died s = s.active && not s.idle_waiting && s.agent_has_output

-- The slot after the handler; `stale` says whether unread message files were found and removed.
unfoldable pub exited : Bool → GroupState → GroupState
exited stale s = record s {
  active = false;
  idle_waiting = false;
  process = none;
  container_name = none;
  group_folder = none;
  in_flight_cursor_rollback = none;
  pending_messages = stale || s.pending_messages;
}

-- The call of `onProcessDiedWithoutOutput`, where a listener is set.
unfoldable pub report_death : Bool → Option ℕ → GroupState → GroupQueue → GroupQueue
unfolding delivered_then_died
report_death listener code s q =
    let in_flight = ltb 0 s.piped_since_output && not s.agent_has_output in
    if listener && (in_flight || delivered_then_died s)
    then emit
        (died_without_output s.chat_jid (if in_flight then s.in_flight_cursor_rollback else none)
          code)
        q
    else q

-- The body of the handler once it acts: release the slot, report, drain.
unfoldable pub release_exited :
    ℕ → String → Bool → Bool → Option ℕ → GroupState → GroupQueue → GroupQueue
unfolding has_messages unlink_messages exited count_down report_death
release_exited limit slot_key listener fs_ok code s q =
    let folder = folder_name s.group_folder in
    let reads = truthy s.group_folder && fs_ok in
    let stale = reads && has_messages folder q.ipc in
    let files = if reads then unlink_messages folder q.ipc else q.ipc in
    drain_group limit s.chat_jid (
      report_death listener code s
        (count_down (store slot_key (exited stale s) (record q { ipc = files }))))

-- The guard of the handler.
unfoldable pub owns_exit : GroupState → Bool
unfolding idle_then_died piped_then_died delivered_then_died
owns_exit s = idle_then_died s || piped_then_died s || delivered_then_died s

unfoldable pub exit_owned :
    ℕ → String → Bool → Bool → Option ℕ → GroupState → GroupQueue → GroupQueue
unfolding owns_exit release_exited
exit_owned limit slot_key listener fs_ok code s q =
    if owns_exit s then release_exited limit slot_key listener fs_ok code s q else q

-- The handler acts on the object that `registerProcess` found. It is still in the map if the serial
-- number agrees; otherwise it is a task slot that `runTask` dropped, which is inactive.
unfoldable pub exit_held :
    ℕ → String → ℕ → Bool → Bool → Option ℕ → Option GroupState → GroupQueue → GroupQueue
unfolding exit_owned
exit_held limit slot_key serial listener fs_ok code none q = q
exit_held limit slot_key serial listener fs_ok code (some s) q =
    if s.serial == serial then exit_owned limit slot_key listener fs_ok code s q else q

-- `proc.on('exit', …)`. A process that a signal ended has no exit code.
unfoldable pub process_exit : ℕ → String → ℕ → ℕ → Bool → Bool → Option ℕ → GroupQueue → GroupQueue
unfolding exit_held
process_exit limit slot_key serial p listener fs_ok code q =
    exit_held limit slot_key serial listener fs_ok code (peek_slot q slot_key)
      (record q { procs = update q.procs p (record (q.procs p) { exit_code = code }) })
