-- ===== src/Scheduler/Stream.antt =====
-- src/task-scheduler.ts: the callback of `runTask` on what the agent streams, and the variables that its end
-- reads. A channel's `sendMessage` answers a message id or nothing; a call that throws is not modelled.
use nanoclaw_github_copilot.Base.{
  ℕ, Bool, true, false, Option, none, some, List, [], ◌∷◌, ◌++◌, if◌then◌else◌,
}
use nanoclaw_github_copilot.Mounts.Strings.{Text, same, is_blank}
use nanoclaw_github_copilot.Scheduler.{ScheduledTask}
use nanoclaw_github_copilot.Scheduler.Run.{
  SchedulerEffect, send_text, edit_message, task_idle, SchedulerHost, perform, some_text, Env,
  Progress, run_task_rest,
}

pub data OutputStatus : Type 0 where
  success error other : OutputStatus

pub record ContainerOutput : Type 0 where
  pub status : OutputStatus
  pub result : Option Text
  pub partial : Bool
  pub error : Option Text

-- The variables that the callback writes.
pub record Reply : Type 0 where
  pub result : Option Text
  pub error : Option Text
  pub progressive_msg_id : Option Text
  pub host : SchedulerHost

abbrev pub unknown_error : Text
unknown_error =
    b'U' ∷ b'n' ∷ b'k' ∷ b'n' ∷ b'o' ∷ b'w' ∷ b'n' ∷ b' ' ∷ b'e' ∷ b'r' ∷ b'r' ∷ b'o' ∷ b'r' ∷ []

-- `${text} ◌`
abbrev pub in_progress : Text → Text
in_progress text = text ++ b' ' ∷ 9676 ∷ []

abbrev pub or_unknown : Option Text → Text
or_unknown none = unknown_error
or_unknown (some text) = if same text [] then unknown_error else text

abbrev edit_or_send : ScheduledTask → Text → Option Text → SchedulerEffect
edit_or_send task text none = send_text task.chat_jid text
edit_or_send task text (some id) = edit_message task.chat_jid id text

abbrev kept_id : Option Text → Option Text → Option Text
kept_id none sent = sent
kept_id (some id) sent = some id

-- The message id while `editMessage` exists: without it, the end of a preview does not clear it.
abbrev cleared_id : Bool → Option Text → Option Text
cleared_id can_edit id = if can_edit then none else id

abbrev editable : Bool → Option Text → Option Text
editable can_edit id = if can_edit then id else none

-- A text that the agent reports, where `sent` is what `sendMessage` would answer.
unfoldable pub forward : Bool → Option Text → ScheduledTask → Bool → Text → Reply → Reply
unfolding is_blank perform
forward can_edit sent task partial text reply =
    let id = some_text reply.progressive_msg_id in
    if is_blank text
    then reply
    else if (if partial then can_edit else false)
    then record reply {
      progressive_msg_id = kept_id id sent;
      host = perform (edit_or_send task (in_progress text) id) reply.host;
    }
    else record reply {
      progressive_msg_id = cleared_id can_edit id;
      host = perform (edit_or_send task text (editable can_edit id)) reply.host;
    }

unfoldable pub forward_result :
    Bool → Option Text → ScheduledTask → Bool → Option Text → Reply → Reply
unfolding forward
forward_result can_edit sent task partial none reply = reply
forward_result can_edit sent task partial (some text) reply =
    forward can_edit sent task partial text (record reply { result = some text })

unfoldable pub note_status : ScheduledTask → OutputStatus → Option Text → Reply → Reply
unfolding perform
note_status task success message reply = record reply {
  host = perform (task_idle task.chat_jid task.id) reply.host;
}
note_status task error message reply = record reply { error = some (or_unknown message) }
note_status task other message reply = reply

-- The callback on one output.
unfoldable pub on_output : Bool → Option Text → ScheduledTask → ContainerOutput → Reply → Reply
unfolding forward_result note_status
on_output can_edit sent task output reply =
    note_status task output.status output.error
      (forward_result can_edit sent task output.partial (some_text output.result) reply)

unfoldable pub on_outputs :
    Bool → ScheduledTask → List (Option Text × ContainerOutput) → Reply → Reply
unfolding on_output
on_outputs can_edit task [] reply = reply
on_outputs can_edit task (step ∷ steps) reply =
    on_outputs can_edit task steps (on_output can_edit step.0 task step.1 reply)

-- How `await runAgentForChat` ends.
pub data AgentEnd : Type 0 where
  answered : ContainerOutput → AgentEnd
  failed : Text → AgentEnd

abbrev or_kept : Option Text → Option Text → Option Text
or_kept none old = old
or_kept (some new) old = some new

abbrev settle_output : OutputStatus → ContainerOutput → Reply → Reply
settle_output error output reply = record reply { error = some (or_unknown output.error) }
settle_output _ output reply = record reply {
  result = or_kept (some_text output.result) reply.result;
}

unfoldable pub settle_end : AgentEnd → Reply → Reply
settle_end (failed message) reply = record reply { error = some message }
settle_end (answered output) reply = settle_output output.status output reply

-- The rest of `runTask`, from what the callback left and how the agent ended.
unfoldable pub finish_reply : Env → ScheduledTask → ℕ → ℕ → AgentEnd → Reply → Progress
unfolding settle_end run_task_rest
finish_reply env task started now agent_end reply =
    let settled = settle_end agent_end reply in
    run_task_rest env task started now settled.result settled.error settled.host

-- What the runner writes for a text that is not the last one, and for the last one.
abbrev pub preview : Text → ContainerOutput
preview text = record { status = success; result = some text; partial = true; error = none }

abbrev pub final : Text → ContainerOutput
final text = record { status = success; result = some text; partial = false; error = none }
