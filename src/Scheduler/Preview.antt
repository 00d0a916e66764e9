-- ===== src/Scheduler/Preview.antt =====
-- src/task-scheduler.ts: what a chat sees of a run that streams its answer.
use nanoclaw_github_copilot.Base.{◌≡◌, false, Option, some, List, [], ◌∷◌}
use nanoclaw_github_copilot.Mounts.Strings.{Text, is_blank}
use nanoclaw_github_copilot.Scheduler.{ScheduledTask}
use nanoclaw_github_copilot.Scheduler.Run.{
  SchedulerEffect, edit_message, task_idle, SchedulerHost, perform,
}
use nanoclaw_github_copilot.Scheduler.Stream.{ContainerOutput, Reply, in_progress, preview}

-- The outputs are previews with a text that is not blank, whatever `sendMessage` would answer to each.
abbrev pub previews : List (Option Text × Text) → List (Option Text × ContainerOutput)
previews [] = []
previews (step ∷ steps) = (step.0, preview step.1) ∷ previews steps

abbrev pub NotBlank : Text → Type 0
NotBlank text = is_blank text ≡ false

abbrev pub edits : ScheduledTask → Text → List (Option Text × Text) → List SchedulerEffect
edits task id [] = []
edits task id (step ∷ steps) =
    edit_message task.chat_jid id (in_progress step.1)
    ∷ task_idle task.chat_jid task.id
    ∷ edits task id steps

-- The queue is told that the task is idle, as after every output with the status `success`.
abbrev idles : ScheduledTask → SchedulerHost → SchedulerHost
idles task h = perform (task_idle task.chat_jid task.id) h

-- The variables of the callback while a message of the given id shows a preview.
abbrev showing : Option Text → Option Text → Text → SchedulerHost → Reply
showing result error id host = record {
  result = result;
  error = error;
  progressive_msg_id = some id;
  host = host;
}
