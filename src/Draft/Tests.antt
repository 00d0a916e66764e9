-- ===== src/Draft/Tests.antt =====
-- src/progress-draft.ts: runs and witnesses.
use nanoclaw_github_copilot.Base.{
  ℕ, ◌≡◌, refl, ◌≤◌, String, true, none, some, [], ◌∷◌, ◌++◌, length, min, max,
}
use nanoclaw_github_copilot.Mounts.Strings.{Text, same}
use nanoclaw_github_copilot.Draft.{
  ToolLine, Options, explain, edit_in_place, keep_lines, visible_lines, render_draft_text, rendered,
  render_progress_line, truncate, join_lines,
}
use nanoclaw_github_copilot.Draft.Session.{
  DraftSession, new_session, tool_start, tool_done, progress, timer, edit_settled, finish, new_line,
  open_draft_now, schedule_open, has_line, refresh, open_gate, apply_event, apply_progress,
  finalize, abandon, step, run,
}
use nanoclaw_github_copilot.Draft.Visible.{running, visible_lines-running}
use nanoclaw_github_copilot.Draft.Silent.{run-abandon}
use nanoclaw_github_copilot.Draft.Once.{count_sends, run-one_send}
use nanoclaw_github_copilot.Draft.Final.{IsOpen, finalize-last}

abbrev call_1 : String
call_1 = "call-1"

abbrev call_2 : String
call_2 = "call-2"

abbrev call_3 : String
call_3 = "call-3"

abbrev msg : String
msg = "msg"

abbrev opts : Options
opts = record {
  label = none;
  initial_delay_ms = 5000;
  max_lines = 2;
  max_line_chars = 120;
  detail = explain;
  finalize_policy = edit_in_place;
}

abbrev bash : Text
bash = b'B' ∷ []

abbrev no_summary : ℕ → ℕ → Text
no_summary done failed = []

abbrev running_line : String → ToolLine
running_line id = new_line id bash bash none

abbrev done : ToolLine
done = record (new_line call_2 bash bash none) { success = some true }

-- Two tools start, the draft is sent, and the turn ends.
abbrev open_session : DraftSession
open_session = record new_session { draft_msg_id = some msg; last_sent = some bash }

visible :
    visible_lines 2 (running_line call_1 ∷ done ∷ running_line call_3 ∷ [])
    ≡ running_line call_1 ∷ running_line call_3 ∷ []
unfolding visible_lines keep_lines
visible = refl

-- A third tool that starts while the draft is being sent sends a second one.
two_drafts :
    length
      (run no_summary opts
        (progress (tool_start call_1 bash bash none)
          ∷ progress (tool_start call_2 bash bash none)
          ∷ progress (tool_start call_3 bash bash none)
          ∷ [])
        new_session).attempts
    ≡ 2
unfolding run step apply_progress apply_event open_gate schedule_open open_draft_now refresh
    has_line render_draft_text rendered render_progress_line truncate join_lines visible_lines
    keep_lines same new_session
two_drafts = refl

visible_lines-running_example :
    (running (visible_lines 2 (running_line call_1 ∷ done ∷ running_line call_3 ∷ []))
      ≡ running (running_line call_1 ∷ done ∷ running_line call_3 ∷ []))
    × (length (visible_lines 2 (running_line call_1 ∷ done ∷ running_line call_3 ∷ []))
        ≡ max (min 2 3) 2)
    × (3 ≤ 2
        → visible_lines 2 (running_line call_1 ∷ done ∷ running_line call_3 ∷ [])
          ≡ running_line call_1 ∷ done ∷ running_line call_3 ∷ [])
visible_lines-running_example =
    visible_lines-running 2 (running_line call_1 ∷ done ∷ running_line call_3 ∷ [])

run-abandon_example :
    (run no_summary opts (timer ∷ finish bash ∷ []) (abandon open_session)).wire ≡ open_session.wire
run-abandon_example = run-abandon no_summary opts (timer ∷ finish bash ∷ []) open_session

open_session-IsOpen : IsOpen msg open_session
unfolding new_session
open_session-IsOpen = (refl, refl, refl, refl)

finalize-last_example :
    (run no_summary opts
      ((timer ∷ progress (tool_done call_1 true none) ∷ [])
        ++ edit_settled true ∷ edit_settled true ∷ [])
      (finalize no_summary opts (b'o' ∷ b'k' ∷ []) open_session)).last_sent
    ≡ some (b'o' ∷ b'k' ∷ [])
finalize-last_example =
    finalize-last no_summary opts msg (b'o' ∷ b'k' ∷ [])
      (timer ∷ progress (tool_done call_1 true none) ∷ []) open_session refl open_session-IsOpen
      (tt, (tt, tt))

run-one_send_example :
    count_sends
      (run no_summary opts
        (progress (tool_start call_1 bash bash none) ∷ timer ∷ [])
        new_session).wire
    ≤ 1
unfolding new_session step apply_progress apply_event open_gate schedule_open refresh has_line
run-one_send_example =
    run-one_send no_summary opts (progress (tool_start call_1 bash bash none) ∷ timer ∷ [])
      (refl, (refl, tt))
