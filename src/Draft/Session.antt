-- ===== src/Draft/Session.antt =====
-- src/progress-draft.ts: `createProgressDraftSession`. Its calls, the end of a timer and the end of a send or an edit
-- of the transport are steps, which any order may run. `attempts` holds the sends that are under way; a call of
-- `finalize` that awaits the last of them is in `finalizing`. The
-- transport never gives a message the empty text as its id.
use nanoclaw_github_copilot.Base.{
  ℕ, zero, suc, String, Bool, true, false, not, ◌&&◌, ◌||◌, Option, none, some, is_some, List, [],
  ◌∷◌, ◌++◌, leb, ◌==◌, if◌then◌else◌, str_eq,
}
use nanoclaw_github_copilot.Mounts.Strings.{Text, same}
use nanoclaw_github_copilot.Draft.{
  ToolLine, ProgressFinalizePolicy, edit_in_place, release, Options, truncate, or_nothing,
  render_draft_text, build_release_text,
}

-- `error` has its white space joined and trimmed.
pub data ProgressEvent : Type 0 where
  tool_start : String → Text → Text → Option Text → ProgressEvent
  tool_progress : String → Text → ProgressEvent
  tool_done : String → Bool → Option Text → ProgressEvent

pub data Wire : Type 0 where
  send_draft : ℕ → Text → Wire
  edit_draft : String → Text → Wire

pub record Attempt : Type 0 where
  pub number : ℕ
  pub text : Text

pub record DraftSession : Type 0 where
  pub lines : List ToolLine
  pub open_timer : Bool
  pub tool_start_count : ℕ
  pub draft_msg_id : Option String
  pub last_sent : Option Text
  pub finalized : Bool
  pub abandoned : Bool
  pub pending_text : Option Text
  pub edit_in_flight : Option Text
  pub attempts : List Attempt
  pub attempt_count : ℕ
  pub finalizing : Option (ℕ × Text)
  pub wire : List Wire

unfoldable pub new_session : DraftSession
new_session = record {
  lines = [];
  open_timer = false;
  tool_start_count = 0;
  draft_msg_id = none;
  last_sent = none;
  finalized = false;
  abandoned = false;
  pending_text = none;
  edit_in_flight = none;
  attempts = [];
  attempt_count = 0;
  finalizing = none;
  wire = [];
}

abbrev pub is_last : Option Text → Text → Bool
is_last none text = false
is_last (some last) text = same last text

-- The loop of `drainEdits` from one snapshot on: a text that is on the wire already is skipped.
abbrev pub start_edit : String → Text → DraftSession → DraftSession
start_edit id text s =
    if is_last s.last_sent text
    then record s { pending_text = none; edit_in_flight = none }
    else record s {
      pending_text = none;
      edit_in_flight = some text;
      wire = s.wire ++ edit_draft id text ∷ [];
    }

abbrev pub drain_from : Option String → Option Text → DraftSession → DraftSession
drain_from (some id) (some text) s =
    if s.abandoned then record s { edit_in_flight = none } else start_edit id text s
drain_from _ _ s = record s { edit_in_flight = none }

unfoldable pub drain_edits : DraftSession → DraftSession
unfolding same
drain_edits s = drain_from s.draft_msg_id s.pending_text s

unfoldable pub enqueue_edit : Text → DraftSession → DraftSession
unfolding drain_edits
enqueue_edit text s =
    if not (is_some s.draft_msg_id) || s.abandoned
    then s
    else if is_some s.edit_in_flight
    then record s { pending_text = some text }
    else drain_edits (record s { pending_text = some text })

-- `openDraftNow` up to the await of `sendDraft`.
unfoldable pub open_draft_now : Options → DraftSession → DraftSession
unfolding render_draft_text same
open_draft_now opts s =
    let text = render_draft_text opts s.lines in
    if is_some s.draft_msg_id || s.abandoned || s.finalized
    then s
    else if same text []
    then s
    else record s {
      attempts = s.attempts ++ record { number = s.attempt_count; text = text } ∷ [];
      attempt_count = suc s.attempt_count;
      wire = s.wire ++ send_draft s.attempt_count text ∷ [];
    }

unfoldable pub schedule_open : Options → DraftSession → DraftSession
unfolding open_draft_now
schedule_open opts s =
    if is_some s.draft_msg_id || s.open_timer || s.abandoned || s.finalized
    then s
    else if opts.initial_delay_ms == 0
    then open_draft_now opts s
    else record s { open_timer = true }

unfoldable pub has_line : String → List ToolLine → Bool
has_line id [] = false
has_line id (line ∷ lines) = str_eq line.tool_call_id id || has_line id lines

unfoldable pub set_line : String → (ToolLine → ToolLine) → List ToolLine → List ToolLine
set_line id set [] = []
set_line id set (line ∷ lines) =
    let others = set_line id set lines in
    if str_eq line.tool_call_id id then set line ∷ others else line ∷ others

unfoldable pub refresh : Options → DraftSession → DraftSession
unfolding enqueue_edit render_draft_text
refresh opts s =
    if is_some s.draft_msg_id then enqueue_edit (render_draft_text opts s.lines) s else s

abbrev pub new_line : String → Text → Text → Option Text → ToolLine
new_line id emoji title detail = record {
  tool_call_id = id;
  emoji = emoji;
  title = title;
  detail = detail;
  progress_message = none;
  success = none;
  error_summary = none;
}

-- The gate: the second tool opens the draft at once, and clears the timer.
unfoldable pub open_gate : Options → DraftSession → DraftSession
unfolding open_draft_now schedule_open
open_gate opts s =
    if not (is_some s.draft_msg_id) && leb 2 s.tool_start_count
    then open_draft_now opts (record s { open_timer = false })
    else schedule_open opts s

abbrev summarised : Option Text → Option Text → Option Text
summarised none old = old
summarised (some error) old = some (truncate error 60)

abbrev pub done_line : Bool → Option Text → ToolLine → ToolLine
done_line success error line = record line {
  success = some success;
  progress_message = none;
  error_summary = summarised (or_nothing error) line.error_summary;
}

abbrev pub progressed : Text → ToolLine → ToolLine
progressed message line = record line { progress_message = some message }

-- `apply_progress` after its first guard.
unfoldable pub apply_event : Options → ProgressEvent → DraftSession → DraftSession
unfolding has_line set_line refresh open_gate truncate
apply_event opts (tool_start id emoji title detail) s =
    if has_line id s.lines
    then s
    else refresh opts (
        open_gate opts (record s {
          lines = s.lines ++ new_line id emoji title detail ∷ [];
          tool_start_count = suc s.tool_start_count;
        }))
apply_event opts (tool_progress id message) s =
    if has_line id s.lines
    then refresh opts (record s { lines = set_line id (progressed message) s.lines })
    else s
apply_event opts (tool_done id success error) s =
    if has_line id s.lines
    then refresh opts (record s { lines = set_line id (done_line success error) s.lines })
    else s

unfoldable pub apply_progress : Options → ProgressEvent → DraftSession → DraftSession
unfolding apply_event
apply_progress opts event s = if s.abandoned || s.finalized then s else apply_event opts event s

-- The timer of `scheduleOpen`.
unfoldable pub timer_fires : Options → DraftSession → DraftSession
unfolding open_draft_now
timer_fires opts s =
    if s.open_timer then open_draft_now opts (record s { open_timer = false }) else s

unfoldable pub without_attempt : ℕ → List Attempt → List Attempt
without_attempt n [] = []
without_attempt n (a ∷ rest) =
    let kept = without_attempt n rest in if a.number == n then kept else a ∷ kept

unfoldable pub find_attempt : ℕ → List Attempt → Option Attempt
find_attempt n [] = none
find_attempt n (a ∷ rest) =
    let later = find_attempt n rest in if a.number == n then some a else later

abbrev pub opened_draft : Option String → Text → DraftSession → DraftSession
opened_draft none text s = s
opened_draft (some id) text s = record s { draft_msg_id = some id; last_sent = some text }

-- The rest of `finalize` once the open attempt that it awaits is over.
abbrev pub resume : ℕ → Option (ℕ × Text) → DraftSession → DraftSession
resume n none s = s
resume n (some (awaited, text)) s =
    if awaited == n then enqueue_edit text (record s { finalizing = none }) else s

abbrev pub settle_found : Options → ℕ → Option String → Option Attempt → DraftSession → DraftSession
settle_found opts n answer none s = s
settle_found opts n answer (some attempt) s =
    let after =
      enqueue_edit (render_draft_text opts s.lines)
        (opened_draft answer attempt.text (record s { attempts = without_attempt n s.attempts })) in
    resume n after.finalizing after

-- A send settles with a message id, or without one, and so where it throws; then `openDraftNow` flushes the
-- lines, and a `finalize` that awaits this attempt goes on.
unfoldable pub send_settles : Options → ℕ → Option String → DraftSession → DraftSession
unfolding enqueue_edit render_draft_text without_attempt find_attempt
send_settles opts n answer s = settle_found opts n answer (find_attempt n s.attempts) s

abbrev pub edited_text : Bool → Option Text → Option Text → Option Text
edited_text true (some text) last = some text
edited_text _ _ last = last

-- The edit under way settles, or throws; then `drainEdits` goes on with its loop.
unfoldable pub edit_settles : Bool → DraftSession → DraftSession
unfolding drain_edits
edit_settles ok s =
    if is_some s.edit_in_flight
    then drain_edits (record s {
      last_sent = edited_text ok s.edit_in_flight s.last_sent;
      edit_in_flight = none;
    })
    else s

abbrev pub final_text :
    (ℕ → ℕ → Text) → Options → ProgressFinalizePolicy → Text → DraftSession → Text
final_text summary opts edit_in_place answer s = answer
final_text summary opts release answer s = build_release_text summary opts s.lines

abbrev pub last_number : List Attempt → ℕ → Option ℕ
last_number attempts zero = none
last_number attempts (suc n) = if is_some (find_attempt n attempts) then some n else none

-- `openAttempt`, the last open attempt, if it is under way.
unfoldable pub open_attempt : DraftSession → Option ℕ
unfolding find_attempt
open_attempt s = last_number s.attempts s.attempt_count

abbrev pub await_attempt : Option ℕ → Text → DraftSession → DraftSession
await_attempt none text s = enqueue_edit text s
await_attempt (some n) text s = record s { finalizing = some (n, text) }

-- `finalize`; a session without a message is left to the caller.
unfoldable pub finalize : (ℕ → ℕ → Text) → Options → Text → DraftSession → DraftSession
unfolding enqueue_edit open_attempt build_release_text
finalize summary opts answer s =
    if s.finalized || s.abandoned
    then s
    else await_attempt (open_attempt s) (final_text summary opts opts.finalize_policy answer s)
        (record s { finalized = true; open_timer = false })

unfoldable pub abandon : DraftSession → DraftSession
abandon s = if s.abandoned then s else record s { abandoned = true; open_timer = false }

pub data Event : Type 0 where
  progress : ProgressEvent → Event
  timer : Event
  send_settled : ℕ → Option String → Event
  edit_settled : Bool → Event
  finish : Text → Event
  give_up : Event

module _ (summary : ℕ → ℕ → Text) (opts : Options) where
  unfoldable pub step : Event → DraftSession → DraftSession
  unfolding apply_progress timer_fires send_settles edit_settles finalize abandon
  step (progress event) s = apply_progress opts event s
  step timer s = timer_fires opts s
  step (send_settled n answer) s = send_settles opts n answer s
  step (edit_settled ok) s = edit_settles ok s
  step (finish answer) s = finalize summary opts answer s
  step give_up s = abandon s

  unfoldable pub run : List Event → DraftSession → DraftSession
  unfolding step
  run [] s = s
  run (e ∷ es) s = run es (step e s)
