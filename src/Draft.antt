-- ===== src/Draft.antt =====
-- src/progress-draft.ts: the lines of a progress draft and their text. A text is the list of its characters; a
-- character outside the Basic Multilingual Plane counts as one. The label of the session, which a random
-- number picks, is a parameter, as are the emoji and the title that the catalog gives to a tool.
pub mod Session
pub mod Visible
pub mod Silent
pub mod Edits
pub mod Final
pub mod Once
pub mod Tests
use nanoclaw_github_copilot.Base.{
  ℕ, zero, suc, ◌+◌, ◌-◌, String, Bool, true, false, not, ◌&&◌, Option, none, some, is_some, List,
  [], ◌∷◌, ◌++◌, ltb, leb, ◌==◌, if◌then◌else◌, length,
}
use nanoclaw_github_copilot.Mounts.Strings.{Text, same}

pub record ToolLine : Type 0 where
  pub tool_call_id : String
  pub emoji : Text
  pub title : Text
  pub detail : Option Text
  pub progress_message : Option Text
  pub success : Option Bool
  pub error_summary : Option Text

pub data ProgressDetailMode : Type 0 where
  explain raw : ProgressDetailMode

pub data ProgressFinalizePolicy : Type 0 where
  edit_in_place release : ProgressFinalizePolicy

pub record Options : Type 0 where
  pub label : Option Text
  pub initial_delay_ms : ℕ
  pub max_lines : ℕ
  pub max_line_chars : ℕ
  pub detail : ProgressDetailMode
  pub finalize_policy : ProgressFinalizePolicy

-- `text.slice_text(0, n)`
unfoldable pub slice_text : ℕ → Text → Text
slice_text zero s = []
slice_text (suc n) [] = []
slice_text (suc n) (c ∷ s) = c ∷ slice_text n s

abbrev pub ellipsis : Text
ellipsis = 8230 ∷ []

-- `max - 1` stops at 0, as `Math.max(0, max - 1)` does.
unfoldable pub truncate : Text → ℕ → Text
unfolding slice_text
truncate s max_chars =
    if leb (length s) max_chars then s else slice_text (max_chars - 1) s ++ ellipsis

-- An empty text counts as absent.
abbrev pub or_nothing : Option Text → Option Text
or_nothing none = none
or_nothing (some text) = if same text [] then none else some text

abbrev failed_suffix : Option Text → Text
failed_suffix none = b' ' ∷ 10007 ∷ []
failed_suffix (some error) = b' ' ∷ 10007 ∷ b' ' ∷ error

abbrev status_suffix : Option Bool → Option Text → Text
status_suffix none error = []
status_suffix (some true) error = b' ' ∷ 10003 ∷ []
status_suffix (some false) error = failed_suffix (or_nothing error)

abbrev with_detail : Text → Option Text → Text
with_detail body none = body
with_detail body (some text) = body ++ b':' ∷ b' ' ∷ text

abbrev raw_detail : ProgressDetailMode → Option Text → Option Text
raw_detail explain detail = none
raw_detail raw detail = or_nothing detail

abbrev first_of : Option Text → Option Text → Option Text
first_of none other = other
first_of (some text) other = some text

unfoldable pub render_progress_line : ToolLine → ProgressDetailMode → ℕ → Text
unfolding truncate same
render_progress_line line detail max_line_chars =
    truncate
      (with_detail (line.emoji ++ b' ' ∷ line.title)
          (first_of (or_nothing line.progress_message) (raw_detail detail line.detail))
        ++ status_suffix line.success line.error_summary)
      max_line_chars

abbrev pub is_done : ToolLine → Bool
is_done line = is_some line.success

-- The loop of `visibleLines`, with the number of lines that are still to be dropped.
unfoldable pub keep_lines : ℕ → List ToolLine → List ToolLine
keep_lines overflow [] = []
keep_lines zero (line ∷ lines) = line ∷ lines
keep_lines (suc overflow) (line ∷ lines) =
    let dropped = keep_lines overflow lines in
    let kept = keep_lines (suc overflow) lines in if is_done line then dropped else line ∷ kept

-- `visibleLines`: the lines of the map in the order of their insertion, which is the one of `seq`.
unfoldable pub visible_lines : ℕ → List ToolLine → List ToolLine
unfolding keep_lines
visible_lines max_lines all =
    if leb (length all) max_lines then all else keep_lines (length all - max_lines) all

-- `parts.join('\n')`
unfoldable pub join_lines : List Text → Text
join_lines [] = []
join_lines (part ∷ []) = part
join_lines (part ∷ other ∷ parts) = part ++ 10 ∷ join_lines (other ∷ parts)

unfoldable pub rendered : Options → List ToolLine → List Text
unfolding render_progress_line
rendered opts [] = []
rendered opts (line ∷ lines) =
    render_progress_line line opts.detail opts.max_line_chars ∷ rendered opts lines

abbrev labelled : Option Text → List Text → List Text
labelled none parts = parts
labelled (some label) parts = label ∷ parts

unfoldable pub render_draft_text : Options → List ToolLine → Text
unfolding visible_lines join_lines rendered same
render_draft_text opts lines =
    join_lines
      (labelled (or_nothing opts.label) (rendered opts (visible_lines opts.max_lines lines)))

-- The lines that ended with success, and those that failed.
abbrev ended_with : Bool → Option Bool → ℕ
ended_with true (some true) = 1
ended_with false (some false) = 1
ended_with _ _ = 0

unfoldable pub count_ended : Bool → List ToolLine → ℕ
count_ended verdict [] = 0
count_ended verdict (line ∷ lines) = ended_with verdict line.success + count_ended verdict lines

-- `buildReleaseText`, where `summary` writes the numbers of lines that are done and that failed.
unfoldable pub build_release_text : (ℕ → ℕ → Text) → Options → List ToolLine → Text
unfolding count_ended join_lines same
build_release_text summary opts lines = join_lines (
    labelled (or_nothing opts.label)
      (summary (count_ended true lines) (count_ended false lines) ∷ []))
