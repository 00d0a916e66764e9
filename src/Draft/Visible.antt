-- ===== src/Draft/Visible.antt =====
-- src/progress-draft.ts: which lines a draft shows.
use nanoclaw_github_copilot.Base.{
  ℕ, zero, suc, ◌-◌, ◌≡◌, refl, ◌≤◌, List, [], ◌∷◌, arith, if◌then◌else◌, length, min, max,
}
use nanoclaw_github_copilot.Draft.{ToolLine, is_done, keep_lines, visible_lines}

-- The lines of tools that still run.
abbrev pub running : List ToolLine → List ToolLine
running [] = []
running (line ∷ lines) = if is_done line then running lines else line ∷ running lines

keep_lines-running : (n : ℕ) (lines : List ToolLine) → running (keep_lines n lines) ≡ running lines
unfolding keep_lines
keep_lines-running n [] = refl
keep_lines-running zero (line ∷ lines) = refl
keep_lines-running (suc n) (line ∷ lines) =
    ground (arith, keep_lines-running n lines, keep_lines-running (suc n) lines)

running_fewer : (lines : List ToolLine) → length (running lines) ≤ length lines
running_fewer [] = omega arith
running_fewer (line ∷ lines) = ground (arith, running_fewer lines)

-- `n` done lines are dropped, or all of them if they are fewer.
keep_lines-length :
    (n : ℕ) (lines : List ToolLine)
    → length (keep_lines n lines) ≡ max (length lines - n) (length (running lines))
unfolding keep_lines
keep_lines-length n [] = ground arith
keep_lines-length zero (line ∷ lines) = ground (arith, running_fewer (line ∷ lines))
keep_lines-length (suc n) (line ∷ lines) =
    ground (arith, keep_lines-length n lines, keep_lines-length (suc n) lines, running_fewer lines)

-- However many lines there are, the draft shows every tool that still runs, in the order of their starts, and
-- shows at most the configured number of lines, unless more tools than that run: then it shows these alone. With
-- fewer lines than that it shows all of them.
pub visible_lines-running :
    (max_lines : ℕ) (lines : List ToolLine)
    → (running (visible_lines max_lines lines) ≡ running lines)
      × (length (visible_lines max_lines lines)
          ≡ max (min max_lines (length lines)) (length (running lines)))
      × (length lines ≤ max_lines → visible_lines max_lines lines ≡ lines)
unfolding visible_lines
visible_lines-running max_lines lines = (
  ground (arith, keep_lines-running (length lines - max_lines) lines),
  ground (arith, keep_lines-length (length lines - max_lines) lines, running_fewer lines),
  λ h. ground (arith, h),
)
