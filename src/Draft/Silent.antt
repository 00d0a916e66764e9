-- ===== src/Draft/Silent.antt =====
-- src/progress-draft.ts: a session that was abandoned.
use nanoclaw_github_copilot.Base.{
  ℕ, ◌≡◌, refl, sym, subst, true, false, ◌||◌, String, Option, none, some, is_some, List, [], ◌∷◌,
  arith, if_elim, ◌==◌,
}
use nanoclaw_github_copilot.Mounts.Strings.{Text}
use nanoclaw_github_copilot.Draft.{Options, render_draft_text}
use nanoclaw_github_copilot.Draft.Session.{
  DraftSession, Attempt, Event, progress, timer, send_settled, edit_settled, finish, give_up,
  drain_from, drain_edits, enqueue_edit, open_draft_now, apply_progress, timer_fires, find_attempt,
  without_attempt, opened_draft, resume, settle_found, send_settles, edited_text, edit_settles,
  finalize, abandon, step, run,
}

-- The session is abandoned, and has called the transport no further.
abbrev IsSilent : DraftSession → DraftSession → Type 0
IsSilent before s = (s.abandoned ≡ true) × (s.wire ≡ before.wire)

enqueue_edit_off : (text : Text) (s : DraftSession) → s.abandoned ≡ true → enqueue_edit text s ≡ s
unfolding enqueue_edit
enqueue_edit_off text s a = ground (arith, a)

open_draft_now_off :
    (opts : Options) (s : DraftSession) → s.abandoned ≡ true → open_draft_now opts s ≡ s
unfolding open_draft_now
open_draft_now_off opts s a = ground (arith, a)

drain_edits-IsSilent :
    (before s : DraftSession) → IsSilent before s → IsSilent before (drain_edits s)
unfolding drain_edits
drain_edits-IsSilent before s h = by_draft s.draft_msg_id s.pending_text
  where
    by_draft : (id : Option String) (text : Option Text) → IsSilent before (drain_from id text s)
    by_draft none text = h
    by_draft (some id) none = h
    by_draft (some id) (some text) =
        if_elim (IsSilent before) s.abandoned (λ _. h) (λ f. absurd (cc (f, h.0)))

opened_draft-IsSilent :
    (before s : DraftSession) (answer : Option String) (text : Text)
    → IsSilent before s
    → IsSilent before (opened_draft answer text s)
opened_draft-IsSilent before s none text h = h
opened_draft-IsSilent before s (some id) text h = h

enqueue_edit-IsSilent :
    (before s : DraftSession) (text : Text)
    → IsSilent before s
    → IsSilent before (enqueue_edit text s)
enqueue_edit-IsSilent before s text h =
    subst (IsSilent before) (sym (enqueue_edit_off text s h.0)) h

resume-IsSilent :
    (before s : DraftSession) (n : ℕ) (waiting : Option (ℕ × Text))
    → IsSilent before s
    → IsSilent before (resume n waiting s)
resume-IsSilent before s n none h = h
resume-IsSilent before s n (some w) h =
    if_elim (IsSilent before) (w.0 == n)
      (λ _. enqueue_edit-IsSilent before (record s { finalizing = none }) w.1 h) (λ _. h)

send_settles-IsSilent :
    (before : DraftSession) (opts : Options) (n : ℕ) (answer : Option String) (s : DraftSession)
    → IsSilent before s
    → IsSilent before (send_settles opts n answer s)
unfolding send_settles
send_settles-IsSilent before opts n answer s h = by_attempt (find_attempt n s.attempts)
  where
    by_attempt : (a : Option Attempt) → IsSilent before (settle_found opts n answer a s)
    by_attempt none = h
    by_attempt (some a) =
        let removed : DraftSession = record s { attempts = without_attempt n s.attempts } in
        resume-IsSilent before _ n _ (
          enqueue_edit-IsSilent before _ (render_draft_text opts s.lines)
            (opened_draft-IsSilent before removed answer a.text h))

module _ (summary : ℕ → ℕ → Text) (opts : Options) where
  step-IsSilent :
      (before : DraftSession) (e : Event) (s : DraftSession)
      → IsSilent before s
      → IsSilent before (step summary opts e s)
  unfolding step apply_progress timer_fires edit_settles finalize abandon
  step-IsSilent before (progress event) s h =
      if_elim (IsSilent before) (s.abandoned || s.finalized) (λ _. h)
        (λ f. absurd (ground (arith, f, h.0)))
  step-IsSilent before timer s h =
      if_elim (IsSilent before) s.open_timer
        (λ _.
          subst (IsSilent before)
            (sym (open_draft_now_off opts (record s { open_timer = false }) h.0)) h)
        (λ _. h)
  step-IsSilent before (send_settled n answer) s h = send_settles-IsSilent before opts n answer s h
  step-IsSilent before (edit_settled ok) s h =
      if_elim (IsSilent before) (is_some s.edit_in_flight)
        (λ _.
          drain_edits-IsSilent before
            (record s {
              last_sent = edited_text ok s.edit_in_flight s.last_sent;
              edit_in_flight = none;
            })
            h)
        (λ _. h)
  step-IsSilent before (finish answer) s h =
      if_elim (IsSilent before) (s.finalized || s.abandoned) (λ _. h)
        (λ f. absurd (ground (arith, f, h.0)))
  step-IsSilent before give_up s h =
      if_elim (IsSilent before) s.abandoned {y = record s { abandoned = true; open_timer = false }}
        (λ _. h) (λ _. (refl, h.1))

  run-IsSilent :
      (before : DraftSession) (events : List Event) (s : DraftSession)
      → IsSilent before s
      → IsSilent before (run summary opts events s)
  unfolding run
  run-IsSilent before [] s h = h
  run-IsSilent before (e ∷ es) s h =
      run-IsSilent before es (step summary opts e s) (step-IsSilent before e s h)

  -- After `abandon` the session calls the transport no more: whatever tool events, timers, ends of sends and edits
  -- or calls of `finalize` follow, and whatever was under way, no further message is sent or edited_text.
  pub run-abandon :
      (events : List Event) (s : DraftSession) → (run summary opts events (abandon s)).wire ≡ s.wire
  unfolding abandon
  run-abandon events s = (run-IsSilent s events (abandon s) silent).1
    where
      silent : IsSilent s (abandon s)
      silent = if_elim (IsSilent s) s.abandoned (λ a. (a, refl)) (λ _. (refl, refl))
