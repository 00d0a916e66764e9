-- ===== src/Draft/Once.antt =====
-- src/progress-draft.ts: how many messages a session sends.
use nanoclaw_github_copilot.Base.{
  ℕ, suc, ◌+◌, ◌≡◌, refl, sym, subst, ◌≤◌, Bool, true, false, not, ◌&&◌, ◌||◌, String, Option, none,
  some, is_some, List, [], ◌∷◌, ◌++◌, arith, if_elim, leb, ◌==◌,
}
use nanoclaw_github_copilot.Mounts.Strings.{Text, same}
use nanoclaw_github_copilot.Draft.{Options, render_draft_text}
use nanoclaw_github_copilot.Draft.Session.{
  DraftSession, Attempt, Wire, ProgressEvent, tool_start, tool_progress, tool_done, Event, progress,
  timer, send_settled, edit_settled, finish, give_up, send_draft, edit_draft, is_last, drain_from,
  drain_edits, enqueue_edit, open_draft_now, schedule_open, has_line, set_line, new_line,
  progressed, done_line, refresh, open_gate, apply_event, apply_progress, timer_fires, find_attempt,
  without_attempt, opened_draft, resume, settle_found, send_settles, edited_text, edit_settles,
  open_attempt, await_attempt, final_text, finalize, abandon, step, run, new_session,
}

abbrev pub count_sends : List Wire → ℕ
count_sends [] = 0
count_sends (send_draft n text ∷ wire) = suc (count_sends wire)
count_sends (edit_draft id text ∷ wire) = count_sends wire

sends-append :
    (front back : List Wire) → count_sends (front ++ back) ≡ count_sends front + count_sends back
sends-append [] back = omega arith
sends-append (send_draft n text ∷ front) back = omega (arith, sends-append front back)
sends-append (edit_draft id text ∷ front) back = omega (arith, sends-append front back)

-- The draft is closed, or one send is under way, or the draft has a message.
abbrev in_phase : Option String → List Attempt → ℕ → Bool
in_phase none [] n = n == 0
in_phase none (a ∷ []) n = n == 1
in_phase (some id) [] n = n == 1
in_phase _ _ n = false

abbrev InPhase : DraftSession → Type 0
InPhase s = in_phase s.draft_msg_id s.attempts (count_sends s.wire) ≡ true

drain_edits-InPhase : (s : DraftSession) → InPhase s → InPhase (drain_edits s)
unfolding drain_edits
drain_edits-InPhase s h = by_pending s.draft_msg_id s.pending_text
  where
    edits_only :
        (id : String) (text : Text)
        → count_sends (s.wire ++ edit_draft id text ∷ []) ≡ count_sends s.wire
    edits_only id text = omega (arith, sends-append s.wire (edit_draft id text ∷ []))

    by_pending :
        (draft : Option String) (waiting : Option Text) → InPhase (drain_from draft waiting s)
    by_pending none waiting = h
    by_pending (some id) none = h
    by_pending (some id) (some text) =
        if_elim InPhase s.abandoned {x = record s { edit_in_flight = none }} (λ _. h)
          (λ _.
            if_elim InPhase (is_last s.last_sent text)
              {x = record s { pending_text = none; edit_in_flight = none }}
              {y = record s {
                pending_text = none;
                edit_in_flight = some text;
                wire = s.wire ++ edit_draft id text ∷ [];
              }}
              (λ _. h)
              (λ _.
                subst (λ (n : ℕ). in_phase s.draft_msg_id s.attempts n ≡ true)
                  (sym (edits_only id text)) h))

enqueue_edit-InPhase : (text : Text) (s : DraftSession) → InPhase s → InPhase (enqueue_edit text s)
unfolding enqueue_edit
enqueue_edit-InPhase text s h =
    let waiting : DraftSession = record s { pending_text = some text } in
    if_elim InPhase (not (is_some s.draft_msg_id) || s.abandoned) (λ _. h)
      λ _.
        if_elim InPhase (is_some s.edit_in_flight) {x = waiting} {y = drain_edits waiting} (λ _. h)
          (λ _. drain_edits-InPhase waiting h)

open_draft_now-InPhase :
    (opts : Options) (s : DraftSession)
    → s.attempts ≡ []
    → InPhase s
    → InPhase (open_draft_now opts s)
unfolding open_draft_now
open_draft_now-InPhase opts s n h =
    let text = render_draft_text opts s.lines in
    if_elim InPhase (is_some s.draft_msg_id || s.abandoned || s.finalized) (λ _. h)
      λ closed.
        if_elim InPhase (same text []) (λ _. h)
          (λ _. opens s.draft_msg_id s.attempts (ground (arith, closed)) n h)
  where
    opens :
        (draft : Option String) (attempts : List Attempt)
        → is_some draft ≡ false
        → attempts ≡ []
        → in_phase draft attempts (count_sends s.wire) ≡ true
        → in_phase draft
            (attempts
              ++ record { number = s.attempt_count; text = render_draft_text opts s.lines } ∷ [])
            (count_sends
              (s.wire ++ send_draft s.attempt_count (render_draft_text opts s.lines) ∷ []))
          ≡ true
    opens none [] c e p = ground (
      arith,
      p,
      sends-append s.wire (send_draft s.attempt_count (render_draft_text opts s.lines) ∷ []),
    )
    opens none (a ∷ rest) c e p = absurd (cc e)
    opens (some id) attempts c e p = absurd (cc c)

refresh-InPhase : (opts : Options) (s : DraftSession) → InPhase s → InPhase (refresh opts s)
unfolding refresh
refresh-InPhase opts s h =
    if_elim InPhase (is_some s.draft_msg_id)
      (λ _. enqueue_edit-InPhase (render_draft_text opts s.lines) s h) (λ _. h)

open_gate-InPhase :
    (opts : Options) (s : DraftSession) → s.attempts ≡ [] → InPhase s → InPhase (open_gate opts s)
unfolding open_gate schedule_open
open_gate-InPhase opts s n h =
    if_elim InPhase (not (is_some s.draft_msg_id) && leb 2 s.tool_start_count)
      (λ _. open_draft_now-InPhase opts (record s { open_timer = false }) n h)
      λ _.
        if_elim InPhase (is_some s.draft_msg_id || s.open_timer || s.abandoned || s.finalized)
          (λ _. h)
          λ _.
            if_elim InPhase (opts.initial_delay_ms == 0) {y = record s { open_timer = true }}
              (λ _. open_draft_now-InPhase opts s n h) (λ _. h)

apply_event-InPhase :
    (opts : Options) (event : ProgressEvent) (s : DraftSession)
    → s.attempts ≡ []
    → InPhase s
    → InPhase (apply_event opts event s)
unfolding apply_event
apply_event-InPhase opts (tool_start id emoji title detail) s n h =
    let added : DraftSession = record s {
      lines = s.lines ++ new_line id emoji title detail ∷ [];
      tool_start_count = suc s.tool_start_count;
    } in
    if_elim InPhase (has_line id s.lines) (λ _. h)
      (λ _. refresh-InPhase opts (open_gate opts added) (open_gate-InPhase opts added n h))
apply_event-InPhase opts (tool_progress id message) s n h =
    let noted : DraftSession = record s { lines = set_line id (progressed message) s.lines } in
    if_elim InPhase (has_line id s.lines) (λ _. refresh-InPhase opts noted h) (λ _. h)
apply_event-InPhase opts (tool_done id success error) s n h =
    let noted : DraftSession = record s { lines = set_line id (done_line success error) s.lines } in
    if_elim InPhase (has_line id s.lines) (λ _. refresh-InPhase opts noted h) (λ _. h)

-- The one send that is under way settles with a message id.
settled :
    (n : ℕ) (draft : Option String) (attempts : List Attempt) (sends : ℕ) (a : Attempt)
    (id : String)
    → find_attempt n attempts ≡ some a
    → in_phase draft attempts sends ≡ true
    → in_phase (some id) (without_attempt n attempts) sends ≡ true
unfolding find_attempt without_attempt
settled n none [] sends a id f p = absurd (cc f)
settled n none (b ∷ []) sends a id f p = ground (arith, f, p)
settled n none (b ∷ c ∷ rest) sends a id f p = absurd (cc p)
settled n (some other) [] sends a id f p = absurd (cc f)
settled n (some other) (b ∷ rest) sends a id f p = absurd (cc p)

resume-InPhase :
    (n : ℕ) (waiting : Option (ℕ × Text)) (s : DraftSession)
    → InPhase s
    → InPhase (resume n waiting s)
resume-InPhase n none s h = h
resume-InPhase n (some w) s h =
    if_elim InPhase (w.0 == n) (λ _. enqueue_edit-InPhase w.1 (record s { finalizing = none }) h)
      (λ _. h)

send_settles-InPhase :
    (opts : Options) (n : ℕ) (id : String) (s : DraftSession)
    → InPhase s
    → InPhase (send_settles opts n (some id) s)
unfolding send_settles
send_settles-InPhase opts n id s h = by_attempt (find_attempt n s.attempts) refl
  where
    by_attempt :
        (a : Option Attempt)
        → find_attempt n s.attempts ≡ a
        → InPhase (settle_found opts n (some id) a s)
    by_attempt none e = h
    by_attempt (some a) e =
        let now_open : DraftSession =
          opened_draft (some id) a.text (record s { attempts = without_attempt n s.attempts }) in
        resume-InPhase n (enqueue_edit (render_draft_text opts s.lines) now_open).finalizing
          (enqueue_edit (render_draft_text opts s.lines) now_open)
          (enqueue_edit-InPhase (render_draft_text opts s.lines) now_open
            (settled n s.draft_msg_id s.attempts (count_sends s.wire) a id e h))

-- Every send answers a message id, and no tool event or timer comes while one is under way.
module _ (summary : ℕ → ℕ → Text) (opts : Options) where
  abbrev pub IsPatient : DraftSession → Event → Type 0
  IsPatient s (progress event) = s.attempts ≡ []
  IsPatient s timer = s.attempts ≡ []
  IsPatient s (send_settled n answer) = is_some answer ≡ true
  IsPatient s _ = Unit

  abbrev pub ArePatient : List Event → DraftSession → Type 0
  ArePatient [] s = Unit
  ArePatient (e ∷ es) s = IsPatient s e × ArePatient es (step summary opts e s)

  step-InPhase :
      (e : Event) (s : DraftSession) → IsPatient s e → InPhase s → InPhase (step summary opts e s)
  unfolding step apply_progress timer_fires edit_settles finalize abandon
  step-InPhase (progress event) s c h =
      if_elim InPhase (s.abandoned || s.finalized) (λ _. h)
        (λ _. apply_event-InPhase opts event s c h)
  step-InPhase timer s c h =
      if_elim InPhase s.open_timer
        (λ _. open_draft_now-InPhase opts (record s { open_timer = false }) c h) (λ _. h)
  step-InPhase (send_settled n none) s c h = absurd (cc c)
  step-InPhase (send_settled n (some id)) s c h = send_settles-InPhase opts n id s h
  step-InPhase (edit_settled ok) s c h =
      if_elim InPhase (is_some s.edit_in_flight)
        (λ _.
          drain_edits-InPhase
            (record s {
              last_sent = edited_text ok s.edit_in_flight s.last_sent;
              edit_in_flight = none;
            })
            h)
        (λ _. h)
  step-InPhase (finish answer) s c h =
      if_elim InPhase (s.finalized || s.abandoned) (λ _. h) (λ _. awaited (open_attempt s))
    where
      awaited :
          (n : Option ℕ)
          → InPhase (
              await_attempt n
                (final_text summary opts opts.finalize_policy answer s)
                (record s { finalized = true; open_timer = false }))
      awaited none =
          enqueue_edit-InPhase (final_text summary opts opts.finalize_policy answer s)
            (record s { finalized = true; open_timer = false }) h
      awaited (some n) = h
  step-InPhase give_up s c h =
      if_elim InPhase s.abandoned {y = record s { abandoned = true; open_timer = false }} (λ _. h)
        (λ _. h)

  run-InPhase :
      (events : List Event) (s : DraftSession)
      → ArePatient events s
      → InPhase s
      → InPhase (run summary opts events s)
  unfolding run
  run-InPhase [] s c h = h
  run-InPhase (e ∷ es) s c h = run-InPhase es (step summary opts e s) c.1 (step-InPhase e s c.0 h)

  phase_sends :
      (draft : Option String) (attempts : List Attempt) (n : ℕ)
      → in_phase draft attempts n ≡ true
      → n ≤ 1
  phase_sends none [] n p = ground (arith, p)
  phase_sends none (a ∷ []) n p = ground (arith, p)
  phase_sends none (a ∷ b ∷ rest) n p = absurd (cc p)
  phase_sends (some id) [] n p = ground (arith, p)
  phase_sends (some id) (a ∷ rest) n p = absurd (cc p)

  -- A session sends one message at most, provided that every send answers a message id and that no tool event
  -- and no timer comes while a send is under way: a tool that starts in that time sends another.
  pub run-one_send :
      (events : List Event)
      → ArePatient events new_session
      → count_sends (run summary opts events new_session).wire ≤ 1
  run-one_send events c =
      let last = run summary opts events new_session in
      phase_sends last.draft_msg_id last.attempts (count_sends last.wire)
        (run-InPhase events new_session c (unfold new_session in refl))
