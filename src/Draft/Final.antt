-- ===== src/Draft/Final.antt =====
-- src/progress-draft.ts: what a finished draft shows in the end.
use nanoclaw_github_copilot.Base.{
  ℕ, ◌≡◌, refl, sym, ap, subst, ◌∙◌, Bool, true, false, not, ◌||◌, String, Option, none, some,
  is_some, List, [], ◌∷◌, ◌++◌, arith, if_elim, All,
}
use nanoclaw_github_copilot.Mounts.Strings.{Text}
use nanoclaw_github_copilot.Draft.{Options, ProgressFinalizePolicy, edit_in_place}
use nanoclaw_github_copilot.Draft.Session.{
  DraftSession, Attempt, Event, progress, timer, send_settled, edit_settled, finish, give_up,
  drain_edits, enqueue_edit, open_draft_now, apply_progress, timer_fires, find_attempt,
  settle_found, send_settles, edit_settles, open_attempt, last_number, await_attempt, final_text,
  finalize, step, run,
}
use nanoclaw_github_copilot.Draft.Edits.{
  target, Steady, drain-target, drain-SameOpening, edit_settles-Steady, settle-pending, settle-idle,
}

no_open_attempt : (s : DraftSession) → s.attempts ≡ [] → open_attempt s ≡ none
unfolding open_attempt find_attempt
no_open_attempt s e = by_count s.attempts s.attempt_count e
  where
    by_count : (attempts : List Attempt) (n : ℕ) → attempts ≡ [] → last_number attempts n ≡ none
    by_count attempts ℕ.zero a = refl
    by_count [] (ℕ.suc n) a = refl
    by_count (x ∷ xs) (ℕ.suc n) a = absurd (cc a)

-- The session is open, and nothing is being opened.
abbrev pub IsOpen : String → DraftSession → Type 0
IsOpen id s =
    (s.finalized ≡ false) × (s.abandoned ≡ false) × (s.draft_msg_id ≡ some id) × (s.attempts ≡ [])

-- The answer is queued on an open draft.
enqueue_edit-Steady :
    (id : String) (answer : Text) (s : DraftSession)
    → s.finalized ≡ true
    → s.abandoned ≡ false
    → s.draft_msg_id ≡ some id
    → s.attempts ≡ []
    → Steady id answer (enqueue_edit answer s)
unfolding enqueue_edit
enqueue_edit-Steady id answer s f a d n =
    if_elim (Steady id answer) (not (is_some s.draft_msg_id) || s.abandoned)
      (λ off. absurd (ground (arith, off, a, d)))
      λ _.
        if_elim (Steady id answer) (is_some s.edit_in_flight) {x = waiting}
          {y = drain_edits waiting}
          (λ flies. record {
            finalized = f;
            abandoned = a;
            opened = d;
            no_attempts = n;
            busy = λ e. absurd (ground (arith, flies, e));
            aims = refl;
          })
          (λ idle.
            let opening = drain-SameOpening waiting in
            let aim = drain-target id waiting a d (landed s.edit_in_flight idle) in
            record {
              finalized = opening.0 ∙ f;
              abandoned = opening.1 ∙ a;
              opened = opening.2 ∙ d;
              no_attempts = opening.3 ∙ n;
              busy = λ _. aim.1;
              aims = aim.0;
            })
  where
    waiting : DraftSession
    waiting = record s { pending_text = some answer }

    landed : (flying : Option Text) → is_some flying ≡ false → flying ≡ none
    landed none e = refl
    landed (some text) e = absurd (cc e)

open_draft_now_open :
    (opts : Options) (id : String) (s : DraftSession)
    → s.draft_msg_id ≡ some id
    → open_draft_now opts s ≡ s
unfolding open_draft_now
open_draft_now_open opts id s d = ground (arith, d)

module _ (summary : ℕ → ℕ → Text) (opts : Options) where
  finalize-Steady :
      (id : String) (answer : Text) (s : DraftSession)
      → opts.finalize_policy ≡ edit_in_place
      → IsOpen id s
      → Steady id answer (finalize summary opts answer s)
  unfolding finalize enqueue_edit
  finalize-Steady id answer s policy h =
      if_elim (Steady id answer) (s.finalized || s.abandoned)
        (λ over. absurd (ground (arith, over, h.0, h.1)))
        (λ _.
          let closing : DraftSession = record s { finalized = true; open_timer = false } in
          subst
            (λ (p : ProgressFinalizePolicy).
              Steady id answer
                (await_attempt (open_attempt s) (final_text summary opts p answer s) closing))
            (sym policy)
            (subst (λ (o : Option ℕ). Steady id answer (await_attempt o answer closing))
              (sym (no_open_attempt s h.3))
              (enqueue_edit-Steady id answer closing refl h.1 h.2 h.3)))

  -- No edit fails, and the session is not abandoned.
  abbrev pub IsCalm : Event → Type 0
  IsCalm (edit_settled ok) = ok ≡ true
  IsCalm give_up = ⊥
  IsCalm _ = Unit

  step-Steady :
      (id : String) (answer : Text) (e : Event) (s : DraftSession)
      → IsCalm e
      → Steady id answer s
      → Steady id answer (step summary opts e s)
  unfolding step apply_progress timer_fires send_settles finalize open_draft_now find_attempt
  step-Steady id answer (progress event) s c h =
      if_elim (Steady id answer) (s.abandoned || s.finalized) (λ _. h)
        (λ f. absurd (ground (arith, f, h.finalized)))
  step-Steady id answer timer s c h =
      if_elim (Steady id answer) s.open_timer
        (λ _.
          subst (Steady id answer)
            (sym (open_draft_now_open opts id (record s { open_timer = false }) h.opened))
            (record {
              finalized = h.finalized;
              abandoned = h.abandoned;
              opened = h.opened;
              no_attempts = h.no_attempts;
              busy = h.busy;
              aims = h.aims;
            }))
        (λ _. h)
  step-Steady id answer (send_settled n message) s c h = by_attempts s.attempts h.no_attempts
    where
      by_attempts :
          (attempts : List Attempt)
          → attempts ≡ []
          → Steady id answer (settle_found opts n message (find_attempt n attempts) s)
      by_attempts [] e = h
      by_attempts (x ∷ xs) e = absurd (cc e)
  step-Steady id answer (edit_settled ok) s c h =
      subst (λ (b : Bool). Steady id answer (edit_settles b s)) (sym c)
        (edit_settles-Steady id answer s h)
  step-Steady id answer (finish other) s c h =
      if_elim (Steady id answer) (s.finalized || s.abandoned) (λ _. h)
        (λ f. absurd (ground (arith, f, h.finalized)))
  step-Steady id answer give_up s c h = absurd c

  run-Steady :
      (id : String) (answer : Text) (events : List Event) (s : DraftSession)
      → All IsCalm events
      → Steady id answer s
      → Steady id answer (run summary opts events s)
  unfolding run
  run-Steady id answer [] s c h = h
  run-Steady id answer (e ∷ es) s c h =
      run-Steady id answer es (step summary opts e s) c.1 (step-Steady id answer e s c.0 h)

  run-append :
      (front back : List Event) (s : DraftSession)
      → run summary opts (front ++ back) s ≡ run summary opts back (run summary opts front s)
  unfolding run
  run-append [] back s = refl
  run-append (e ∷ front) back s = run-append front back (step summary opts e s)

  -- A turn that ends while its draft is open and nothing is being opened ends with the answer in the draft:
  -- whatever events follow the call of `finalize`, late tool events and timers too, once two more edits have
  -- settled the last text on the wire is the answer. The conditions: the answer goes into the draft
  -- (`edit-in-place`), no edit fails, and the session is not abandoned.
  pub finalize-last :
      (id : String) (answer : Text) (events : List Event) (s : DraftSession)
      → opts.finalize_policy ≡ edit_in_place
      → IsOpen id s
      → All IsCalm events
      → (run summary opts
          (events ++ edit_settled true ∷ edit_settled true ∷ [])
          (finalize summary opts answer s)).last_sent
        ≡ some answer
  unfolding run step
  finalize-last id answer events s policy h c =
      let before = run summary opts events (finalize summary opts answer s) in
      let steady = run-Steady id answer events _ c (finalize-Steady id answer s policy h) in
      let once = edit_settles-Steady id answer before steady in
      let twice = edit_settles-Steady id answer (edit_settles true before) once in
      let idle = settle-idle (edit_settles true before) (settle-pending id answer before steady) in
      ap (λ (r : DraftSession). r.last_sent)
        (run-append events (edit_settled true ∷ edit_settled true ∷ [])
          (finalize summary opts answer s))
      ∙ at_rest (edit_settles true (edit_settles true before)) idle (twice.busy idle) twice.aims
    where
      at_rest :
          (r : DraftSession)
          → r.edit_in_flight ≡ none
          → r.pending_text ≡ none
          → target r ≡ some answer
          → r.last_sent ≡ some answer
      at_rest r f p a = ground (arith, f, p, a)
