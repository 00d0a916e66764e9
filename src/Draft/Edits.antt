-- ===== src/Draft/Edits.antt =====
-- src/progress-draft.ts: the edits of a finished draft, and the text that it is to show.
use nanoclaw_github_copilot.Base.{
  ◌≡◌, refl, ap, ◌∙◌, true, false, String, Option, none, some, is_some, [], ◌∷◌, ◌++◌, arith,
  if◌then◌else◌, if_elim,
}
use nanoclaw_github_copilot.Mounts.Strings.{Text}
use nanoclaw_github_copilot.Mounts.Roots.{same-eq}
use nanoclaw_github_copilot.Draft.Session.{
  DraftSession, edit_draft, is_last, start_edit, drain_from, drain_edits, edited_text, edit_settles,
}

-- The text that the draft will show once nothing is under way: the one that waits, else the one in flight, else
-- the last one sent.
abbrev shown_of : Option Text → Option Text → Option Text → Option Text
shown_of (some waiting) flying last = some waiting
shown_of none (some flying) last = some flying
shown_of none none last = last

abbrev pub target : DraftSession → Option Text
target s = shown_of s.pending_text s.edit_in_flight s.last_sent

-- The session is finished, its message is there, nothing is being opened, and the draft is to show the answer.
pub record Steady (id : String) (answer : Text) (s : DraftSession) : Type 0 where
  pub finalized : s.finalized ≡ true
  pub abandoned : s.abandoned ≡ false
  pub opened : s.draft_msg_id ≡ some id
  pub no_attempts : s.attempts ≡ []
  pub busy : s.edit_in_flight ≡ none → s.pending_text ≡ none
  pub aims : target s ≡ some answer

is_last-eq : (last : Option Text) (text : Text) → is_last last text ≡ true → last ≡ some text
is_last-eq none text h = absurd (cc h)
is_last-eq (some last) text h = ap some (same-eq last text h)

start_edit-target :
    (id : String) (text : Text) (s : DraftSession)
    → (target (start_edit id text s) ≡ some text) × ((start_edit id text s).pending_text ≡ none)
start_edit-target id text s =
    if_elim (λ (r : DraftSession). (target r ≡ some text) × (r.pending_text ≡ none))
      (is_last s.last_sent text) {x = record s { pending_text = none; edit_in_flight = none }}
      {y = record s {
        pending_text = none;
        edit_in_flight = some text;
        wire = s.wire ++ edit_draft id text ∷ [];
      }}
      (λ e. (is_last-eq s.last_sent text e, refl)) (λ _. (refl, refl))

pub drain-target :
    (id : String) (s : DraftSession)
    → s.abandoned ≡ false
    → s.draft_msg_id ≡ some id
    → s.edit_in_flight ≡ none
    → (target (drain_edits s) ≡ target s) × ((drain_edits s).pending_text ≡ none)
unfolding drain_edits
drain-target id s a d f = by_pending s.draft_msg_id s.pending_text d refl
  where
    by_pending :
        (draft : Option String) (waiting : Option Text)
        → draft ≡ some id
        → s.pending_text ≡ waiting
        → (target (drain_from draft waiting s) ≡ target s)
          × ((drain_from draft waiting s).pending_text ≡ none)
    by_pending none waiting e p = absurd (cc e)
    by_pending (some other) none e p = (ground (arith, p, f), p)
    by_pending (some other) (some text) e p =
        let started = start_edit-target other text s in
        let Q : DraftSession → Type 0 = λ r. (target r ≡ target s) × (r.pending_text ≡ none) in
        if_elim Q s.abandoned (λ off. absurd (cc (off, a)))
          (λ _. (ground (arith, started.0, p), started.1))

-- `drainEdits` writes only what belongs to the edits.
abbrev SameOpening : DraftSession → DraftSession → Type 0
SameOpening s r =
    (r.finalized ≡ s.finalized)
    × (r.abandoned ≡ s.abandoned)
    × (r.draft_msg_id ≡ s.draft_msg_id)
    × (r.attempts ≡ s.attempts)
    × (r.finalizing ≡ s.finalizing)

pub drain-SameOpening : (s : DraftSession) → SameOpening s (drain_edits s)
unfolding drain_edits
drain-SameOpening s = by_pending s.draft_msg_id s.pending_text
  where
    same_as : SameOpening s s
    same_as = (refl, refl, refl, refl, refl)

    by_pending :
        (draft : Option String) (waiting : Option Text) → SameOpening s (drain_from draft waiting s)
    by_pending none waiting = same_as
    by_pending (some id) none = same_as
    by_pending (some id) (some text) =
        if_elim (SameOpening s) s.abandoned {x = record s { edit_in_flight = none }} (λ _. same_as)
          (λ _.
            if_elim (SameOpening s) (is_last s.last_sent text)
              {x = record s { pending_text = none; edit_in_flight = none }}
              {y = record s {
                pending_text = none;
                edit_in_flight = some text;
                wire = s.wire ++ edit_draft id text ∷ [];
              }}
              (λ _. same_as) (λ _. same_as))

pub edit_settles-Steady :
    (id : String) (answer : Text) (s : DraftSession)
    → Steady id answer s
    → Steady id answer (edit_settles true s)
unfolding edit_settles
edit_settles-Steady id answer s h = by_flight s.edit_in_flight refl
  where
    by_flight :
        (flying : Option Text)
        → s.edit_in_flight ≡ flying
        → Steady id answer (
            if is_some flying
            then drain_edits (record s {
              last_sent = edited_text true flying s.last_sent;
              edit_in_flight = none;
            })
            else s)
    by_flight none e = h
    by_flight (some text) e =
        let after : DraftSession = record s { last_sent = some text; edit_in_flight = none } in
        let opening = drain-SameOpening after in
        let aim = drain-target id after h.abandoned h.opened refl in
        record {
          finalized = opening.0 ∙ h.finalized;
          abandoned = opening.1 ∙ h.abandoned;
          opened = opening.2 ∙ h.opened;
          no_attempts = opening.3 ∙ h.no_attempts;
          busy = λ _. aim.1;
          aims = aim.0 ∙ settled s.pending_text h.aims;
        }
      where
        settled :
            (waiting : Option Text)
            → shown_of waiting s.edit_in_flight s.last_sent ≡ some answer
            → shown_of waiting none (some text) ≡ some answer
        settled none a = ground (arith, a, e)
        settled (some waiting) a = a

pub settle-pending :
    (id : String) (answer : Text) (s : DraftSession)
    → Steady id answer s
    → (edit_settles true s).pending_text ≡ none
unfolding edit_settles
settle-pending id answer s h = by_flight s.edit_in_flight refl
  where
    by_flight :
        (flying : Option Text)
        → s.edit_in_flight ≡ flying
        → (if is_some flying
            then drain_edits (record s {
              last_sent = edited_text true flying s.last_sent;
              edit_in_flight = none;
            })
            else s).pending_text
          ≡ none
    by_flight none e = h.busy e
    by_flight (some text) e =
        (drain-target id (record s { last_sent = some text; edit_in_flight = none }) h.abandoned
          h.opened refl).1

pub settle-idle :
    (s : DraftSession) → s.pending_text ≡ none → (edit_settles true s).edit_in_flight ≡ none
unfolding edit_settles drain_edits
settle-idle s p = by_flight s.edit_in_flight refl
  where
    drained :
        (draft : Option String) (waiting last : Option Text)
        → waiting ≡ none
        → (drain_from draft waiting
            (record s { last_sent = last; edit_in_flight = none })).edit_in_flight
          ≡ none
    drained none waiting last e = refl
    drained (some id) none last e = refl
    drained (some id) (some text) last e = absurd (cc e)

    by_flight :
        (flying : Option Text)
        → s.edit_in_flight ≡ flying
        → (if is_some flying
            then drain_edits (record s {
              last_sent = edited_text true flying s.last_sent;
              edit_in_flight = none;
            })
            else s).edit_in_flight
          ≡ none
    by_flight none e = e
    by_flight (some text) e = drained s.draft_msg_id s.pending_text (some text) p
