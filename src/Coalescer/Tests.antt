-- ===== src/Coalescer/Tests.antt =====
-- src/flash-edit-coalescer.ts: texts that arrive while an edit is in flight.
use nanoclaw_github_copilot.Base.{
  ℕ, suc, ◌<◌, arith, ◌≡◌, refl, none, some, List, [], ◌∷◌, lookup, insert, discard,
}
use nanoclaw_github_copilot.Coalescer.{
  edit_message, edit_ended, edited, failed, send_edit, overwrite, open_slot, enqueue, next_round,
  settle_edit, settle, drop_slot, clear, Event, enqueues, settles, clears, step, run, init,
}
use nanoclaw_github_copilot.Coalescer.Latest.{last_edit, run-latest}
use nanoclaw_github_copilot.Coalescer.Balance.{sent, ended}
use nanoclaw_github_copilot.Coalescer.Single.{PatientRun, run-single}

machine : Unit {0}
unfolding init run step enqueue overwrite open_slot send_edit settle settle_edit next_round
    drop_slot clear discard lookup insert last_edit
machine = tt

-- Three texts while the first edit is in flight, which then ends, as does the second.
abbrev burst : List Event
burst =
    enqueues "m" "one" none
    ∷ enqueues "m" "two" none
    ∷ enqueues "m" "three" none
    ∷ settles 0 failed
    ∷ settles 0 edited
    ∷ []

-- Two edits are sent; the middle text is skipped.
burst_calls :
    (run burst init).calls
    ≡ edit_ended 0
      ∷ edit_message 0 "m" "three" none
      ∷ edit_ended 0
      ∷ edit_message 0 "m" "one" none
      ∷ []
unfolding machine
burst_calls = refl

burst_held : lookup "m" (run burst init).queue ≡ some 0
unfolding machine
burst_held = refl

burst_quiet : ((run burst init).slots 0).in_flight ≡ none
unfolding machine
burst_quiet = refl

run-latest_example : last_edit 0 (run burst init).calls ≡ some ((run burst init).slots 0).latest
run-latest_example = run-latest burst "m" 0 burst_held burst_quiet

abbrev opening : List Event
opening = enqueues "m" "one" none ∷ enqueues "m" "two" none ∷ []

opening-PatientRun : PatientRun opening init
opening-PatientRun = (tt, (tt, tt))

abbrev slot_0 : ℕ
slot_0 = 0

opening_flies : ended 0 (run opening init).calls < sent 0 (run opening init).calls
unfolding machine sent ended
opening_flies = omega arith

run-single_example :
    (slot_0 ≡ slot_0) × (sent 0 (run opening init).calls ≡ suc (ended 0 (run opening init).calls))
run-single_example =
    run-single opening slot_0 slot_0 opening-PatientRun opening_flies opening_flies refl

-- A clear while an edit is in flight, then a new text for the same message: two edits of it are in
-- flight.
abbrev cleared : List Event
cleared = enqueues "m" "one" none ∷ clears ∷ enqueues "m" "two" none ∷ []

cleared_first : ((run cleared init).slots 0).in_flight ≡ some "one"
unfolding machine
cleared_first = refl

cleared_second : ((run cleared init).slots 1).in_flight ≡ some "two"
unfolding machine
cleared_second = refl
