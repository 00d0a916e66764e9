-- ===== src/Sweep/Reset.antt =====
-- src/host-sweep.ts: what `resetStuckProcessingRows` leaves behind, and `sweepSession` with it.
use nanoclaw_github_copilot.Base.{
  ℕ, zero, suc, ◌+◌, ◌*◌, ◌/◌, ◌^◌, ◌≤◌, ◌<◌, ◌≡◌, refl, sym, ap, ◌∙◌, String, Bool, true, false,
  some, List, [], ◌∷◌, arith, if◌then◌else◌, if_elim, leb, str_eq, All, not,
}
use nanoclaw_github_copilot.Sweep.{
  MessageIn, Ack, is_pending, get_processing_claims, delete_orphan_claims, seconds_from, in_future,
  max_tries, backoff_base_ms, reset_row, reset_message, reset_claims, SessionDb,
  reset_stuck_processing_rows, ProcessingClaim, or_zero, StuckDecision, ok, kill_ceiling,
  kill_claim, decide_stuck_action,
}
use nanoclaw_github_copilot.Sweep.Session.{
  Surroundings, SweptSession, carry_out, enforce_running_container_sla, synced, woken, checked,
  recurred, sweep_session,
}

seconds_from-later : (now secs : ℕ) → 1 ≤ secs → now < seconds_from now secs
unfolding seconds_from
seconds_from-later now secs h = omega (arith, h)

-- The round on a row, its test for `pending` included.
abbrev settle : ℕ → MessageIn → MessageIn
settle now m = if is_pending m.status then reset_row now m else m

one_le_pow : (n : ℕ) → 1 ≤ 2 ^ n
one_le_pow zero = omega arith
one_le_pow (suc n) = omega (arith, one_le_pow n)

delay-later : (now tries : ℕ) → now < seconds_from now (backoff_base_ms * 2 ^ tries / 1000)
delay-later now tries =
    seconds_from-later now (backoff_base_ms * 2 ^ tries / 1000) (omega (arith, one_le_pow tries))

settle-id : (now : ℕ) (m : MessageIn) → (settle now m).id ≡ m.id
unfolding reset_row
settle-id now m = ground arith

settle_idem : (now : ℕ) (m : MessageIn) → settle now (settle now m) ≡ settle now m
unfolding reset_row
settle_idem now m = ground (arith, delay-later now m.tries)

reset_message_idem :
    (now : ℕ) (id : String) (ms : List MessageIn)
    → reset_message now id (reset_message now id ms) ≡ reset_message now id ms
unfolding reset_message
reset_message_idem now id [] = refl
reset_message_idem now id (m ∷ ms) =
    ground (arith, settle-id now m, settle_idem now m, reset_message_idem now id ms)

-- Rounds for two messages may change places.
reset_message_comm :
    (now : ℕ) (i j : String) (ms : List MessageIn)
    → reset_message now i (reset_message now j ms) ≡ reset_message now j (reset_message now i ms)
unfolding reset_message
reset_message_comm now i j [] = refl
reset_message_comm now i j (m ∷ ms) = ground (arith, settle-id now m, reset_message_comm now i j ms)

reset_claims-reset_message :
    (now : ℕ) (cs : List ProcessingClaim) (i : String) (ms : List MessageIn)
    → reset_claims now cs (reset_message now i ms) ≡ reset_message now i (reset_claims now cs ms)
unfolding reset_claims
reset_claims-reset_message now [] i ms = refl
reset_claims-reset_message now (c ∷ cs) i ms =
    ap (reset_claims now cs) (reset_message_comm now c.message_id i ms)
    ∙ reset_claims-reset_message now cs i (reset_message now c.message_id ms)

reset_claims_idem :
    (now : ℕ) (cs : List ProcessingClaim) (ms : List MessageIn)
    → reset_claims now cs (reset_claims now cs ms) ≡ reset_claims now cs ms
unfolding reset_claims
reset_claims_idem now [] ms = refl
reset_claims_idem now (c ∷ cs) ms =
    let i = c.message_id in
    let once = reset_message now i ms in
    ap (reset_claims now cs) (sym (reset_claims-reset_message now cs i once))
    ∙ reset_claims_idem now cs (reset_message now i once)
    ∙ ap (reset_claims now cs) (reset_message_idem now i ms)

get_processing_claims-delete :
    (acks : List Ack) → get_processing_claims (delete_orphan_claims acks) ≡ []
unfolding get_processing_claims delete_orphan_claims
get_processing_claims-delete [] = refl
get_processing_claims-delete (a ∷ acks) = ground (arith, get_processing_claims-delete acks)

delete_orphan_claims_idem :
    (acks : List Ack) → delete_orphan_claims (delete_orphan_claims acks) ≡ delete_orphan_claims acks
unfolding delete_orphan_claims
delete_orphan_claims_idem [] = refl
delete_orphan_claims_idem (a ∷ acks) = ground (arith, delete_orphan_claims_idem acks)

-- Resetting a session twice at one instant is resetting it once: a message whose claim outlives the
-- first reset (outbound.db did not open for writing, `rw` is false) is not charged a second try,
-- and no message is charged when the second reset finds the claims deleted.
pub reset_stuck_processing_rows_idem :
    (now : ℕ) (rw rw_later : Bool) (db : SessionDb)
    → (reset_stuck_processing_rows now rw_later (reset_stuck_processing_rows now rw db)).messages_in
      ≡ (reset_stuck_processing_rows now rw db).messages_in
unfolding reset_stuck_processing_rows reset_claims
reset_stuck_processing_rows_idem now true rw_later db =
    ap (λ cs. reset_claims now cs (reset_claims now (get_processing_claims db.acks) db.messages_in))
      (get_processing_claims-delete db.acks)
reset_stuck_processing_rows_idem now false rw_later db =
    reset_claims_idem now (get_processing_claims db.acks) db.messages_in

pow_le : (n : ℕ) → n < 5 → 2 ^ n ≤ 16
pow_le zero h = omega arith
pow_le (suc zero) h = omega arith
pow_le (suc (suc zero)) h = omega arith
pow_le (suc (suc (suc zero))) h = omega arith
pow_le (suc (suc (suc (suc zero)))) h = omega arith
pow_le (suc (suc (suc (suc (suc n))))) h = omega (arith, h)

-- A row with at most `max_tries` tries that is not put off by more than 80 seconds.
abbrev pub Bounded : ℕ → MessageIn → Type 0
Bounded now m = (m.tries ≤ max_tries) × ((t : ℕ) → m.process_after ≡ some t → t ≤ now + 80 * 1000)

settle-Bounded : (now : ℕ) (m : MessageIn) → Bounded now m → Bounded now (settle now m)
unfolding reset_row seconds_from
settle-Bounded now m b = if_elim (Bounded now) (is_pending m.status) (λ _. row) (λ _. b)
  where
    later :
        leb max_tries m.tries ≡ false
        → (t : ℕ) → some (seconds_from now (backoff_base_ms * 2 ^ m.tries / 1000)) ≡ some t
        → t ≤ now + 80 * 1000
    later h t e = omega (arith, pow_le m.tries (ground (arith, h)), ap or_zero e)

    row : Bounded now (reset_row now m)
    row =
        if_elim (Bounded now) (in_future now m.process_after) (λ _. b)
          (λ _.
            if_elim (Bounded now) (leb max_tries m.tries) (λ _. b)
              (λ h. (ground (arith, h), later h)))

reset_message-Bounded :
    (now : ℕ) (i : String) (ms : List MessageIn)
    → All (Bounded now) ms
    → All (Bounded now) (reset_message now i ms)
unfolding reset_message
reset_message-Bounded now i [] h = tt
reset_message-Bounded now i (m ∷ ms) h =
    if_elim (All (Bounded now)) (str_eq m.id i) (λ _. (settle-Bounded now m h.0, h.1))
      (λ _. (h.0, reset_message-Bounded now i ms h.1))

reset_claims-Bounded :
    (now : ℕ) (cs : List ProcessingClaim) (ms : List MessageIn)
    → All (Bounded now) ms
    → All (Bounded now) (reset_claims now cs ms)
unfolding reset_claims
reset_claims-Bounded now [] ms h = h
reset_claims-Bounded now (c ∷ cs) ms h =
    reset_claims-Bounded now cs (reset_message now c.message_id ms)
      (reset_message-Bounded now c.message_id ms h)

-- A reset keeps every row within `max_tries` tries and 80 seconds of delay (5 s · 2^4): the
-- back-off cannot grow without end, however often a container is killed.
pub reset_stuck_processing_rows-Bounded :
    (now : ℕ) (rw : Bool) (db : SessionDb)
    → All (Bounded now) db.messages_in
    → All (Bounded now) (reset_stuck_processing_rows now rw db).messages_in
unfolding reset_stuck_processing_rows
reset_stuck_processing_rows-Bounded now rw db h =
    reset_claims-Bounded now (get_processing_claims db.acks) db.messages_in h

abbrev NoOrphans : SweptSession → Type 0
NoOrphans s = s.running ≡ false → get_processing_claims s.db.acks ≡ []

reset-no_claims :
    (now : ℕ) (db : SessionDb)
    → get_processing_claims (reset_stuck_processing_rows now true db).acks ≡ []
unfolding reset_stuck_processing_rows
reset-no_claims now db = get_processing_claims-delete db.acks

carry_out-NoOrphans :
    (env : Surroundings)
    → env.rw_ok ≡ true
    → (d : StuckDecision) (u : SweptSession) → u.running ≡ true
    → NoOrphans (carry_out env d u)
unfolding carry_out
carry_out-NoOrphans env w ok u on off = ground (arith, on, off)
carry_out-NoOrphans env w (kill_ceiling _ _) u on off = rw w (reset-no_claims env.now u.db)
carry_out-NoOrphans env w (kill_claim _ _ _) u on off = rw w (reset-no_claims env.now u.db)

checked-NoOrphans :
    (env : Surroundings)
    → env.out_opens ≡ true
    → env.rw_ok ≡ true
    → (u : SweptSession) → NoOrphans (checked env u)
unfolding checked enforce_running_container_sla
checked-NoOrphans env o w u =
    if_elim NoOrphans (not env.out_opens) (λ h. absurd (ground (arith, o, h)))
      (λ _.
        if_elim NoOrphans u.running (carry_out-NoOrphans env w decision u)
          (λ _ _. rw w (reset-no_claims env.now u.db)))
  where
    decision : StuckDecision
    decision =
        decide_stuck_action env.date_parse env.now env.heartbeat_mtime_ms env.container_state
          (get_processing_claims u.db.acks) (some env.ceiling_ms) (some env.claim_stuck)

-- After a sweep of a session whose outbound.db opens for reading and for writing, a container that
-- is not running, because the sweep killed it, could not wake it, or found it dead, holds no claim:
-- the next container that starts does not inherit a claim older than itself.
pub sweep_session-no_orphans :
    (env : Surroundings) (s : SweptSession)
    → env.out_opens ≡ true
    → env.rw_ok ≡ true
    → (sweep_session env s).running ≡ false
    → get_processing_claims (sweep_session env s).db.acks ≡ []
unfolding sweep_session recurred
sweep_session-no_orphans env s opens writable =
    checked-NoOrphans env opens writable (woken env (synced env s))
