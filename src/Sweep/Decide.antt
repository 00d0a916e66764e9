-- ===== src/Sweep/Decide.antt =====
-- src/host-sweep.ts: when `decideStuckAction` kills a container.
use nanoclaw_github_copilot.Base.{
  ℕ, ◌-◌, ◌≤◌, ◌<◌, max, ◌≡◌, refl, ◌≢◌, ◌↔◌, ◌⊎◌, inl, inr, String, Bool, true, false, not, ◌&&◌,
  Option, none, some, List, [], ◌∷◌, arith, ◌==◌, All, Any, ltb, Bool-cases,
}
use nanoclaw_github_copilot.Sweep.{
  Text, ProcessingClaim, ContainerState, StuckDecision, ok, kill_claim, or_zero, is_stuck,
  parse_sqlite_utc, scan_claims, bash_timeout_ms, decide_stuck_action,
}

-- The claim was made at an instant that can be read, longer ago than the tolerance, and the
-- heartbeat is not later.
abbrev pub Stuck : (Text → Option ℕ) → (now heartbeat tolerance : ℕ) → ProcessingClaim → Type 0
Stuck date_parse now heartbeat tolerance c =
    (t : ℕ) × (parse_sqlite_utc date_parse c.status_changed ≡ some t)
    × (tolerance < now - t)
    × (heartbeat ≤ t)

module _ (date_parse : Text → Option ℕ) (now heartbeat tolerance : ℕ) where
  Stuck-of_test :
      (c : ProcessingClaim) (o : Option ℕ)
      → parse_sqlite_utc date_parse c.status_changed ≡ o
      → is_stuck now heartbeat tolerance o ≡ true
      → Stuck date_parse now heartbeat tolerance c
  unfolding is_stuck
  Stuck-of_test c none e h = absurd (cc h)
  Stuck-of_test c (some t) e h = (t, e, ground arith, ground arith)

  test_of_Stuck :
      (c : ProcessingClaim)
      → Stuck date_parse now heartbeat tolerance c
      → is_stuck now heartbeat tolerance (parse_sqlite_utc date_parse c.status_changed) ≡ true
  unfolding is_stuck
  test_of_Stuck c (t, e, old, silent) = rw e (ground (arith, old, silent))

  scan_claims_sound :
      (cs : List ProcessingClaim) (id : String) (age tol : ℕ)
      → scan_claims date_parse now heartbeat tolerance cs ≡ kill_claim id age tol
      → Any (λ c. (c.message_id ≡ id) × Stuck date_parse now heartbeat tolerance c) cs
  unfolding scan_claims
  scan_claims_sound [] id age tol e = cc e
  scan_claims_sound (c ∷ cs) id age tol e =
      let o = parse_sqlite_utc date_parse c.status_changed in
      elim (Bool-cases (is_stuck now heartbeat tolerance o)) [
        | inl stuck ↦ inl (ground (arith, e, stuck), Stuck-of_test c o refl stuck)
        | inr calm ↦ inr (scan_claims_sound cs id age tol (ground (arith, e, calm)))
      ]

  scan_claims-ok :
      (cs : List ProcessingClaim)
      → scan_claims date_parse now heartbeat tolerance cs ≡ ok
      → All (λ c. ¬ Stuck date_parse now heartbeat tolerance c) cs
  unfolding scan_claims
  scan_claims-ok [] e = tt
  scan_claims-ok (c ∷ cs) e =
      let o = parse_sqlite_utc date_parse c.status_changed in
      elim (Bool-cases (is_stuck now heartbeat tolerance o)) [
        | inl stuck ↦ absurd (ground (arith, e, stuck))
        | inr calm ↦ (
          (λ st. ground (arith, calm, test_of_Stuck c st)),
          scan_claims-ok cs (ground (arith, e, calm)),
        )
      ]

  ok-scan_claims :
      (cs : List ProcessingClaim)
      → All (λ c. ¬ Stuck date_parse now heartbeat tolerance c) cs
      → scan_claims date_parse now heartbeat tolerance cs ≡ ok
  unfolding scan_claims
  ok-scan_claims [] h = refl
  ok-scan_claims (c ∷ cs) h =
      let o = parse_sqlite_utc date_parse c.status_changed in
      elim (Bool-cases (is_stuck now heartbeat tolerance o)) [
        | inl stuck ↦ absurd (h.0 (Stuck-of_test c o refl stuck))
        | inr calm ↦ ground (arith, calm, ok-scan_claims cs h.1)
      ]

-- The container's heartbeat is older than the ceiling in force, which a declared Bash timeout
-- extends; a ceiling of 0 and a missing heartbeat file (0) switch the rule off.
abbrev pub PastCeiling : (now heartbeat base declared : ℕ) → Type 0
PastCeiling now heartbeat base declared =
    (heartbeat ≢ 0) × (0 < base) × (max base declared < now - heartbeat)

module _ (date_parse : Text → Option ℕ) (now heartbeat : ℕ) (state : Option ContainerState)
    (claims : List ProcessingClaim) (ceiling stuck : ℕ) where
  abbrev decision : StuckDecision
  decision = decide_stuck_action date_parse now heartbeat state claims (some ceiling) (some stuck)

  abbrev declared : ℕ
  declared = or_zero (bash_timeout_ms state)

  -- A container is left alone exactly if its heartbeat is not past the ceiling and the claim rule
  -- is off or no claim is stuck.
  pub decide_ok_iff : (decision ≡ ok) ↔ (
      (¬ PastCeiling now heartbeat ceiling declared)
      × ((stuck ≡ 0) ⊎ All (λ c. ¬ Stuck date_parse now heartbeat (max stuck declared) c) claims))
  unfolding decide_stuck_action
  decide_ok_iff = (there, back)
    where
      late : Bool
      late = not (heartbeat == 0) && ltb 0 ceiling && ltb (max ceiling declared) (now - heartbeat)

      there :
          decision ≡ ok
          → (¬ PastCeiling now heartbeat ceiling declared)
            × ((stuck ≡ 0)
                ⊎ All (λ c. ¬ Stuck date_parse now heartbeat (max stuck declared) c) claims)
      there e = elim (Bool-cases late) [
        | inl over ↦ absurd (ground (arith, e, over))
        | inr calm ↦ ((λ p. ground (arith, p, calm)), rest calm)
      ]
        where
          rest :
              late ≡ false
              → (stuck ≡ 0)
                ⊎ All (λ c. ¬ Stuck date_parse now heartbeat (max stuck declared) c) claims
          rest calm = elim (Bool-cases (stuck == 0)) [
            | inl off ↦ inl (ground arith)
            | inr on ↦ inr (
                scan_claims-ok date_parse now heartbeat (max stuck declared) claims
                  (ground (arith, e, calm, on)))
          ]

      back :
          (¬ PastCeiling now heartbeat ceiling declared)
            × ((stuck ≡ 0)
                ⊎ All (λ c. ¬ Stuck date_parse now heartbeat (max stuck declared) c) claims)
          → decision ≡ ok
      back (calm, inl off) = ground (arith, off, calm)
      back (calm, inr free) =
          ground
            (arith, calm, ok-scan_claims date_parse now heartbeat (max stuck declared) claims free)
