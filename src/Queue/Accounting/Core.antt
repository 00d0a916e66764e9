-- ===== src/Queue/Accounting/Core.antt =====
-- src/group-queue.ts: the slot map and `activeCount` under a single write, the ground of the
-- accounting of runs. `d` is the drift: how far the counter lies below the active slots.
use nanoclaw_github_copilot.Base.{
  ℕ, suc, ◌+◌, ◌≤◌, ◌<◌, ◌≡◌, String, Bool, true, false, some, List, [], ◌∷◌, arith, ℤ, sub_ℕ, incr,
  decr, incr-sub_ℕ, decr-sub_ℕ, decr-sub_ℕ_right, lookup, insert, erase, lookup-insert,
  lookup-erase_ne, All, All-map, Avoids, Distinct, str_eq, eq_iff, if◌then◌else◌,
}
use nanoclaw_github_copilot.Queue.{GroupState}
use nanoclaw_github_copilot.Queue.Enqueue.{is_active}

abbrev pub Slots : Type 0
Slots = List (String × GroupState)

abbrev pub to_ℕ : Bool → ℕ
to_ℕ true = 1
to_ℕ false = 0

-- How many slots are active.
unfoldable pub active_total : Slots → ℕ
active_total [] = 0
active_total ((_, s) ∷ m) = to_ℕ s.active + active_total m

abbrev pub active_at : String → Slots → Bool
active_at k m = is_active (lookup k m)

abbrev pub IsPlain : String × GroupState → Type 0
IsPlain e = e.1.pending_tasks ≡ []

pub record Core (limit d : ℕ) (ws : List String) (m : Slots) (z : ℤ) : Type 0 where
  pub counted : z ≡ sub_ℕ (active_total m) d
  pub parked : All (λ w. active_at w m ≡ false) ws
  pub distinct : Distinct ws
  pub plain : All IsPlain m
  pub capped : active_total m ≤ limit + d

pub active_total-insert :
    (k : String) (s : GroupState) (m : Slots)
    → active_total (insert k s m) + to_ℕ (active_at k m) ≡ active_total m + to_ℕ s.active
unfolding active_total insert lookup
active_total-insert k s [] = omega arith
active_total-insert k s ((j, t) ∷ m) = ground (arith, active_total-insert k s m)

pub active_total-erase :
    (k : String) (m : Slots) → active_total (erase k m) + to_ℕ (active_at k m) ≡ active_total m
unfolding active_total erase lookup
active_total-erase k [] = omega arith
active_total-erase k ((j, t) ∷ m) = ground (arith, active_total-erase k m)

pub active_at-insert :
    (k j : String) (s : GroupState) (m : Slots)
    → active_at j (insert k s m) ≡ (if str_eq k j then s.active else active_at j m)
active_at-insert k j s m = ground (arith, lookup-insert k j s m)

IsPlain-insert :
    (k : String) (s : GroupState) (m : Slots)
    → s.pending_tasks ≡ []
    → All IsPlain m
    → All IsPlain (insert k s m)
unfolding insert
IsPlain-insert k s [] e h = (e, tt)
IsPlain-insert k s ((j, t) ∷ m) e h = ground (arith, IsPlain-insert k s m e h.1)

IsPlain-erase : (k : String) (m : Slots) → All IsPlain m → All IsPlain (erase k m)
unfolding erase
IsPlain-erase k [] h = tt
IsPlain-erase k ((j, t) ∷ m) h = ground (arith, IsPlain-erase k m h.1)

pub plain-lookup :
    (k : String) (m : Slots) (s : GroupState)
    → All IsPlain m
    → lookup k m ≡ some s
    → s.pending_tasks ≡ []
unfolding lookup
plain-lookup k [] s h e = cc
plain-lookup k ((j, t) ∷ m) s h e = ground (arith, plain-lookup k m s h.1)

-- Parked keys other than `k` stay parked under a write at `k`.
parked-insert :
    (k : String) (s : GroupState) (m : Slots) (ws : List String)
    → Avoids k ws
    → All (λ w. active_at w m ≡ false) ws
    → All (λ w. active_at w (insert k s m) ≡ false) ws
parked-insert k s m [] a h = tt
parked-insert k s m (w ∷ ws) a h =
    (ground (arith, active_at-insert k w s m, eq_iff k w), parked-insert k s m ws a.1 h.1)

parked-insert_same :
    (k : String) (s : GroupState) (m : Slots) (ws : List String)
    → s.active ≡ active_at k m
    → All (λ w. active_at w m ≡ false) ws
    → All (λ w. active_at w (insert k s m) ≡ false) ws
parked-insert_same k s m ws e =
    All-map (λ w. active_at w m ≡ false) (λ w. active_at w (insert k s m) ≡ false) ws
      λ w h. ground (arith, active_at-insert k w s m, eq_iff k w)

parked-erase :
    (k : String) (m : Slots) (ws : List String)
    → Avoids k ws
    → All (λ w. active_at w m ≡ false) ws
    → All (λ w. active_at w (erase k m) ≡ false) ws
parked-erase k m [] a h = tt
parked-erase k m (w ∷ ws) a h =
    (ground (arith, lookup-erase_ne k w m, eq_iff k w), parked-erase k m ws a.1 h.1)

-- An active slot is parked nowhere.
pub Avoids-of_active :
    (k : String) (m : Slots) (ws : List String)
    → active_at k m ≡ true
    → All (λ w. active_at w m ≡ false) ws
    → Avoids k ws
Avoids-of_active k m [] e h = tt
Avoids-of_active k m (w ∷ ws) e h = ((λ p. ground (arith, p)), Avoids-of_active k m ws e h.1)

module _ {limit d : ℕ} {ws : List String} {m : Slots} {z : ℤ} (c : Core limit d ws m z) where
  pub Core-insert_same :
      (k : String) (s : GroupState)
      → s.pending_tasks ≡ []
      → s.active ≡ active_at k m
      → Core limit d ws (insert k s m) z
  Core-insert_same k s e a = record {
    counted = ground (arith, c.counted, active_total-insert k s m);
    parked = parked-insert_same k s m ws a c.parked;
    distinct = c.distinct;
    plain = IsPlain-insert k s m e c.plain;
    capped = ground (arith, active_total-insert k s m, c.capped);
  }

  pub Core-insert_up :
      (k : String) (s : GroupState)
      → s.pending_tasks ≡ []
      → s.active ≡ true
      → active_at k m ≡ false
      → Avoids k ws
      → active_total m < limit + d
      → Core limit d ws (insert k s m) (incr z)
  Core-insert_up k s e a b v h = record {
    counted = ground (arith, c.counted, active_total-insert k s m, incr-sub_ℕ (active_total m) d);
    parked = parked-insert k s m ws v c.parked;
    distinct = c.distinct;
    plain = IsPlain-insert k s m e c.plain;
    capped = ground (arith, active_total-insert k s m);
  }

  pub Core-insert_down :
      (k : String) (s : GroupState)
      → s.pending_tasks ≡ []
      → s.active ≡ false
      → active_at k m ≡ true
      → Core limit d ws (insert k s m) (decr z)
  Core-insert_down k s e a b = record {
    counted =
        ground
          (arith, c.counted, active_total-insert k s m, decr-sub_ℕ (active_total (insert k s m)) d);
    parked = parked-insert k s m ws (Avoids-of_active k m ws b c.parked) c.parked;
    distinct = c.distinct;
    plain = IsPlain-insert k s m e c.plain;
    capped = ground (arith, active_total-insert k s m, c.capped);
  }

  -- A second release of a slot moves the counter one further down.
  pub Core-insert_stale :
      (k : String) (s : GroupState)
      → s.pending_tasks ≡ []
      → s.active ≡ false
      → active_at k m ≡ false
      → Core limit (suc d) ws (insert k s m) (decr z)
  Core-insert_stale k s e a b = record {
    counted =
        ground (arith, c.counted, active_total-insert k s m, decr-sub_ℕ_right (active_total m) d);
    parked = parked-insert_same k s m ws (ground arith) c.parked;
    distinct = c.distinct;
    plain = IsPlain-insert k s m e c.plain;
    capped = ground (arith, active_total-insert k s m, c.capped);
  }

  pub Core-erase_down : (k : String) → active_at k m ≡ true → Core limit d ws (erase k m) (decr z)
  Core-erase_down k b = record {
    counted =
        ground (arith, c.counted, active_total-erase k m, decr-sub_ℕ (active_total (erase k m)) d);
    parked = parked-erase k m ws (Avoids-of_active k m ws b c.parked) c.parked;
    distinct = c.distinct;
    plain = IsPlain-erase k m c.plain;
    capped = ground (arith, active_total-erase k m, c.capped);
  }

  pub Core-erase_stale :
      (k : String)
      → active_at k m ≡ false
      → Avoids k ws
      → Core limit (suc d) ws (erase k m) (decr z)
  Core-erase_stale k b v = record {
    counted =
        ground (arith, c.counted, active_total-erase k m, decr-sub_ℕ_right (active_total m) d);
    parked = parked-erase k m ws v c.parked;
    distinct = c.distinct;
    plain = IsPlain-erase k m c.plain;
    capped = ground (arith, active_total-erase k m, c.capped);
  }
