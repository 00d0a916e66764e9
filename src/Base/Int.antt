-- ===== src/Base/Int.antt =====
-- Signed integers over the native numbers, for a counter that the program may take below zero.
use Prim.Native.Nat.{ℕ, zero, suc, ◌+◌, ◌-◌, ◌≤◌}
use mathlib.Core.Path.{◌≡◌}
use mathlib.Core.Logic.{◌↔◌}
use mathlib.Core.Bool.{Bool, true, false}
use native.Mathlib.Omega.{arith}
use nanoclaw_github_copilot.Base.Tests.{leb, if◌then◌else◌}

-- `negsuc n` is -(n + 1).
pub data ℤ : Type 0 where
  pos : ℕ → ℤ
  negsuc : ℕ → ℤ

-- a - b, as an integer.
abbrev pub sub_ℕ : ℕ → ℕ → ℤ
sub_ℕ a b = if leb b a then pos (a - b) else negsuc (b - a - 1)

-- `z++`
unfoldable pub incr : ℤ → ℤ
incr (pos n) = pos (suc n)
incr (negsuc zero) = pos 0
incr (negsuc (suc n)) = negsuc n

-- `z--`
unfoldable pub decr : ℤ → ℤ
decr (pos zero) = negsuc 0
decr (pos (suc n)) = pos n
decr (negsuc n) = negsuc (suc n)

-- `z >= n`
unfoldable pub at_least : ℤ → ℕ → Bool
at_least (pos m) n = leb n m
at_least (negsuc m) n = false

pub incr-sub_ℕ : (a d : ℕ) → incr (sub_ℕ a d) ≡ sub_ℕ (suc a) d
unfolding incr
incr-sub_ℕ a d = ground arith

pub decr-sub_ℕ : (a d : ℕ) → decr (sub_ℕ (suc a) d) ≡ sub_ℕ a d
unfolding decr
decr-sub_ℕ a d = ground arith

pub decr-sub_ℕ_right : (a d : ℕ) → decr (sub_ℕ a d) ≡ sub_ℕ a (suc d)
unfolding decr
decr-sub_ℕ_right a d = ground arith

pub at_least-sub_ℕ : (a d n : ℕ) → (at_least (sub_ℕ a d) n ≡ true) ↔ (n + d ≤ a)
unfolding at_least
at_least-sub_ℕ a d n = ground arith
