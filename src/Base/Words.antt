-- ===== src/Base/Words.antt =====
-- Machine words as native numbers.
use Prim.Native.Nat.{ℕ, ◌+◌, ◌-◌, ◌^◌, ◌≤◌, ◌<◌, suc, min}
use mathlib.Core.Path.{◌≡◌}
use native.Mathlib.Omega.{arith}

-- `u64::MAX`.
abbrev pub u64_max : ℕ
u64_max = 2 ^ 64 - 1

-- `u64::saturating_add`.
unfoldable pub saturating_add : ℕ → ℕ → ℕ
saturating_add a b = min (a + b) u64_max

pub saturating_add_assoc :
    (a b c : ℕ) → saturating_add (saturating_add a b) c ≡ saturating_add a (b + c)
unfolding saturating_add
saturating_add_assoc a b c = omega arith

pub saturating_add-zero : (a : ℕ) → a ≤ u64_max → saturating_add a 0 ≡ a
unfolding saturating_add
saturating_add-zero a h = omega arith

pub saturating_add-le : (a b : ℕ) → saturating_add a b ≤ u64_max
unfolding saturating_add
saturating_add-le a b = omega arith

pub saturating_add-one : (a : ℕ) → a < u64_max → saturating_add a 1 ≡ suc a
unfolding saturating_add
saturating_add-one a h = omega arith
