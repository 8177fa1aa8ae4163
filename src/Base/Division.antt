-- ===== src/Base/Division.antt =====
-- Division rounded up.
use Prim.Native.Nat.{ℕ, ◌+◌, ◌-◌, ◌*◌, ◌/◌, ◌≤◌, ◌<◌}
use native.Mathlib.Omega.{arith}

pub round_up : (ms p : ℕ) → 0 < p → ms ≤ (ms + p - 1) / p * p
round_up ms p h = grind arith

pub round_up_least : (ms p n : ℕ) → 0 < p → ms ≤ n * p → (ms + p - 1) / p ≤ n
round_up_least ms p n h k = grind arith
