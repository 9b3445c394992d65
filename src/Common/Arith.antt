-- ===== src/Common/Arith.antt =====
-- Laws of products and quotients that linear arithmetic does not reach.
use Prim.Native.Nat.{ℕ, zero, suc, ◌+◌, ◌-◌, ◌*◌, ◌/◌, ◌≤◌, ◌<◌}
use native.Mathlib.Omega.{arith}

pub mul_le : (a b c : ℕ) → a ≤ b → a * c ≤ b * c
mul_le a b c h = grind arith

pub mul_le_mul : (a b c d : ℕ) → a ≤ b → c ≤ d → a * c ≤ b * d
mul_le_mul a b c d h k = grind arith

-- A common positive factor is cancelled.
pub le_of_mul_le : (a b c : ℕ) → 0 < c → a * c ≤ b * c → a ≤ b
le_of_mul_le a b c pos h = grind arith

pub div-mul-le : (s d : ℕ) → (s / d) * d ≤ s
div-mul-le s zero = omega arith
div-mul-le s (suc d) = omega arith

pub le-div : (lo s d : ℕ) → 0 < d → lo * d ≤ s → lo ≤ s / d
le-div lo s d pos h = grind arith

pub div-le : (hi s d : ℕ) → 0 < d → s ≤ hi * d → s / d ≤ hi
div-le hi s d pos h = grind arith

-- A quotient rounded down is below every bound that the product meets.
pub div-lt : (hi s d : ℕ) → 0 < d → s < hi * d → s / d < hi
div-lt hi s d pos h = grind arith

-- The quotient rounded up.
pub ceil_bounds : (a d : ℕ) → 0 < d → (a ≤ ((a + d - 1) / d) * d) × (((a + d - 1) / d) * d < a + d)
ceil_bounds a d h = omega arith

pub div_mono : (a b d : ℕ) → 0 < d → a ≤ b → a / d ≤ b / d
div_mono a b d pos h = grind arith
