-- ===== src/Helper/Rounding.antt =====
-- How the helpers round and when they fail.
use baz_core.Common.{
  ℕ, ◌+◌, ◌-◌, ◌*◌, ◌/◌, ◌^◌, ◌≤◌, ◌<◌, ◌≡◌, ◌⊎◌, inl, inr, ok, panic, ◌==◌, ltb, Bool-cases, arith,
}
use baz_core.Common.Arith.{mul_le_mul, le-div, div-le, div-lt, ceil_bounds}
use baz_core.Common.Words.{u64_mod, u128_mod}
use baz_core.Cosmwasm.{Cosmwasm, IsDocumented}
use baz_core.Cosmwasm.Standard.{standard, at_standard}
use baz_core.Helper.{compute_deposit_time, multiply_ratio_and_ceil}

pub multiply_ratio_and_ceil-standard :
    (a n d : ℕ) {q : ℕ}
    → multiply_ratio_and_ceil standard a n d ≡ ok q
    → (0 < d) × (a * n ≤ q * d) × (q * d < a * n + d)
unfolding multiply_ratio_and_ceil
multiply_ratio_and_ceil-standard a n d h = ground (arith, ceil_bounds (a * n) d)

-- The intermediate sum fits a `Uint256`.
no_overflow_256 : (a n d : ℕ) → a < u128_mod → n < u128_mod → d < u128_mod → a * n + d < 2 ^ 256
no_overflow_256 a n d ha hn hd =
    omega (arith, mul_le_mul a (u128_mod - 1) n (u128_mod - 1) (omega arith) (omega arith))

multiply_ratio_and_ceil_value :
    (a n d : ℕ)
    → a < u128_mod
    → n < u128_mod
    → d < u128_mod
    → 0 < d
    → (a * n + d - 1) / d < u128_mod
    → multiply_ratio_and_ceil standard a n d ≡ ok ((a * n + d - 1) / d)
unfolding multiply_ratio_and_ceil
multiply_ratio_and_ceil_value a n d ha hn hd pos fits = ground (arith, no_overflow_256 a n d)

-- The rounded product of `a` and a fraction `n / d` of at most one is at most `a`.
ceil-le : (a n d : ℕ) → 0 < d → n ≤ d → (a * n + d - 1) / d ≤ a
ceil-le a n d pos h = omega (arith, div-lt (a + 1) (a * n + d - 1) d pos (grind arith))

-- `multiply_ratio_and_ceil` by a fraction of at most one: no `Uint256` step and no conversion
-- fails, the result is the least number whose product with `d` reaches `a * n`, and it is at most
-- `a`.
pub multiply_ratio_and_ceil_lem :
    (c : Cosmwasm)
    → IsDocumented c
    → (a n d : ℕ) → a < u128_mod
    → d < u128_mod
    → 0 < d
    → n ≤ d
    → (q : ℕ) × (multiply_ratio_and_ceil c a n d ≡ ok q)
      × (a * n ≤ q * d)
      × (q * d < a * n + d)
      × (q ≤ a)
multiply_ratio_and_ceil_lem = at_standard _ λ a n d ha hd pos h. (
  (a * n + d - 1) / d,
  multiply_ratio_and_ceil_value a n d ha (omega arith) hd pos (omega (arith, ceil-le a n d pos h)),
  (ceil_bounds (a * n) d pos).0,
  (ceil_bounds (a * n) d pos).1,
  ceil-le a n d pos h,
)

module _ (w0 w1 t0 t1 : ℕ) (h : t0 ≤ t1) (pos : 0 < w0 + w1) where
  weighted_ge : t0 ≤ (w0 * t0 + w1 * t1) / (w0 + w1)
  weighted_ge = le-div t0 (w0 * t0 + w1 * t1) (w0 + w1) pos (grind arith)

  weighted_le : (w0 * t0 + w1 * t1) / (w0 + w1) ≤ t1
  weighted_le = div-le t1 (w0 * t0 + w1 * t1) (w0 + w1) pos (grind arith)

-- The weighted deposit time of two amounts at times of 64 bits in order. Either the weighted sum
-- and the sum of the amounts fit 128 bits and the amounts are not both zero: then it is computed,
-- and lies between the two times. Or one of this fails, and it panics; it is never refused with an
-- error.
pub compute_deposit_time_lem :
    (w0 w1 t0 t1 : ℕ)
    → t0 ≤ t1
    → t1 < u64_mod
    → ((w0 * t0 + w1 * t1 < u128_mod)
        × (w0 + w1 < u128_mod)
        × (0 < w0 + w1)
        × ((t : ℕ) × (compute_deposit_time w0 w1 t0 t1 ≡ ok t) × (t0 ≤ t) × (t ≤ t1)))
      ⊎ (((u128_mod ≤ w0 * t0 + w1 * t1) ⊎ ((u128_mod ≤ w0 + w1) ⊎ (w0 + w1 ≡ 0)))
          × (compute_deposit_time w0 w1 t0 t1 ≡ panic))
unfolding compute_deposit_time
compute_deposit_time_lem w0 w1 t0 t1 h ht = elim (Bool-cases (ltb (w0 * t0 + w1 * t1) u128_mod)) [
  | inr large ↦ inr (inl (ground arith), ground arith)
  | inl light ↦ elim (Bool-cases (ltb (w0 + w1) u128_mod)) [
    | inr large ↦ inr (inr (inl (ground arith)), ground arith)
    | inl small ↦ elim (Bool-cases (w0 + w1 == 0)) [
      | inl zero ↦ inr (inr (inr (ground arith)), ground arith)
      | inr more ↦ inl (
        ground arith,
        ground arith,
        ground arith,
        (
          (w0 * t0 + w1 * t1) / (w0 + w1),
          ground (arith, weighted_le w0 w1 t0 t1),
          weighted_ge w0 w1 t0 t1 h (ground arith),
          weighted_le w0 w1 t0 t1 h (ground arith),
        ),
      )
    ]
  ]
]
