-- ===== src/Helper.antt =====
-- packages/spectrum/src/helper.rs: the weighted deposit time and the product rounded up.
pub mod Rounding
use baz_core.Common.{ℕ, ◌+◌, ◌*◌, ltb, if◌then◌else◌, Result, ok, err, ◌>>=◌}
use baz_core.Common.Words.{u64_mod, u128_mod, fit, div}
use baz_core.Cosmwasm.{Cosmwasm, StdError, StdResult, generic_err}

-- "Overflow in compute_deposit_time"
abbrev pub overflow_in_compute_deposit_time : StdError
overflow_in_compute_deposit_time = generic_err 1

unfoldable pub compute_deposit_time : ℕ → ℕ → ℕ → ℕ → StdResult ℕ
compute_deposit_time last_deposit_amount new_deposit_amount last_deposit_time new_deposit_time = do
  last_weight ← fit u128_mod (last_deposit_amount * last_deposit_time)
  new_weight ← fit u128_mod (new_deposit_amount * new_deposit_time)
  weight ← fit u128_mod (last_weight + new_weight)
  amount ← fit u128_mod (last_deposit_amount + new_deposit_amount)
  weight_avg ← div weight amount
  if ltb weight_avg u64_mod then ok weight_avg else err overflow_in_compute_deposit_time

module _ (c : Cosmwasm) where
  unfoldable pub multiply_ratio_and_ceil : ℕ → ℕ → ℕ → StdResult ℕ
  multiply_ratio_and_ceil self numerator denominator = do
    let x = c.full_mul self numerator
    sum ← c.add_256 x denominator
    less ← c.minus_256 sum 1
    quotient ← c.div_256 less denominator
    c.into_128 quotient
