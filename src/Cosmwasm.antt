-- ===== src/Cosmwasm.antt =====
-- What the contracts use of the crate `cosmwasm_std`, which is not part of the repository: the
-- arithmetic of `Uint128`, `Uint256` and `Decimal`, as a parameter. `IsDocumented` states what the
-- crate documents of it; a `Decimal` is its number of atomics, 10^18 to the unit.
pub mod Standard
use baz_core.Common.{
  arith, ℕ, ◌+◌, ◌-◌, ◌*◌, ◌/◌, ◌≡◌, ltb, if◌then◌else◌, Option, some, none, Result, err, ◌>>=◌,
}
use baz_core.Common.Words.{u128_mod, u256_mod, fit, sub, div}

pub data StdError : Type 0 where
  overflow : StdError
  not_found : StdError
  generic_err : ℕ → StdError

abbrev pub StdResult : Type 0 → Type 0
StdResult = Result StdError

-- `Uint128::checked_sub`
abbrev pub checked : ℕ → ℕ → StdResult ℕ
checked a b = if ltb a b then err overflow else Result.ok (a - b)

pub checked-eq-ok : (a b : ℕ) {n : ℕ} → checked a b ≡ Result.ok n → n + b ≡ a
checked-eq-ok a b h = ground arith

-- `Uint128::checked_add`
abbrev pub checked_sum : ℕ → ℕ → StdResult ℕ
checked_sum a b = if ltb (a + b) u128_mod then Result.ok (a + b) else err overflow

-- `Item::load` and `Map::load`
abbrev pub load : {A : Type 0} → Option A → StdResult A
load none = err not_found
load (some a) = Result.ok a

pub load-eq-ok : {A : Type 0} (o : Option A) {a : A} → load o ≡ Result.ok a → o ≡ some a
load-eq-ok o h = ground arith

abbrev pub decimal_one : ℕ
decimal_one = 1_000_000_000_000_000_000

pub record Cosmwasm : Type 0 where
  -- `Uint128`: `+`, `-`, `checked_sub`, `checked_add`, `saturating_sub`, `multiply_ratio`
  pub add : ℕ → ℕ → StdResult ℕ
  pub minus : ℕ → ℕ → StdResult ℕ
  pub checked_sub : ℕ → ℕ → StdResult ℕ
  pub checked_add : ℕ → ℕ → StdResult ℕ
  pub saturating_sub : ℕ → ℕ → ℕ
  pub multiply_ratio : ℕ → ℕ → ℕ → StdResult ℕ
  -- `Uint256`: `Uint128::full_mul`, `+`, `-`, `/`, `try_into::<Uint128>`
  pub full_mul : ℕ → ℕ → ℕ
  pub add_256 : ℕ → ℕ → StdResult ℕ
  pub minus_256 : ℕ → ℕ → StdResult ℕ
  pub div_256 : ℕ → ℕ → StdResult ℕ
  pub into_128 : ℕ → StdResult ℕ
  -- `Decimal`: `from_ratio`, `Uint128 * Decimal`, `+`, `-`
  pub from_ratio : ℕ → ℕ → StdResult ℕ
  pub mul_decimal : ℕ → ℕ → StdResult ℕ
  pub add_decimal : ℕ → ℕ → StdResult ℕ
  pub minus_decimal : ℕ → ℕ → StdResult ℕ

-- A product with a fraction is rounded down, and panics where the denominator is zero.
abbrev pub floor_ratio : ℕ → ℕ → ℕ → StdResult ℕ
floor_ratio a n d = do q ← div (a * n) d; fit u128_mod q

pub record IsDocumented (c : Cosmwasm) : Type 0 where
  pub add_lem : (a b : ℕ) → c.add a b ≡ fit u128_mod (a + b)
  pub minus_lem : (a b : ℕ) → c.minus a b ≡ sub a b
  pub checked_sub_lem : (a b : ℕ) → c.checked_sub a b ≡ checked a b
  pub checked_add_lem : (a b : ℕ) → c.checked_add a b ≡ checked_sum a b
  pub saturating_sub_lem : (a b : ℕ) → c.saturating_sub a b ≡ a - b
  pub multiply_ratio_lem : (a n d : ℕ) → c.multiply_ratio a n d ≡ floor_ratio a n d
  pub full_mul_lem : (a b : ℕ) → c.full_mul a b ≡ a * b
  pub add_256_lem : (a b : ℕ) → c.add_256 a b ≡ fit u256_mod (a + b)
  pub minus_256_lem : (a b : ℕ) → c.minus_256 a b ≡ sub a b
  pub div_256_lem : (a b : ℕ) → c.div_256 a b ≡ div a b
  pub into_128_lem : (a : ℕ) → c.into_128 a ≡ fit u128_mod a
  pub from_ratio_lem : (n d : ℕ) → c.from_ratio n d ≡ floor_ratio n decimal_one d
  pub mul_decimal_lem : (a d : ℕ) → c.mul_decimal a d ≡ floor_ratio a d decimal_one
  pub add_decimal_lem : (a b : ℕ) → c.add_decimal a b ≡ fit u128_mod (a + b)
  pub minus_decimal_lem : (a b : ℕ) → c.minus_decimal a b ≡ sub a b
