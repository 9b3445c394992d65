-- ===== src/Cosmwasm/Standard.antt =====
-- The documentation determines the arithmetic: an implementation that meets it is the one below,
-- so what holds of that one holds of each.
use baz_core.Common.{◌+◌, ◌-◌, ◌*◌, ◌≡◌, refl, sym, subst}
use baz_core.Common.Words.{u128_mod, u256_mod, fit, sub, div}
use baz_core.Cosmwasm.{Cosmwasm, IsDocumented, checked, checked_sum, floor_ratio, decimal_one}

abbrev pub standard : Cosmwasm
standard = record {
  add = λ a b. fit u128_mod (a + b);
  minus = sub;
  checked_sub = checked;
  checked_add = checked_sum;
  saturating_sub = ◌-◌;
  multiply_ratio = floor_ratio;
  full_mul = ◌*◌;
  add_256 = λ a b. fit u256_mod (a + b);
  minus_256 = sub;
  div_256 = div;
  into_128 = fit u128_mod;
  from_ratio = λ n d. floor_ratio n decimal_one d;
  mul_decimal = λ a d. floor_ratio a d decimal_one;
  add_decimal = λ a b. fit u128_mod (a + b);
  minus_decimal = sub;
}

pub standard-IsDocumented : IsDocumented standard
standard-IsDocumented = record {
  add_lem = λ _ _. refl;
  minus_lem = λ _ _. refl;
  checked_sub_lem = λ _ _. refl;
  checked_add_lem = λ _ _. refl;
  saturating_sub_lem = λ _ _. refl;
  multiply_ratio_lem = λ _ _ _. refl;
  full_mul_lem = λ _ _. refl;
  add_256_lem = λ _ _. refl;
  minus_256_lem = λ _ _. refl;
  div_256_lem = λ _ _. refl;
  into_128_lem = λ _. refl;
  from_ratio_lem = λ _ _. refl;
  mul_decimal_lem = λ _ _. refl;
  add_decimal_lem = λ _ _. refl;
  minus_decimal_lem = λ _ _. refl;
}

standard_unique : (c : Cosmwasm) → IsDocumented c → c ≡ standard
standard_unique c d = λ i. record {
  add = λ a b. d.add_lem a b i;
  minus = λ a b. d.minus_lem a b i;
  checked_sub = λ a b. d.checked_sub_lem a b i;
  checked_add = λ a b. d.checked_add_lem a b i;
  saturating_sub = λ a b. d.saturating_sub_lem a b i;
  multiply_ratio = λ a n m. d.multiply_ratio_lem a n m i;
  full_mul = λ a b. d.full_mul_lem a b i;
  add_256 = λ a b. d.add_256_lem a b i;
  minus_256 = λ a b. d.minus_256_lem a b i;
  div_256 = λ a b. d.div_256_lem a b i;
  into_128 = λ a. d.into_128_lem a i;
  from_ratio = λ n m. d.from_ratio_lem n m i;
  mul_decimal = λ a m. d.mul_decimal_lem a m i;
  add_decimal = λ a b. d.add_decimal_lem a b i;
  minus_decimal = λ a b. d.minus_decimal_lem a b i;
}

-- To prove a statement of every documented implementation, prove it of the standard one.
pub at_standard {ℓ} : (P : Cosmwasm → Type ℓ) → P standard → (c : Cosmwasm) → IsDocumented c → P c
at_standard P p c d = subst P (sym (standard_unique c d)) p
