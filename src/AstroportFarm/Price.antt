-- ===== src/AstroportFarm/Price.antt =====
-- The price of a share, in LP tokens, never falls by a bond or an unbond: rounding favours the farm.
use baz_core.Common.{ℕ, ◌+◌, ◌*◌, ◌-◌, ◌≤◌, ◌≡◌, ◌≢◌, ok, arith, ◌⊎◌, >>=-eq-ok}
use baz_core.Common.Arith.{mul_le_mul, div-mul-le, div-le}
use baz_core.Cosmwasm.{Cosmwasm, IsDocumented}
use baz_core.Cosmwasm.Standard.{standard, at_standard}
use baz_core.AstroportFarm.Defs.{
  State, RewardInfo, calc_bond_share, calc_bond_amount, calc_user_balance, truncate, scale, day,
}

pub bond_share_standard :
    (s : State) (amount lp share : ℕ)
    → calc_bond_share standard s amount lp truncate ≡ ok share
    → s.total_bond_share ≢ 0
    → lp ≢ 0
    → share * lp ≤ amount * s.total_bond_share
unfolding calc_bond_share scale
bond_share_standard s amount lp share h t l =
    ground (arith, div-mul-le (amount * s.total_bond_share) lp)

pub calc_bond_amount-standard :
    (s : State) (lp share : ℕ) {amount : ℕ}
    → calc_bond_amount standard s lp share ≡ ok amount
    → amount * s.total_bond_share ≤ lp * share
unfolding calc_bond_amount
calc_bond_amount-standard s lp share h = ground (arith, div-mul-le (lp * share) s.total_bond_share)

balance_after :
    (r : RewardInfo) (s : State) (lp time balance amount : ℕ)
    → calc_bond_amount standard s lp r.bond_share ≡ ok amount
    → calc_user_balance standard r s lp time ≡ ok balance
    → (balance ≤ amount)
      × ((r.deposit_amount ≤ balance) ⊎ (balance ≡ amount))
      × (r.deposit_time + day ≤ time → balance ≡ amount)
unfolding calc_user_balance
balance_after r s lp time balance amount e h =
    let profit = (amount - r.deposit_amount) * (time - r.deposit_time) in
    ground (
      arith,
      div-le (amount - r.deposit_amount) profit day,
      mul_le_mul (amount - r.deposit_amount) (amount - r.deposit_amount) (time - r.deposit_time)
          day,
    )

pub user_balance_standard :
    (r : RewardInfo) (s : State) (lp time balance : ℕ)
    → calc_user_balance standard r s lp time ≡ ok balance
    → (amount : ℕ) × (calc_bond_amount standard s lp r.bond_share ≡ ok amount)
      × (balance ≤ amount)
      × ((r.deposit_amount ≤ balance) ⊎ (balance ≡ amount))
      × (r.deposit_time + day ≤ time → balance ≡ amount)
unfolding calc_user_balance
user_balance_standard r s lp time balance h =
    let (amount, e, _) = >>=-eq-ok (calc_bond_amount standard s lp r.bond_share) _ h in
    let (a, b, f) = balance_after r s lp time balance amount e h in (amount, e, a, b, f)

-- The balance that may be withdrawn is at most what the shares are worth. It is that worth once a
-- day has passed since the deposit, and before that it is that worth or no less than the deposit.
pub user_balance_lem :
    (c : Cosmwasm)
    → IsDocumented c
    → (r : RewardInfo) (s : State) (lp time balance : ℕ)
    → calc_user_balance c r s lp time ≡ ok balance
    → (amount : ℕ) × (calc_bond_amount c s lp r.bond_share ≡ ok amount)
      × (balance ≤ amount)
      × ((r.deposit_amount ≤ balance) ⊎ (balance ≡ amount))
      × (r.deposit_time + day ≤ time → balance ≡ amount)
user_balance_lem = at_standard _ user_balance_standard
