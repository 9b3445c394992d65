-- ===== src/AstroportFarm/Defs.antt =====
-- contracts/astroport_farm/src/state.rs and error.rs: what the farm stores, and the arithmetic of
-- shares, deposits and the balance that grows over the first day.
use baz_core.Common.{
  ℕ, Option, List, [], ◌∷◌, Bool, ◌&&◌, ltb, ◌==◌, ◌||◌, if◌then◌else◌, Result, ok, ◌>>=◌, map_err,
  not,
}
use baz_core.Common.Words.{sub}
use baz_core.Common.Map.{Map}
use baz_core.Cosmwasm.{Cosmwasm, StdError, StdResult, load}
use baz_core.Helper.{compute_deposit_time, multiply_ratio_and_ceil}
use baz_core.Host.{Addr}
use baz_core.Assets.{Asset, PoolResponse, Expiration}
use baz_core.Ownership.{OwnershipProposal}

pub record Config : Type 0 where
  pub owner : Addr
  pub staking_contract : Addr
  pub compound_proxy : Addr
  pub controller : Addr
  pub fee : ℕ
  pub fee_collector : Addr
  pub liquidity_token : Addr
  pub base_reward_token : Addr
  -- the bytes of the texts
  pub name : List ℕ
  pub symbol : List ℕ
  pub pair : Addr

pub record State : Type 0 where
  pub total_bond_share : ℕ

pub record RewardInfo : Type 0 where
  pub bond_share : ℕ
  pub deposit_amount : ℕ
  pub deposit_time : ℕ
  pub transfer_share : ℕ
  pub deposit_costs : List ℕ

-- `RewardInfo::default()`
abbrev pub default_reward_info : RewardInfo
default_reward_info = record {
  bond_share = 0;
  deposit_amount = 0;
  deposit_time = 0;
  transfer_share = 0;
  deposit_costs = [];
}

-- `cw20::AllowanceResponse`
pub record AllowanceResponse : Type 0 where
  pub allowance : ℕ
  pub expires : Expiration

-- The items and maps of the contract; `ALLOWANCES` is a function of the owner and the spender.
-- Nothing in the contract writes `pool_info`.
pub record Store : Type 0 where
  pub config : Config
  pub state : State
  pub reward : Map RewardInfo
  pub allowances : Addr → Addr → Option AllowanceResponse
  pub pool_info : Option PoolResponse
  pub proposal : Option OwnershipProposal

pub data ContractError : Type 0 where
  std : StdError → ContractError
  unauthorized : ContractError
  invalid_message : ContractError
  unbond_exceed_balance : ContractError
  assertion_minimum_receive : (minimum_receive amount : ℕ) → ContractError
  invalid_zero_amount : ContractError
  expired : ContractError
  no_allowance : ContractError
  cannot_set_own_account : ContractError
  duplicated_asset : ContractError

-- `?` on a `StdResult`
abbrev pub try : {A : Type 0} → StdResult A → Result ContractError A
try = map_err std

pub data ScalingOperation : Type 0 where
  truncate ceil : ScalingOperation

abbrev pub day : ℕ
day = 86400

module _ (c : Cosmwasm) where
  unfoldable pub scale : ScalingOperation → ℕ → ℕ → ℕ → StdResult ℕ
  scale truncate bond_amount total_bond_share lp_balance =
      c.multiply_ratio bond_amount total_bond_share lp_balance
  scale ceil bond_amount total_bond_share lp_balance =
      multiply_ratio_and_ceil c bond_amount total_bond_share lp_balance

  unfoldable pub calc_bond_share : State → ℕ → ℕ → ScalingOperation → StdResult ℕ
  unfolding scale
  calc_bond_share self bond_amount lp_balance scaling_operation =
      if self.total_bond_share == 0 || lp_balance == 0
      then ok bond_amount
      else scale scaling_operation bond_amount self.total_bond_share lp_balance

  unfoldable pub calc_bond_amount : State → ℕ → ℕ → StdResult ℕ
  calc_bond_amount self lp_balance bond_share =
      if self.total_bond_share == 0
      then ok 0
      else c.multiply_ratio lp_balance bond_share self.total_bond_share

  -- the products of a list of amounts with a fraction
  unfoldable pub ratios : List ℕ → ℕ → ℕ → StdResult (List ℕ)
  ratios [] numerator denominator = ok []
  ratios (it ∷ rest) numerator denominator = do
    amount ← c.multiply_ratio it numerator denominator
    others ← ratios rest numerator denominator
    ok (amount ∷ others)

  unfoldable pub asset_amounts : List Asset → List ℕ
  asset_amounts [] = []
  asset_amounts (it ∷ rest) = it.amount ∷ asset_amounts rest

  unfoldable pub no_costs : List ℕ → Bool
  no_costs [] = Bool.true
  no_costs (_ ∷ _) = Bool.false

  unfoldable pub ensure_deposit_costs : RewardInfo → Option PoolResponse → StdResult RewardInfo
  unfolding no_costs
  ensure_deposit_costs self stored =
      if not (self.deposit_amount == 0) && no_costs self.deposit_costs
      then (do
        pool_info ← load stored
        deposit_costs ←
            ratios (asset_amounts pool_info.assets) self.deposit_amount pool_info.total_share
        ok (record self { deposit_costs = deposit_costs }))
      else ok self

  -- The loop of `bond` over the assets: a cost that is missing counts from zero.
  unfoldable pub add_costs : List ℕ → List Asset → ℕ → ℕ → StdResult (List ℕ)
  add_costs costs [] deposit_amount total_share = ok costs
  add_costs [] (asset ∷ assets) deposit_amount total_share = do
    added ← c.multiply_ratio asset.amount deposit_amount total_share
    cost ← c.add 0 added
    rest ← add_costs [] assets deposit_amount total_share
    ok (cost ∷ rest)
  add_costs (old ∷ costs) (asset ∷ assets) deposit_amount total_share = do
    added ← c.multiply_ratio asset.amount deposit_amount total_share
    cost ← c.add old added
    rest ← add_costs costs assets deposit_amount total_share
    ok (cost ∷ rest)

  -- `RewardInfo::bond`
  unfoldable pub bond_reward : RewardInfo → ℕ → ℕ → ℕ → PoolResponse → StdResult RewardInfo
  bond_reward self bond_share deposit_amount time pool_info = do
    share ← c.add self.bond_share bond_share
    amount ← c.add self.deposit_amount deposit_amount
    deposit_time ← compute_deposit_time self.deposit_amount deposit_amount self.deposit_time time
    costs ← add_costs self.deposit_costs pool_info.assets deposit_amount pool_info.total_share
    ok (record {
      bond_share = share;
      deposit_amount = amount;
      deposit_time = deposit_time;
      transfer_share = self.transfer_share;
      deposit_costs = costs;
    })

  -- `RewardInfo::unbond`
  unfoldable pub unbond_reward : RewardInfo → ℕ → StdResult RewardInfo
  unbond_reward self bond_share = do
    old_total_share ← c.add self.bond_share self.transfer_share
    share ← c.checked_sub self.bond_share bond_share
    total_share ← c.add share self.transfer_share
    amount ← c.multiply_ratio self.deposit_amount total_share old_total_share
    costs ← ratios self.deposit_costs total_share old_total_share
    ok (record {
      bond_share = share;
      deposit_amount = amount;
      deposit_time = self.deposit_time;
      transfer_share = self.transfer_share;
      deposit_costs = costs;
    })

  unfoldable pub calc_user_balance : RewardInfo → State → ℕ → ℕ → StdResult ℕ
  calc_user_balance self state lp_balance time = do
    amount ← calc_bond_amount state lp_balance self.bond_share
    deposit_time ← sub time self.deposit_time
    if ltb deposit_time day && ltb self.deposit_amount amount
        then (do
          profit ← c.minus amount self.deposit_amount
          part ← c.multiply_ratio profit deposit_time day
          c.add self.deposit_amount part)
        else ok amount
