-- ===== src/GeneratorProxy/Pools/Defs.antt =====
-- contracts/generator_proxy/src/model.rs and state.rs: the pools and their users. The
-- `RestrictedVector` of the crate `astroport` is shown by its entries; its `update` is a parameter.
use baz_core.Common.{ℕ, ◌==◌, ◌||◌, if◌then◌else◌, Option, Bool, List, ok}
use baz_core.Common.Map.{Map}
use baz_core.Cosmwasm.{Cosmwasm, StdResult}
use baz_core.Host.{Addr, Api}
use baz_core.Assets.{AssetMsg}
use baz_core.Helper.{multiply_ratio_and_ceil}
use baz_core.GeneratorProxy.Defs.{Config, RewardInfo}

pub record PoolInfo : Type 0 where
  pub total_bond_share : ℕ
  pub reward_indexes : Map ℕ
  pub prev_reward_user_index : ℕ
  pub prev_reward_debt_proxy : Map ℕ
  pub last_reconcile : ℕ

-- `PoolInfo::default()`
abbrev pub no_pool : PoolInfo
no_pool = record {
  total_bond_share = 0;
  reward_indexes = List.[];
  prev_reward_user_index = 0;
  prev_reward_debt_proxy = List.[];
  last_reconcile = 0;
}

pub record UserInfo : Type 0 where
  pub bond_share : ℕ
  pub reward_indexes : Map ℕ
  pub pending_rewards : Map ℕ

-- `UserInfo::create`
abbrev pub create_user : PoolInfo → UserInfo
create_user pool_info = record {
  bond_share = 0;
  reward_indexes = pool_info.reward_indexes;
  pending_rewards = List.[];
}

-- `RewardInfo::default()`
abbrev pub no_rewards : RewardInfo
no_rewards = record { reconciled_amount = 0; fee = 0; staker_income = 0 }

-- The items that the pools use. `USER_INFO` has a map of users for each LP token.
pub record Store : Type 0 where
  pub config : Config
  pub reward_infos : Map RewardInfo
  pub pools : Map PoolInfo
  pub users : Addr → Map UserInfo

-- `UserInfoV2` of the generator
pub record AstroUserInfo : Type 0 where
  pub amount : ℕ
  pub reward_user_index : ℕ
  pub reward_debt_proxy : Map ℕ
  pub virtual_amount : ℕ

pub record Deps : Type 0 where
  pub addr_validate : Api
  -- of the generator, for an LP token and an account
  pub query_user_info : Addr → Addr → Addr → StdResult (Option AstroUserInfo)
  pub query_deposit : Addr → Addr → Addr → StdResult ℕ
  pub query_token_balance : Addr → Addr → StdResult ℕ
  -- `RestrictedVector::update`, for decimals and for amounts
  pub update_index : Map ℕ → Addr → ℕ → StdResult (Map ℕ)
  pub update_amount : Map ℕ → Addr → ℕ → StdResult (Map ℕ)

pub data Message : Type 0 where
  -- to the generator, and by `Send` to the token with the hook for the generator
  generator_withdraw : (generator lp_token : Addr) (amount : ℕ) → Message
  generator_deposit : (generator lp_token : Addr) (amount : ℕ) → Message
  asset_msg : AssetMsg → Message
  -- to the contract itself
  after_bond_claimed_self : (lp_token : Addr) (prev_balances : Map ℕ) → Message
  deposit_self : (lp_token staker_addr : Addr) (amount : ℕ) → Message
  withdraw_self : (lp_token staker_addr : Addr) (amount : ℕ) → Message
  after_bond_changed_self : (lp_token : Addr) → Message
  claim_rewards_self : (lp_token staker_addr : Addr) → Message

module _ (c : Cosmwasm) where
  -- `PoolInfo::calc_bond_share`; the last argument is `ceiling`
  unfoldable pub calc_bond_share : PoolInfo → ℕ → ℕ → Bool → StdResult ℕ
  calc_bond_share self total_bond_amount amount ceiling =
      if self.total_bond_share == 0 || total_bond_amount == 0
      then ok amount
      else (if ceiling
          then multiply_ratio_and_ceil c amount self.total_bond_share total_bond_amount
          else c.multiply_ratio amount self.total_bond_share total_bond_amount)
