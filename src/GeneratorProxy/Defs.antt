-- ===== src/GeneratorProxy/Defs.antt =====
-- contracts/generator_proxy/src/model.rs, state.rs and error.rs, as far as the staking of xASTRO
-- goes.
use baz_core.Common.{
  ℕ, Option, List, Bool, ltb, ◌==◌, ◌||◌, if◌then◌else◌, Result, ok, ◌>>=◌, map_err,
}
use baz_core.Common.Map.{Map}
use baz_core.Cosmwasm.{Cosmwasm, StdError, StdResult}
use baz_core.Host.{Addr, Api}
use baz_core.Assets.{AssetMsg}
use baz_core.Helper.{multiply_ratio_and_ceil}
use baz_core.Ownership.{OwnershipProposal}

pub record AstroGov : Type 0 where
  pub fee_distributor : Addr
  pub generator_controller : Addr
  pub voting_escrow : Addr
  pub xastro_token : Addr

pub record Config : Type 0 where
  pub generator : Addr
  pub astro_gov : AstroGov
  pub owner : Addr
  pub controller : Addr
  pub astro_token : Addr
  pub fee_collector : Addr
  pub max_quota : ℕ
  pub staker_rate : ℕ
  pub boost_fee : ℕ

pub record StakingState : Type 0 where
  pub total_bond_share : ℕ
  pub reward_index : ℕ
  pub next_claim_period : ℕ
  pub total_unstaking_amount : ℕ
  pub total_unstaked_amount : ℕ
  pub unstaking_period : ℕ

pub record StakerInfo : Type 0 where
  pub bond_share : ℕ
  pub reward_index : ℕ
  pub pending_reward : ℕ
  pub unstaking_amount : ℕ
  pub unstaked_amount : ℕ
  pub unstaking_period : ℕ

pub record RewardInfo : Type 0 where
  pub reconciled_amount : ℕ
  pub fee : ℕ
  pub staker_income : ℕ

-- The items that the staking uses; the pools and their users are not among them.
pub record Store : Type 0 where
  pub config : Config
  pub reward_infos : Map RewardInfo
  pub state : StakingState
  pub stakers : Map StakerInfo
  pub proposal : Option OwnershipProposal

pub data ContractError : Type 0 where
  std : StdError → ContractError
  overflow : ContractError
  unauthorized : ContractError
  callback_unauthorized : ContractError
  exceed_quota : ℕ → ContractError

-- `?` on a `StdResult`, and on an `OverflowError`
abbrev pub try : {A : Type 0} → StdResult A → Result ContractError A
try = map_err std

abbrev pub try_overflow : {A : Type 0} → StdResult A → Result ContractError A
try_overflow = map_err (λ _. overflow)

pub record Lock : Type 0 where
  pub amount : ℕ
  pub start : ℕ
  pub end : ℕ
  pub last_extend_lock_period : ℕ

pub data Message : Type 0 where
  -- `Cw20ExecuteMsg::Send` of xASTRO to the escrow, with the hooks `CreateLock`, `ExtendLockAmount`
  create_lock : (xastro_token voting_escrow : Addr) (amount time : ℕ) → Message
  extend_lock_amount : (xastro_token voting_escrow : Addr) (amount : ℕ) → Message
  withdraw_lock : (voting_escrow : Addr) → Message
  claim : (fee_distributor : Addr) → Message
  vote : (generator_controller : Addr) (votes : List (ℕ × ℕ)) → Message
  -- to the contract itself
  relock_self : Message
  after_staking_claimed_self : (prev_balance : ℕ) → Message
  asset_msg : AssetMsg → Message

abbrev pub Outcome : Type 0
Outcome = Result ContractError (Store × List Message)

-- What the contract asks of the governance contracts and of tokens, by the addresses that it asks
-- with; `get_period` and `WEEK` of the crate `astroport_governance`.
pub record Deps : Type 0 where
  pub addr_validate : Api
  -- `addr_validate_to_lower`
  pub addr_validate_to_lower : Api
  pub query_lock : Addr → Addr → StdResult (Option Lock)
  pub query_last_claim_period : Addr → Addr → StdResult (Option ℕ)
  pub query_lock_end : Addr → Addr → StdResult ℕ
  pub query_user_voting_power : Addr → Addr → ℕ → StdResult ℕ
  pub query_total_voting_power : Addr → ℕ → StdResult ℕ
  pub query_rewards_per_week : Addr → ℕ → StdResult (Option ℕ)
  pub query_token_balance : Addr → Addr → StdResult ℕ
  pub get_period : ℕ → StdResult ℕ
  pub week : ℕ

-- `StakerInfo::create`
abbrev pub create : StakingState → StakerInfo
create state = record {
  bond_share = 0;
  reward_index = state.reward_index;
  pending_reward = 0;
  unstaking_amount = 0;
  unstaked_amount = 0;
  unstaking_period = state.unstaking_period;
}

module _ (c : Cosmwasm) where
  unfoldable pub update_staking : StakerInfo → StakingState → StdResult StakerInfo
  update_staking self state =
      if ltb self.unstaking_period state.unstaking_period
      then (do
        unstaked_amount ← c.add self.unstaked_amount self.unstaking_amount
        ok (record self {
          unstaked_amount = unstaked_amount;
          unstaking_amount = 0;
          unstaking_period = state.unstaking_period;
        }))
      else ok self

  -- `StakingState::calc_bond_share`; the last argument is `ceiling`
  unfoldable pub calc_bond_share : StakingState → ℕ → ℕ → Bool → StdResult ℕ
  calc_bond_share self total_bond_amount amount ceiling =
      let total_bond_amount = c.saturating_sub total_bond_amount self.total_unstaking_amount in
      if self.total_bond_share == 0 || total_bond_amount == 0
      then ok amount
      else (if ceiling
          then multiply_ratio_and_ceil c amount self.total_bond_share total_bond_amount
          else c.multiply_ratio amount self.total_bond_share total_bond_amount)
