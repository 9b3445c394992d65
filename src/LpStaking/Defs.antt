-- ===== src/LpStaking/Defs.antt =====
-- contracts/lp_staking/src/state.rs, error.rs, and the arithmetic of contract.rs.
use baz_core.Common.{
  ℕ, Option, List, [], ◌∷◌, ◌||◌, min, max, ltb, ◌==◌, if◌then◌else◌, Result, ok, ◌>>=◌, unwrap_or,
  map_err,
}
use baz_core.Common.Words.{sub}
use baz_core.Common.Map.{Map, lookup}
use baz_core.Cosmwasm.{Cosmwasm, StdError, StdResult}
use baz_core.Host.{Addr}
use baz_core.Ownership.{OwnershipProposal}

-- (start, end, amount) of `distribution_schedule`
abbrev pub Slot : Type 0
Slot = ℕ × ℕ × ℕ

pub record Config : Type 0 where
  pub owner : Addr
  pub reward_token : Addr
  pub staking_token : Addr
  pub distribution_schedule : List Slot

pub record State : Type 0 where
  pub last_distributed : ℕ
  pub total_bond_amount : ℕ
  pub global_reward_index : ℕ

pub record RewardInfo : Type 0 where
  pub reward_index : ℕ
  pub bond_amount : ℕ
  pub pending_reward : ℕ

-- the items and the map that the contract stores
pub record Store : Type 0 where
  pub config : Config
  pub state : State
  pub reward_infos : Map RewardInfo
  pub proposal : Option OwnershipProposal

pub data ContractError : Type 0 where
  std : StdError → ContractError
  unauthorized : ContractError
  invalid_message : ContractError
  unbond_exceed_balance : ContractError
  invalid_distribution_schedule : ContractError
  distribution_schedule_started : ContractError

-- `?` on a `StdResult`
abbrev pub try : {A : Type 0} → StdResult A → Result ContractError A
try = map_err std

abbrev pub default_reward_info : RewardInfo
default_reward_info = record { reward_index = 0; bond_amount = 0; pending_reward = 0 }

unfoldable pub read_reward_info : Map RewardInfo → Addr → RewardInfo
read_reward_info reward_infos owner = unwrap_or (lookup owner reward_infos) default_reward_info

module _ (c : Cosmwasm) where
  -- one round of the loop in `compute_reward`
  unfoldable pub distribute_slot : ℕ → ℕ → Slot → ℕ → StdResult ℕ
  distribute_slot time_seconds last_distributed s distributed_amount =
      if ltb time_seconds s.0 || ltb s.1 last_distributed then ok distributed_amount else do
        passed_time ← sub (min s.1 time_seconds) (max s.0 last_distributed)
        time ← sub s.1 s.0
        distribution_amount_per_second ← c.from_ratio s.2 time
        amount ← c.mul_decimal passed_time distribution_amount_per_second
        c.add distributed_amount amount

  unfoldable pub distribute : ℕ → ℕ → List Slot → ℕ → StdResult ℕ
  distribute time_seconds last_distributed [] distributed_amount = ok distributed_amount
  distribute time_seconds last_distributed (s ∷ rest) distributed_amount = do
    next ← distribute_slot time_seconds last_distributed s distributed_amount
    distribute time_seconds last_distributed rest next

  unfoldable pub compute_reward : Config → State → ℕ → StdResult State
  compute_reward config state time_seconds =
      if state.total_bond_amount == 0
      then ok (record state { last_distributed = time_seconds })
      else do
        distributed_amount ←
            distribute time_seconds state.last_distributed config.distribution_schedule 0
        added ← c.from_ratio distributed_amount state.total_bond_amount
        index ← c.add_decimal state.global_reward_index added
        ok (record state { last_distributed = time_seconds; global_reward_index = index })

  unfoldable pub compute_staker_reward : State → RewardInfo → StdResult RewardInfo
  compute_staker_reward state reward_info = do
    earned ← c.mul_decimal reward_info.bond_amount state.global_reward_index
    paid ← c.mul_decimal reward_info.bond_amount reward_info.reward_index
    pending_reward ← c.checked_sub earned paid
    pending ← c.add reward_info.pending_reward pending_reward
    ok (record reward_info { reward_index = state.global_reward_index; pending_reward = pending })

  unfoldable pub increase_bond_amount : State → RewardInfo → ℕ → StdResult (State × RewardInfo)
  increase_bond_amount state reward_info amount = do
    total ← c.add state.total_bond_amount amount
    bonded ← c.add reward_info.bond_amount amount
    ok (record state { total_bond_amount = total }, record reward_info { bond_amount = bonded })

  unfoldable pub decrease_bond_amount : State → RewardInfo → ℕ → StdResult (State × RewardInfo)
  decrease_bond_amount state reward_info amount = do
    total ← c.checked_sub state.total_bond_amount amount
    bonded ← c.checked_sub reward_info.bond_amount amount
    ok (record state { total_bond_amount = total }, record reward_info { bond_amount = bonded })
