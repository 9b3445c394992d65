-- ===== src/AstroportFarm/Compound.antt =====
-- contracts/astroport_farm/src/compound.rs: the rewards go to the compound proxy, less the fee, and
-- the LP tokens that come back are staked.
use baz_core.Common.{
  ℕ, Option, none, some, List, [], ◌∷◌, ◌++◌, Bool, true, false, ◌||◌, ◌==◌, not, if◌then◌else◌, ok,
  ◌>>=◌, ◌>>◌, fail_if, ◌+◌, unwrap_or,
}
use baz_core.Common.Words.{u64_mod, fit}
use baz_core.Cosmwasm.{Cosmwasm, StdResult}
use baz_core.Host.{Addr, Coin, Env, MessageInfo}
use baz_core.Assets.{
  sort_funds, AssetInfo, Asset, AssetMsg, token, native_token, transfer_info,
  increase_allowance_msg,
}
use baz_core.AstroportFarm.Defs.{Config, Store, unauthorized, try}
use baz_core.AstroportFarm.Bond.{
  Deps, Message, Outcome, PendingTokenResponse, asset_msgs, deposit, claim_rewards, compound_msg,
  callback, stake_callback, check_minimum_receive,
}

-- What the loop over the rewards has pushed: `messages`, `compound_funds`, `compound_rewards`.
pub record Plan : Type 0 where
  pub messages : List AssetMsg
  pub funds : List Coin
  pub rewards : List Asset

abbrev pub no_plan : Plan
no_plan = record { messages = []; funds = []; rewards = [] }

abbrev pub is_nil : List Asset → Bool
is_nil [] = true
is_nil (_ ∷ _) = false

-- `rewards.push(..)` and `rewards.extend(..)`
abbrev pub all_rewards : Addr → PendingTokenResponse → List Asset
all_rewards base_reward_token pending_token =
    record { info = token base_reward_token; amount = pending_token.pending }
    ∷ unwrap_or pending_token.pending_on_proxy []

module _ (c : Cosmwasm) (d : Deps) where
  -- The body of `if !compound_amount.is_zero()`: the coin of a native reward carries the whole
  -- amount of the reward.
  unfoldable pub compound_info : AssetInfo → Asset → ℕ → Config → Env → StdResult Plan
  compound_info (native_token denom) asset compound_amount config env = ok (record {
    messages = [];
    funds = record { denom = denom; amount = asset.amount } ∷ [];
    rewards = record { info = native_token denom; amount = compound_amount } ∷ [];
  })
  compound_info (token contract_addr) asset compound_amount config env = do
    height ← fit u64_mod (env.height + 1)
    let compound_asset : Asset = record { info = token contract_addr; amount = compound_amount }
    ok (record {
      messages =
          increase_allowance_msg compound_asset config.compound_proxy (some (d.at_height height))
          ∷ [];
      funds = [];
      rewards = compound_asset ∷ [];
    })

  unfoldable pub commission_msgs : AssetInfo → ℕ → Config → List AssetMsg
  commission_msgs info commission_amount config =
      if commission_amount == 0
      then []
      else transfer_info info commission_amount config.fee_collector ∷ []

  -- One round of the loop over the rewards.
  unfoldable pub plan_reward : Asset → ℕ → Config → Env → StdResult Plan
  plan_reward asset lp_balance config env =
      if asset.amount == 0 || lp_balance == 0 then ok no_plan else do
        commission_amount ← c.mul_decimal asset.amount config.fee
        compound_amount ← c.checked_sub asset.amount commission_amount
        plan ←
            if compound_amount == 0
            then ok no_plan
            else compound_info asset.info asset compound_amount config env
        ok (record plan {
          messages = plan.messages ++ commission_msgs asset.info commission_amount config;
        })

  unfoldable pub plan_rewards : List Asset → ℕ → Config → Env → StdResult Plan
  plan_rewards [] lp_balance config env = ok no_plan
  plan_rewards (asset ∷ assets) lp_balance config env = do
    first ← plan_reward asset lp_balance config env
    rest ← plan_rewards assets lp_balance config env
    ok (record {
      messages = first.messages ++ rest.messages;
      funds = first.funds ++ rest.funds;
      rewards = first.rewards ++ rest.rewards;
    })

  -- The body of `if !compound_rewards.is_empty()`.
  unfoldable pub compound_calls :
      Plan → Option ℕ → Option ℕ → Config → Env → StdResult (List Message)
  compound_calls plan minimum_receive slippage_tolerance config env =
      if is_nil plan.rewards then ok [] else do
        prev_balance ← d.query_token_balance config.liquidity_token env.contract
        ok (
            compound_msg config.compound_proxy plan.rewards (sort_funds plan.funds) none
              slippage_tolerance
            ∷ callback (stake_callback prev_balance minimum_receive)
            ∷ [])

  unfoldable pub compound : Env → MessageInfo → Option ℕ → Option ℕ → Store → Outcome
  compound env info minimum_receive slippage_tolerance s = do
    fail_if (not (info.sender == s.config.controller)) unauthorized
    pending_token ←
        try (d.query_pending_token s.config.staking_contract s.config.liquidity_token env.contract)
    lp_balance ←
        try (d.query_deposit s.config.staking_contract s.config.liquidity_token env.contract)
    plan ← try (
        plan_rewards (all_rewards s.config.base_reward_token pending_token) lp_balance s.config env)
    calls ← try (compound_calls plan minimum_receive slippage_tolerance s.config env)
    ok (
      s,
      claim_rewards s.config.staking_contract (s.config.liquidity_token ∷ [])
          ∷ (asset_msgs plan.messages ++ calls),
    )

  unfoldable pub stake : Env → ℕ → Option ℕ → Store → Outcome
  stake env prev_balance minimum_receive s = do
    balance ← try (d.query_token_balance s.config.liquidity_token env.contract)
    amount ← try (c.minus balance prev_balance)
    check_minimum_receive minimum_receive amount
    ok (s, deposit s.config.staking_contract s.config.liquidity_token amount ∷ [])
