-- ===== src/AstroportFarm/Bond.antt =====
-- contracts/astroport_farm/src/bond.rs: bonding and unbonding. A handler takes the store and gives
-- the store that is saved and the messages that are sent; event attributes are left out.
use baz_core.Common.{
  ℕ, Option, none, some, List, [], ◌∷◌, ◌++◌, Bool, ◌&&◌, ltb, ◌==◌, not, if◌then◌else◌, Result, ok,
  panic, ◌>>=◌, ◌>>◌, fail_if, unwrap_or, ◌+◌,
}
use baz_core.Common.Words.{u64_mod, fit}
use baz_core.Common.Map.{lookup, insert}
use baz_core.Cosmwasm.{load, Cosmwasm, StdResult}
use baz_core.Helper.{multiply_ratio_and_ceil}
use baz_core.Host.{Addr, HumanAddr, Api, Coin, Env, MessageInfo}
use baz_core.Assets.{
  sort_funds, asset_info_eq, AssetInfo, Asset, PoolResponse, Expiration, AssetMsg, token,
  native_token, deposit_asset, increase_allowance_msg, transfer,
}
use baz_core.AstroportFarm.Defs.{
  Config, Store, ContractError, unauthorized, unbond_exceed_balance, assertion_minimum_receive,
  invalid_zero_amount, duplicated_asset, try, default_reward_info, truncate, calc_bond_share,
  calc_bond_amount, ensure_deposit_costs, bond_reward, unbond_reward, calc_user_balance,
}

-- `PendingTokenResponse` of the generator
pub record PendingTokenResponse : Type 0 where
  pub pending : ℕ
  pub pending_on_proxy : Option (List Asset)

-- What the contract asks of other contracts and of the crates `astroport` and `cw20`. The querier's
-- answers are those of the moment of the call.
pub record Deps : Type 0 where
  pub addr_validate : Api
  -- `Generator::query_deposit`, by the generator, the LP token and the staker
  pub query_deposit : Addr → Addr → Addr → StdResult ℕ
  pub query_pending_token : Addr → Addr → Addr → StdResult PendingTokenResponse
  -- by the token and the account
  pub query_token_balance : Addr → Addr → StdResult ℕ
  pub query_pool_info : Addr → StdResult PoolResponse
  pub assert_sent_native_token_balance : Asset → MessageInfo → StdResult (Unit {0})
  pub at_height : ℕ → Expiration
  pub never : Expiration
  pub is_expired : Expiration → Env → Bool

-- `CallbackMsg`
pub data CallbackMsg : Type 0 where
  stake_callback : (prev_balance : ℕ) (minimum_receive : Option ℕ) → CallbackMsg
  bond_to_callback : (to : Addr) (prev_balance : ℕ) (minimum_receive : Option ℕ) → CallbackMsg

pub data Message : Type 0 where
  asset_msg : AssetMsg → Message
  -- to the generator: `deposit_msg`, `withdraw_msg`, `claim_rewards_msg`
  deposit : (generator lp_token : Addr) (amount : ℕ) → Message
  withdraw : (generator lp_token : Addr) (amount : ℕ) → Message
  claim_rewards : (generator : Addr) (lp_tokens : List Addr) → Message
  -- `Compounder::compound_msg`, with the coins that go with it
  compound_msg :
      (proxy : Addr) (rewards : List Asset) (funds : List Coin) (no_swap : Option Bool)
      (slippage_tolerance : Option ℕ)
      → Message
  -- to the contract itself
  callback : CallbackMsg → Message
  -- `Cw20ReceiveMsg` to a contract; the message is passed on as it is
  receive_msg : (contract : HumanAddr) (sender : Addr) (amount msg : ℕ) → Message

abbrev pub Outcome : Type 0
Outcome = Result ContractError (Store × List Message)

abbrev pub asset_msgs : List AssetMsg → List Message
asset_msgs [] = []
asset_msgs (m ∷ ms) = asset_msg m ∷ asset_msgs ms

-- `asset.eq(low_asset)`, the same asset and the same amount
unfoldable pub asset_eq : Asset → Asset → Bool
asset_eq a b = asset_info_eq a.info b.info && a.amount == b.amount

-- The loop over `assets[1..]`, and the index `assets[0]`, which panics where there is none.
unfoldable pub check_neighbours : Asset → List Asset → Result ContractError (Unit {0})
check_neighbours low_asset [] = ok tt
check_neighbours low_asset (asset ∷ rest) = do
  fail_if (asset_eq asset low_asset) duplicated_asset
  check_neighbours asset rest

unfoldable pub check_duplicates : List Asset → Result ContractError (Unit {0})
check_duplicates [] = panic
check_duplicates (low_asset ∷ rest) = check_neighbours low_asset rest

-- `if let Some(minimum_receive)`, as `bond_to` and `stake` have it
unfoldable pub check_minimum_receive : Option ℕ → ℕ → Result ContractError (Unit {0})
check_minimum_receive none amount = ok tt
check_minimum_receive (some minimum_receive) amount =
    fail_if (ltb amount minimum_receive) (assertion_minimum_receive minimum_receive amount)

module _ (d : Deps) where
  -- What one round of the loop pushes to `messages` and `funds`.
  unfoldable pub forward_info :
      AssetInfo → Asset → Config → Env → StdResult (List AssetMsg × List Coin)
  forward_info (native_token denom) asset config env =
      ok ([], record { denom = denom; amount = asset.amount } ∷ [])
  forward_info (token contract_addr) asset config env = do
    height ← fit u64_mod (env.height + 1)
    ok (increase_allowance_msg asset config.compound_proxy (some (d.at_height height)) ∷ [], [])

  unfoldable pub forward_assets :
      List Asset → Config → Env → MessageInfo → StdResult (List AssetMsg × List Coin)
  forward_assets [] config env info = ok ([], [])
  forward_assets (asset ∷ assets) config env info = do
    deposits ← deposit_asset d.assert_sent_native_token_balance asset info env.contract
    (messages, funds) ←
        if asset.amount == 0 then ok ([], []) else forward_info asset.info asset config env
    (more, coins) ← forward_assets assets config env info
    ok (deposits ++ (messages ++ more), funds ++ coins)

  unfoldable pub bond_assets :
      Env → MessageInfo → List Asset → Option ℕ → Option Bool → Option ℕ → Store → Outcome
  bond_assets env info assets minimum_receive no_swap slippage_tolerance s = do
    check_duplicates assets
    (messages, funds) ← try (forward_assets assets s.config env info)
    prev_balance ← try (d.query_token_balance s.config.liquidity_token env.contract)
    ok (
      s,
      asset_msgs messages
          ++ (compound_msg s.config.compound_proxy assets (sort_funds funds) no_swap
                slippage_tolerance
              ∷ callback (bond_to_callback info.sender prev_balance minimum_receive)
              ∷ []),
    )

module _ (c : Cosmwasm) (d : Deps) where
  unfoldable pub bond_internal : Env → Addr → ℕ → Store → Outcome
  bond_internal env staker_addr amount s = do
    lp_balance ←
        try (d.query_deposit s.config.staking_contract s.config.liquidity_token env.contract)
    let reward_info = unwrap_or (lookup staker_addr s.reward) default_reward_info
    bond_share ← try (calc_bond_share c s.state amount lp_balance truncate)
    total_bond_share ← try (c.add s.state.total_bond_share bond_share)
    balance ← try (c.add lp_balance amount)
    let state = record s.state { total_bond_share = total_bond_share }
    deposit_amount ← try (calc_bond_amount c state balance bond_share)
    pool_info ← try (d.query_pool_info s.config.pair)
    reward_info ← try (ensure_deposit_costs c reward_info s.pool_info)
    reward_info ← try (bond_reward c reward_info bond_share deposit_amount env.time pool_info)
    ok (
      record s { state = state; reward = insert staker_addr reward_info s.reward },
      deposit s.config.staking_contract s.config.liquidity_token amount ∷ [],
    )

  unfoldable pub bond_to : Env → Addr → ℕ → Option ℕ → Store → Outcome
  bond_to env to prev_balance minimum_receive s = do
    balance ← try (d.query_token_balance s.config.liquidity_token env.contract)
    amount ← try (c.minus balance prev_balance)
    check_minimum_receive minimum_receive amount
    bond_internal env to amount s

  unfoldable pub bond : Env → MessageInfo → HumanAddr → ℕ → Store → Outcome
  bond env info sender_addr amount s = do
    staker_addr ← try (d.addr_validate sender_addr)
    fail_if (not (s.config.liquidity_token == info.sender)) unauthorized
    bond_internal env staker_addr amount s

  unfoldable pub unbond : Env → MessageInfo → ℕ → Store → Outcome
  unbond env info amount s = do
    fail_if (amount == 0) invalid_zero_amount
    lp_balance ←
        try (d.query_deposit s.config.staking_contract s.config.liquidity_token env.contract)
    reward_info ← try (load (lookup info.sender s.reward))
    user_balance ← try (calc_user_balance c reward_info s.state lp_balance env.time)
    fail_if (ltb user_balance amount) unbond_exceed_balance
    bond_share ← try (multiply_ratio_and_ceil c reward_info.bond_share amount user_balance)
    total_bond_share ← try (c.checked_sub s.state.total_bond_share bond_share)
    reward_info ← try (unbond_reward c reward_info bond_share)
    ok (
      record s {
        state = record s.state { total_bond_share = total_bond_share };
        reward = insert info.sender reward_info s.reward;
      },
      withdraw s.config.staking_contract s.config.liquidity_token amount
          ∷ asset_msg (transfer s.config.liquidity_token info.sender amount)
          ∷ [],
    )
