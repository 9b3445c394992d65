-- ===== src/GeneratorProxy/Pools/Reconcile.antt =====
-- contracts/generator_proxy/src/bond.rs: the rewards that came in are divided and put into the
-- indexes of a pool, and from there to a user.
use baz_core.Common.{ℕ, ◌==◌, if◌then◌else◌, Option, none, some, [], ◌∷◌, ok, ◌>>=◌, unwrap_or}
use baz_core.Common.Map.{Map}
use baz_core.Cosmwasm.{Cosmwasm, StdResult}
use baz_core.Host.{Addr}
use baz_core.GeneratorProxy.Defs.{Config, RewardInfo}
use baz_core.GeneratorProxy.Pools.Defs.{PoolInfo, UserInfo, AstroUserInfo, Deps}

-- `Decimal::percent(40)`
abbrev pub based_part : ℕ
based_part = 400_000_000_000_000_000

-- The value of the last entry with the key, as in a `HashMap` collected from the entries.
unfoldable pub get_last : Addr → Map ℕ → Option ℕ
get_last token [] = none
get_last token ((k, v) ∷ rest) =
    let later = get_last token rest in
    elim later [ some w ↦ some w | none ↦ if k == token then some v else none ]

module _ (c : Cosmwasm) (d : Deps) where
  unfoldable pub reconcile_astro_reward :
      Config → AstroUserInfo → PoolInfo → RewardInfo → ℕ → StdResult (PoolInfo × RewardInfo)
  reconcile_astro_reward config astro_user_info pool_info astro_reward net_astro_amount = do
    based_amount ← c.mul_decimal astro_user_info.amount based_part
    based_astro ← c.multiply_ratio net_astro_amount based_amount astro_user_info.virtual_amount
    boosted_astro ← c.checked_sub net_astro_amount based_astro
    fee ← c.mul_decimal boosted_astro config.boost_fee
    net_boosted_astro ← c.minus boosted_astro fee
    to_staker ← c.mul_decimal net_boosted_astro config.staker_rate
    net_to_lp ← c.minus net_boosted_astro to_staker
    to_lp ← c.add net_to_lp based_astro
    astro_per_share ← c.from_ratio to_lp pool_info.total_bond_share
    fees ← c.add astro_reward.fee fee
    staker_income ← c.add astro_reward.staker_income to_staker
    reconciled_amount ← c.add astro_reward.reconciled_amount net_astro_amount
    reward_indexes ← d.update_index pool_info.reward_indexes config.astro_token astro_per_share
    ok (
      record pool_info { reward_indexes = reward_indexes },
      record { fee = fees; staker_income = staker_income; reconciled_amount = reconciled_amount },
    )

  unfoldable pub reconcile_token_reward :
      Addr → PoolInfo → RewardInfo → ℕ → StdResult (PoolInfo × RewardInfo)
  reconcile_token_reward token pool_info token_reward net_token_amount = do
    token_per_share ← c.from_ratio net_token_amount pool_info.total_bond_share
    reconciled_amount ← c.add token_reward.reconciled_amount net_token_amount
    reward_indexes ← d.update_index pool_info.reward_indexes token token_per_share
    ok (
      record pool_info { reward_indexes = reward_indexes },
      record token_reward { reconciled_amount = reconciled_amount },
    )

  -- The loop of `fetch_balance`, and the whole.
  unfoldable pub fetch_tokens : Addr → Map ℕ → StdResult (Map ℕ)
  fetch_tokens contract_addr [] = ok []
  fetch_tokens contract_addr ((token, _) ∷ rest) = do
    token_amount ← d.query_token_balance token contract_addr
    balances ← fetch_tokens contract_addr rest
    ok ((token, token_amount) ∷ balances)

  unfoldable pub fetch_balance : Config → Addr → AstroUserInfo → StdResult (Map ℕ)
  fetch_balance config contract_addr astro_user_info = do
    astro_amount ← d.query_token_balance config.astro_token contract_addr
    balances ← fetch_tokens contract_addr astro_user_info.reward_debt_proxy
    ok ((config.astro_token, astro_amount) ∷ balances)

  -- The loop over the user's pool: what a user earned since the last time.
  unfoldable pub add_rewards : Map ℕ → Map ℕ → ℕ → Map ℕ → StdResult (Map ℕ)
  add_rewards [] user_indexes bond_share pending_rewards = ok pending_rewards
  add_rewards ((token, index) ∷ rest) user_indexes bond_share pending_rewards =
      let go = λ (pending : Map ℕ). add_rewards rest user_indexes bond_share pending in
      do
        grown ← c.minus_decimal index (unwrap_or (get_last token user_indexes) 0)
        amount ← c.mul_decimal bond_share grown
        pending_rewards ← d.update_amount pending_rewards token amount
        go pending_rewards

  unfoldable pub reconcile_to_user_info : PoolInfo → UserInfo → StdResult UserInfo
  reconcile_to_user_info pool_info user_info = do
    pending_rewards ←
        add_rewards pool_info.reward_indexes user_info.reward_indexes user_info.bond_share
          user_info.pending_rewards
    ok (record user_info {
      pending_rewards = pending_rewards;
      reward_indexes = pool_info.reward_indexes;
    })
