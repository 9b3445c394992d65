-- ===== src/GeneratorProxy/Pools/Call.antt =====
-- contracts/generator_proxy/src/bond.rs: the callbacks, which the contract sends to itself.
use baz_core.Common.{
  ℕ, ◌==◌, if◌then◌else◌, true, false, Option, none, some, List, [], ◌∷◌, Result, ok, ◌>>=◌,
  unwrap_or,
}
use baz_core.Common.Map.{Map, lookup, insert}
use baz_core.Cosmwasm.{Cosmwasm, StdError, generic_err, load}
use baz_core.Host.{Addr, Env}
use baz_core.Assets.{token, transfer_msg}
use baz_core.GeneratorProxy.Defs.{RewardInfo, ContractError, try, try_overflow}
use baz_core.GeneratorProxy.Pools.Defs.{
  PoolInfo, Store, AstroUserInfo, Deps, Message, no_pool, no_rewards, create_user, calc_bond_share,
  generator_withdraw, generator_deposit, asset_msg, after_bond_changed_self,
}
use baz_core.GeneratorProxy.Pools.Reconcile.{get_last, reconcile_to_user_info}
use baz_core.GeneratorProxy.Pools.Bond.{Outcome, Books, found, set_user, save_astro, save_token}

-- "UserInfo not found"
abbrev pub user_info_not_found : StdError
user_info_not_found = generic_err 61

module _ (c : Cosmwasm) (d : Deps) where
  -- the reward in ASTRO since the balance before the claim, where that is known
  unfoldable pub claimed_astro :
      Store → AstroUserInfo → ℕ → Option ℕ → PoolInfo → Result ContractError Books
  claimed_astro s astro_user_info astro_amount none pool_info = ok (pool_info, s.reward_infos)
  claimed_astro s astro_user_info astro_amount (some prev_astro_amount) pool_info = do
    net_astro_amount ← try_overflow (c.checked_sub astro_amount prev_astro_amount)
    try (
        save_astro c d s.config astro_user_info
          (unwrap_or (lookup s.config.astro_token s.reward_infos) no_rewards) net_astro_amount
          (pool_info, s.reward_infos))

  unfoldable pub claimed_token : Addr → Addr → Option ℕ → Books → Result ContractError Books
  claimed_token contract_addr token_addr none books = ok books
  claimed_token contract_addr token_addr (some prev_token_amount) books = do
    token_amount ← try (d.query_token_balance token_addr contract_addr)
    net_token_amount ← try_overflow (c.checked_sub token_amount prev_token_amount)
    try (
        save_token c d token_addr (unwrap_or (lookup token_addr books.1) no_rewards)
          net_token_amount books)

  -- The loop over the other tokens.
  unfoldable pub claimed_tokens : Addr → Map ℕ → Map ℕ → Books → Result ContractError Books
  claimed_tokens contract_addr prev_balances [] books = ok books
  claimed_tokens contract_addr prev_balances ((token_addr, _) ∷ rest) books =
      let go = λ (b : Books). claimed_tokens contract_addr prev_balances rest b in
      do
        books ← claimed_token contract_addr token_addr (get_last token_addr prev_balances) books
        go books

  unfoldable pub callback_after_bond_claimed : Env → Addr → Map ℕ → Store → Outcome
  callback_after_bond_claimed env lp_token prev_balances s = do
    pool_info ← try (load (lookup lp_token s.pools))
    queried ← try (d.query_user_info s.config.generator lp_token env.contract)
    astro_user_info ← try (found user_info_not_found queried)
    astro_amount ← try (d.query_token_balance s.config.astro_token env.contract)
    books ←
        claimed_astro s astro_user_info astro_amount (get_last s.config.astro_token prev_balances)
          pool_info
    (pool_info, rewards) ←
        claimed_tokens env.contract prev_balances astro_user_info.reward_debt_proxy books
    let saved = record pool_info {
      prev_reward_user_index = astro_user_info.reward_user_index;
      prev_reward_debt_proxy = astro_user_info.reward_debt_proxy;
      last_reconcile = env.height;
    }
    ok (record s { pools = insert lp_token saved s.pools; reward_infos = rewards }, [])

  unfoldable pub changed : Option AstroUserInfo → Addr → Store → Outcome
  changed none lp_token s = ok (s, [])
  changed (some astro_user_info) lp_token s = do
    pool_info ← try (load (lookup lp_token s.pools))
    let saved = record pool_info {
      prev_reward_user_index = astro_user_info.reward_user_index;
      prev_reward_debt_proxy = astro_user_info.reward_debt_proxy;
    }
    ok (record s { pools = insert lp_token saved s.pools }, [])

  unfoldable pub callback_after_bond_changed : Env → Addr → Store → Outcome
  callback_after_bond_changed env lp_token s = do
    astro_user_info ← try (d.query_user_info s.config.generator lp_token env.contract)
    changed astro_user_info lp_token s

  unfoldable pub callback_deposit : Env → Addr → Addr → ℕ → Store → Outcome
  callback_deposit env lp_token staker_addr amount s = do
    let pool_info = unwrap_or (lookup lp_token s.pools) no_pool
    let user_info = unwrap_or (lookup staker_addr (s.users lp_token)) (create_user pool_info)
    user_info ← try (reconcile_to_user_info c d pool_info user_info)
    total_bond_amount ← try (d.query_deposit s.config.generator lp_token env.contract)
    share ← try (calc_bond_share c pool_info total_bond_amount amount false)
    bond_share ← try (c.add user_info.bond_share share)
    total_bond_share ← try (c.add pool_info.total_bond_share share)
    ok (
      record s {
        users =
            set_user lp_token staker_addr (record user_info { bond_share = bond_share }) s.users;
        pools = insert lp_token (record pool_info { total_bond_share = total_bond_share }) s.pools;
      },
      generator_deposit s.config.generator lp_token amount ∷ after_bond_changed_self lp_token ∷ [],
    )

  unfoldable pub callback_withdraw : Env → Addr → Addr → ℕ → Store → Outcome
  callback_withdraw env lp_token staker_addr amount s = do
    pool_info ← try (load (lookup lp_token s.pools))
    user_info ← try (load (lookup staker_addr (s.users lp_token)))
    user_info ← try (reconcile_to_user_info c d pool_info user_info)
    total_bond_amount ← try (d.query_deposit s.config.generator lp_token env.contract)
    share ← try (calc_bond_share c pool_info total_bond_amount amount true)
    bond_share ← try_overflow (c.checked_sub user_info.bond_share share)
    total_bond_share ← try_overflow (c.checked_sub pool_info.total_bond_share share)
    ok (
      record s {
        users =
            set_user lp_token staker_addr (record user_info { bond_share = bond_share }) s.users;
        pools = insert lp_token (record pool_info { total_bond_share = total_bond_share }) s.pools;
      },
      generator_withdraw s.config.generator lp_token amount
          ∷ asset_msg (transfer_msg (record { info = token lp_token; amount = amount }) staker_addr)
          ∷ after_bond_changed_self lp_token
          ∷ [],
    )

  -- The loop over the pending rewards.
  unfoldable pub pay_rewards :
      Addr → Map ℕ → Map RewardInfo → Result ContractError (Map RewardInfo × List Message)
  pay_rewards staker_addr [] rewards = ok (rewards, [])
  pay_rewards staker_addr ((token_addr, amount) ∷ rest) rewards =
      let go = λ (r : Map RewardInfo). pay_rewards staker_addr rest r in
      if amount == 0 then go rewards else (do
        reward_info ← try (load (lookup token_addr rewards))
        reconciled_amount ← try_overflow (c.checked_sub reward_info.reconciled_amount amount)
        (rewards, messages) ← go (
            insert token_addr (record reward_info { reconciled_amount = reconciled_amount })
              rewards)
        ok (
          rewards,
          asset_msg (transfer_msg (record { info = token token_addr; amount = amount }) staker_addr)
              ∷ messages,
        ))

  unfoldable pub callback_claim_rewards : Addr → Addr → Store → Outcome
  callback_claim_rewards lp_token staker_addr s = do
    user_info ← try (load (lookup staker_addr (s.users lp_token)))
    pool_info ← try (load (lookup lp_token s.pools))
    user_info ← try (reconcile_to_user_info c d pool_info user_info)
    (rewards, messages) ← pay_rewards staker_addr user_info.pending_rewards s.reward_infos
    ok (
      record s {
        users = set_user lp_token staker_addr (record user_info { pending_rewards = [] }) s.users;
        reward_infos = rewards;
      },
      messages,
    )
