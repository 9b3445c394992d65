-- ===== src/GeneratorProxy/Pools/Bond.antt =====
-- contracts/generator_proxy/src/bond.rs: the handlers and the callbacks.
use baz_core.Common.{
  ℕ, min, ◌==◌, if◌then◌else◌, true, false, Bool, Option, none, some, List, [], ◌∷◌, ◌++◌, Result,
  ok, err, ◌>>=◌, unwrap_or,
}
use baz_core.Common.Map.{Map, lookup, insert}
use baz_core.Cosmwasm.{Cosmwasm, StdError, StdResult, generic_err}
use baz_core.Host.{Addr, HumanAddr, Env, MessageInfo}
use baz_core.GeneratorProxy.Defs.{Config, RewardInfo, ContractError, try}
use baz_core.GeneratorProxy.Pools.Defs.{
  PoolInfo, UserInfo, Store, AstroUserInfo, Deps, Message, no_rewards, generator_withdraw,
  generator_deposit, after_bond_claimed_self, deposit_self, withdraw_self, claim_rewards_self,
}
use baz_core.GeneratorProxy.Pools.Reconcile.{
  get_last, reconcile_astro_reward, reconcile_token_reward, fetch_balance,
}

abbrev pub Outcome : Type 0
Outcome = Result ContractError (Store × List Message)

-- "UserInfo is not found"
abbrev pub user_info_is_not_found : StdError
user_info_is_not_found = generic_err 60

-- `ok_or_else(..)`
abbrev pub found : StdError → Option AstroUserInfo → StdResult AstroUserInfo
found e none = err e
found e (some astro_user_info) = ok astro_user_info

-- A pool and the rewards, which the code changes in place while it reconciles.
abbrev pub Books : Type 0
Books = PoolInfo × Map RewardInfo

-- `set` of a pair of keys
unfoldable pub set_user : Addr → Addr → UserInfo → (Addr → Map UserInfo) → Addr → Map UserInfo
set_user lp_token user user_info users lp =
    if lp == lp_token then insert user user_info (users lp) else users lp

module _ (c : Cosmwasm) (d : Deps) where
  -- The part of a reward in ASTRO, and in another token, where it is not zero.
  unfoldable pub save_astro : Config → AstroUserInfo → RewardInfo → ℕ → Books → StdResult Books
  save_astro config astro_user_info astro_reward net_astro_amount (pool_info, rewards) =
      if net_astro_amount == 0 then ok (pool_info, rewards) else (do
        (pool_info, astro_reward) ←
            reconcile_astro_reward c d config astro_user_info pool_info astro_reward
              net_astro_amount
        ok (pool_info, insert config.astro_token astro_reward rewards))

  unfoldable pub save_token : Addr → RewardInfo → ℕ → Books → StdResult Books
  save_token token_addr token_reward net_token_amount (pool_info, rewards) =
      if net_token_amount == 0 then ok (pool_info, rewards) else (do
        (pool_info, token_reward) ←
            reconcile_token_reward c d token_addr pool_info token_reward net_token_amount
        ok (pool_info, insert token_addr token_reward rewards))

  -- The loop of `reconcile_claimed_by_others` over the other tokens.
  unfoldable pub others_tokens : Addr → Map ℕ → Map ℕ → Books → StdResult (Map ℕ × Books)
  others_tokens contract_addr prev_debts [] books = ok ([], books)
  others_tokens contract_addr prev_debts ((token_addr, debt) ∷ rest) books =
      let go = λ (b : Books). others_tokens contract_addr prev_debts rest b in
      do
        let token_reward = unwrap_or (lookup token_addr books.1) no_rewards
        let prev_debt = unwrap_or (get_last token_addr prev_debts) 0
        let target_add_token_amount = c.saturating_sub debt prev_debt
        token_amount ← d.query_token_balance token_addr contract_addr
        let add_token_amount = c.saturating_sub token_amount token_reward.reconciled_amount
        books ←
            save_token token_addr token_reward (min add_token_amount target_add_token_amount) books
        (balances, books) ← go books
        ok ((token_addr, token_amount) ∷ balances, books)

  -- A pool that has shares and was not reconciled in this block.
  unfoldable pub reconcile_pool :
      Env → Config → Addr → AstroUserInfo → PoolInfo → Store → StdResult (Map ℕ × Store)
  reconcile_pool env config lp_token astro_user_info pool_info s = do
    let astro_reward = unwrap_or (lookup config.astro_token s.reward_infos) no_rewards
    astro_amount ← d.query_token_balance config.astro_token env.contract
    let add_astro_amount = c.saturating_sub astro_amount astro_reward.reconciled_amount
    grown ← c.minus_decimal astro_user_info.reward_user_index pool_info.prev_reward_user_index
    target_add_astro_amount ← c.mul_decimal astro_user_info.virtual_amount grown
    books ←
        save_astro config astro_user_info astro_reward
          (min add_astro_amount target_add_astro_amount) (pool_info, s.reward_infos)
    (balances, (pool_info, rewards)) ←
        others_tokens env.contract pool_info.prev_reward_debt_proxy
          astro_user_info.reward_debt_proxy books
    let saved = record pool_info {
      prev_reward_user_index = astro_user_info.reward_user_index;
      prev_reward_debt_proxy = astro_user_info.reward_debt_proxy;
    }
    ok (
      (config.astro_token, astro_amount) ∷ balances,
      record s { pools = insert lp_token saved s.pools; reward_infos = rewards },
    )

  -- The result is whether to claim, with the balances before, and the store.
  unfoldable pub reconcile_stored :
      Option PoolInfo
      → Env
      → Config
      → Addr
      → AstroUserInfo
      → Store
      → StdResult (Bool × Map ℕ × Store)
  reconcile_stored none env config lp_token astro_user_info s = do
    balances ← fetch_balance c d config env.contract astro_user_info
    ok (true, balances, s)
  reconcile_stored (some pool_info) env config lp_token astro_user_info s =
      if pool_info.total_bond_share == 0
      then (do
        balances ← fetch_balance c d config env.contract astro_user_info
        ok (true, balances, s))
      else (if pool_info.last_reconcile == env.height
          then (do
            balances ← fetch_balance c d config env.contract astro_user_info
            ok (false, balances, s))
          else (do
            (balances, s) ← reconcile_pool env config lp_token astro_user_info pool_info s
            ok (true, balances, s)))

  unfoldable pub reconcile_claimed_by_others :
      Env → Config → Addr → AstroUserInfo → Store → StdResult (Bool × Map ℕ × Store)
  reconcile_claimed_by_others env config lp_token astro_user_info s =
      reconcile_stored (lookup lp_token s.pools) env config lp_token astro_user_info s

  -- the messages of a claim: one unit out and in again
  abbrev pub claim_messages : Bool → Config → Addr → Map ℕ → List Message
  claim_messages false config lp_token prev_balances = []
  claim_messages true config lp_token prev_balances =
      generator_withdraw config.generator lp_token 1
      ∷ generator_deposit config.generator lp_token 1
      ∷ after_bond_claimed_self lp_token prev_balances
      ∷ []

  unfoldable pub claim_if_known :
      Option AstroUserInfo → Env → Addr → Store → StdResult (Store × List Message)
  claim_if_known none env lp_token s = ok (s, [])
  claim_if_known (some astro_user_info) env lp_token s = do
    (claim, prev_balances, s') ← reconcile_claimed_by_others env s.config lp_token astro_user_info s
    ok (s', claim_messages claim s.config lp_token prev_balances)

  unfoldable pub execute_deposit : Env → MessageInfo → Addr → ℕ → Store → Outcome
  execute_deposit env info staker_addr amount s = do
    astro_user_info ← try (d.query_user_info s.config.generator info.sender env.contract)
    (s', messages) ← try (claim_if_known astro_user_info env info.sender s)
    ok (s', messages ++ (deposit_self info.sender staker_addr amount ∷ []))

  unfoldable pub execute_withdraw : Env → MessageInfo → HumanAddr → ℕ → Store → Outcome
  execute_withdraw env info lp_token amount s = do
    lp_token ← try (d.addr_validate lp_token)
    queried ← try (d.query_user_info s.config.generator lp_token env.contract)
    astro_user_info ← try (found user_info_is_not_found queried)
    (s', messages) ← try (claim_if_known (some astro_user_info) env lp_token s)
    ok (s', messages ++ (withdraw_self lp_token info.sender amount ∷ []))

  -- The loop over the LP tokens.
  unfoldable pub execute_claim_rewards : Env → MessageInfo → List HumanAddr → Store → Outcome
  execute_claim_rewards env info [] s = ok (s, [])
  execute_claim_rewards env info (text ∷ rest) s =
      let go = λ (t : Store). execute_claim_rewards env info rest t in
      do
        lp_token ← try (d.addr_validate text)
        queried ← try (d.query_user_info s.config.generator lp_token env.contract)
        astro_user_info ← try (found user_info_is_not_found queried)
        (s', messages) ← try (claim_if_known (some astro_user_info) env lp_token s)
        (s'', others) ← go s'
        ok (s'', messages ++ (claim_rewards_self lp_token info.sender ∷ others))
