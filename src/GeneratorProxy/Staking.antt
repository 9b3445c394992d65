-- ===== src/GeneratorProxy/Staking.antt =====
-- contracts/generator_proxy/src/staking.rs.
use baz_core.Common.{
  ℕ, min, leb, ltb, not, ◌==◌, ◌&&◌, if◌then◌else◌, true, false, Option, List, [], ◌∷◌, ok, ◌>>=◌,
  ◌>>◌, fail_if, unwrap_or,
}
use baz_core.Common.Map.{lookup, insert}
use baz_core.Cosmwasm.{Cosmwasm, StdResult, load}
use baz_core.Host.{Addr, Env, MessageInfo}
use baz_core.Assets.{token, transfer_msg}
use baz_core.GeneratorProxy.Defs.{
  Config, StakingState, StakerInfo, RewardInfo, Store, Lock, Message, Outcome, Deps, try,
  try_overflow, unauthorized, exceed_quota, create_lock, extend_lock_amount, withdraw_lock, claim,
  relock_self, after_staking_claimed_self, asset_msg, create, update_staking, calc_bond_share,
}
use baz_core.GeneratorProxy.Governance.{query_lock, query_last_claim_period, calc_claim_amount}

module _ (c : Cosmwasm) where
  unfoldable pub reconcile_staker_income :
      RewardInfo → StakingState → StdResult (RewardInfo × StakingState)
  reconcile_staker_income astro_reward state =
      if state.total_bond_share == 0 then ok (astro_reward, state) else (do
        income_per_share ← c.from_ratio astro_reward.staker_income state.total_bond_share
        reward_index ← c.add_decimal state.reward_index income_per_share
        ok (
          record astro_reward { staker_income = 0 },
          record state { reward_index = reward_index },
        ))

  unfoldable pub reconcile_to_staker_info : StakingState → StakerInfo → StdResult StakerInfo
  reconcile_to_staker_info state staker_info = do
    grown ← c.minus_decimal state.reward_index staker_info.reward_index
    earned ← c.mul_decimal staker_info.bond_share grown
    pending_reward ← c.add staker_info.pending_reward earned
    ok (record staker_info { pending_reward = pending_reward; reward_index = state.reward_index })

module _ (c : Cosmwasm) (d : Deps) where
  -- the messages that lock the deposit
  unfoldable pub lock_messages : Env → Config → Lock → ℕ → StdResult (List Message)
  lock_messages env config lock amount =
      let gov = config.astro_gov in
      if lock.amount == 0
      then ok (create_lock gov.xastro_token gov.voting_escrow amount d.week ∷ [])
      else (do
        period ← d.get_period env.time
        let extend = extend_lock_amount gov.xastro_token gov.voting_escrow amount ∷ []
        ok (if leb lock.end period then relock_self ∷ extend else extend))

  -- the part of `execute_stake` after its messages
  unfoldable pub save_stake : Lock → Addr → ℕ → List Message → Store → Outcome
  save_stake lock staker_addr amount messages s = do
    astro_reward ← try (load (lookup s.config.astro_token s.reward_infos))
    let staker_info = unwrap_or (lookup staker_addr s.stakers) (create s.state)
    (astro_reward, state) ← try (reconcile_staker_income c astro_reward s.state)
    staker_info ← try (reconcile_to_staker_info c state staker_info)
    share ← try (calc_bond_share c state lock.amount amount false)
    bond_share ← try (c.add staker_info.bond_share share)
    total_bond_share ← try (c.add state.total_bond_share share)
    ok (
      record s {
        stakers = insert staker_addr (record staker_info { bond_share = bond_share }) s.stakers;
        state = record state { total_bond_share = total_bond_share };
        reward_infos = insert s.config.astro_token astro_reward s.reward_infos;
      },
      messages,
    )

  unfoldable pub execute_stake : Env → MessageInfo → Addr → ℕ → Store → Outcome
  execute_stake env info staker_addr amount s = do
    fail_if (not (info.sender == s.config.astro_gov.xastro_token)) unauthorized
    lock ← try (query_lock d s.config.astro_gov env.contract)
    locked ← try (c.add lock.amount amount)
    fail_if (ltb s.config.max_quota locked)
        (exceed_quota (c.saturating_sub s.config.max_quota lock.amount))
    messages ← try (lock_messages env s.config lock amount)
    save_stake lock staker_addr amount messages s

  -- The result is the balance, and what the code changes in place.
  unfoldable pub reconcile_staking_claim_by_others :
      Env → Config → RewardInfo → StakingState → StdResult (ℕ × RewardInfo × StakingState)
  reconcile_staking_claim_by_others env config astro_reward state = do
    current_period ← query_last_claim_period d config.astro_gov env.contract
    target_add_astro_amount ←
        calc_claim_amount c d config.astro_gov env.contract state.next_claim_period current_period
    astro_amount ← d.query_token_balance config.astro_token env.contract
    let add_astro_amount = c.saturating_sub astro_amount astro_reward.reconciled_amount
    let net_astro_amount = min add_astro_amount target_add_astro_amount
    staker_income ← c.add astro_reward.staker_income net_astro_amount
    reconciled_amount ← c.add astro_reward.reconciled_amount net_astro_amount
    (astro_reward, state) ←
        reconcile_staker_income c
          (record astro_reward {
            staker_income = staker_income;
            reconciled_amount = reconciled_amount;
          })
          (record state { next_claim_period = current_period })
    ok (astro_amount, astro_reward, state)

  unfoldable pub execute_relock : Env → MessageInfo → Store → Outcome
  execute_relock env info s = do
    fail_if (not (info.sender == s.config.controller) && not (info.sender == env.contract))
        unauthorized
    astro_reward ← try (load (lookup s.config.astro_token s.reward_infos))
    lock ← try (query_lock d s.config.astro_gov env.contract)
    lock_amount ← try_overflow (c.checked_sub lock.amount s.state.total_unstaking_amount)
    total_unstaked_amount ← try (c.add s.state.total_unstaked_amount s.state.total_unstaking_amount)
    unstaking_period ← try (d.get_period env.time)
    (prev_balance, astro_reward, state) ← try (
        reconcile_staking_claim_by_others env s.config astro_reward (record s.state {
          total_unstaked_amount = total_unstaked_amount;
          total_unstaking_amount = 0;
          unstaking_period = unstaking_period;
        }))
    let gov = s.config.astro_gov
    ok (
      record s {
        state = state;
        reward_infos = insert s.config.astro_token astro_reward s.reward_infos;
      },
      claim gov.fee_distributor
          ∷ after_staking_claimed_self prev_balance
          ∷ withdraw_lock gov.voting_escrow
          ∷ create_lock gov.xastro_token gov.voting_escrow lock_amount d.week
          ∷ [],
    )

  unfoldable pub callback_after_staking_claimed : Env → ℕ → Store → Outcome
  callback_after_staking_claimed env prev_balance s = do
    astro_reward ← try (load (lookup s.config.astro_token s.reward_infos))
    current_period ← try (query_last_claim_period d s.config.astro_gov env.contract)
    balance ← try (d.query_token_balance s.config.astro_token env.contract)
    net_astro_amount ← try_overflow (c.checked_sub balance prev_balance)
    staker_income ← try (c.add astro_reward.staker_income net_astro_amount)
    reconciled_amount ← try (c.add astro_reward.reconciled_amount net_astro_amount)
    (astro_reward, state) ← try (
        reconcile_staker_income c
          (record astro_reward {
            staker_income = staker_income;
            reconciled_amount = reconciled_amount;
          })
          (record s.state { next_claim_period = current_period }))
    ok (
      record s {
        state = state;
        reward_infos = insert s.config.astro_token astro_reward s.reward_infos;
      },
      [],
    )

  -- the part of `execute_request_unstake` after the rewards
  unfoldable pub save_request :
      Env → MessageInfo → ℕ → RewardInfo → StakingState → StakerInfo → Store → Outcome
  save_request env info amount astro_reward state staker_info s = do
    lock ← try (query_lock d s.config.astro_gov env.contract)
    share ← try (calc_bond_share c state lock.amount amount true)
    bond_share ← try_overflow (c.checked_sub staker_info.bond_share share)
    unstaking_amount ← try (c.add staker_info.unstaking_amount amount)
    total_bond_share ← try_overflow (c.checked_sub state.total_bond_share share)
    total_unstaking_amount ← try (c.add state.total_unstaking_amount amount)
    ok (
      record s {
        stakers =
            insert info.sender
              (record staker_info { bond_share = bond_share; unstaking_amount = unstaking_amount })
              s.stakers;
        state = record state {
          total_bond_share = total_bond_share;
          total_unstaking_amount = total_unstaking_amount;
        };
        reward_infos = insert s.config.astro_token astro_reward s.reward_infos;
      },
      [],
    )

  unfoldable pub execute_request_unstake : Env → MessageInfo → ℕ → Store → Outcome
  execute_request_unstake env info amount s = do
    astro_reward ← try (load (lookup s.config.astro_token s.reward_infos))
    staker_info ← try (load (lookup info.sender s.stakers))
    (astro_reward, state) ← try (reconcile_staker_income c astro_reward s.state)
    staker_info ← try (reconcile_to_staker_info c state staker_info)
    staker_info ← try (update_staking c staker_info state)
    save_request env info amount astro_reward state staker_info s

  unfoldable pub execute_withdraw_unstaked : MessageInfo → Option ℕ → Store → Outcome
  execute_withdraw_unstaked info amount s = do
    staker_info ← try (load (lookup info.sender s.stakers))
    staker_info ← try (update_staking c staker_info s.state)
    let amount = unwrap_or amount staker_info.unstaked_amount
    unstaked_amount ← try_overflow (c.checked_sub staker_info.unstaked_amount amount)
    total_unstaked_amount ← try_overflow (c.checked_sub s.state.total_unstaked_amount amount)
    ok (
      record s {
        stakers =
            insert info.sender (record staker_info { unstaked_amount = unstaked_amount }) s.stakers;
        state = record s.state { total_unstaked_amount = total_unstaked_amount };
      },
      asset_msg (
            transfer_msg (record { info = token s.config.astro_gov.xastro_token; amount = amount })
              info.sender)
          ∷ [],
    )

  unfoldable pub execute_claim_income : MessageInfo → Store → Outcome
  execute_claim_income info s = do
    astro_reward ← try (load (lookup s.config.astro_token s.reward_infos))
    staker_info ← try (load (lookup info.sender s.stakers))
    (astro_reward, state) ← try (reconcile_staker_income c astro_reward s.state)
    staker_info ← try (reconcile_to_staker_info c state staker_info)
    let amount = staker_info.pending_reward
    reconciled_amount ← try_overflow (c.checked_sub astro_reward.reconciled_amount amount)
    ok (
      record s {
        stakers = insert info.sender (record staker_info { pending_reward = 0 }) s.stakers;
        state = state;
        reward_infos =
            insert s.config.astro_token
              (record astro_reward { reconciled_amount = reconciled_amount }) s.reward_infos;
      },
      asset_msg (
            transfer_msg (record { info = token s.config.astro_token; amount = amount })
              info.sender)
          ∷ [],
    )
