-- ===== src/GeneratorProxy/Fresh.antt =====
-- contracts/generator_proxy: the staking before any message to the pools.
use baz_core.Common.{
  ltb, not, ◌==◌, ◌&&◌, ◌≡◌, ◌≢◌, none, List, ok, arith, try-eq-ok, fail_if-eq-ok, Option-cases,
  inl, inr,
}
use baz_core.Common.Map.{lookup}
use baz_core.Cosmwasm.{Cosmwasm, load}
use baz_core.Host.{Env, MessageInfo}
use baz_core.Ownership.{claim_ownership}
use baz_core.GeneratorProxy.Defs.{Store, Message, Deps, RewardInfo, std}
use baz_core.GeneratorProxy.Governance.{query_lock}
use baz_core.GeneratorProxy.Staking.{
  lock_messages, save_stake, execute_stake, execute_relock, callback_after_staking_claimed,
  execute_request_unstake, execute_claim_income, execute_withdraw_unstaked,
}
use baz_core.GeneratorProxy.Operation.{
  InstantiateMsg, instantiate, ExecuteMsg, execute, receive_stake, handle_staking_claimed,
  execute_send_income, execute_update_config, execute_update_parameters, execute_controller_vote,
  receive_stake_msg, after_staking_claimed_msg, send_income_msg, relock_msg, request_unstake_msg,
  claim_income_msg, withdraw_unstaked_msg, update_config_msg, update_parameters_msg,
  controller_vote_msg, propose_new_owner_msg, drop_ownership_proposal_msg, claim_ownership_msg,
}

-- The messages that work on the stakes and on their income, but for the withdrawal of what is
-- unstaked.
abbrev pub IsStaking : ExecuteMsg → Type 0
IsStaking (receive_stake_msg _ _) = Unit {0}
IsStaking (after_staking_claimed_msg _) = Unit {0}
IsStaking send_income_msg = Unit {0}
IsStaking relock_msg = Unit {0}
IsStaking (request_unstake_msg _) = Unit {0}
IsStaking claim_income_msg = Unit {0}
IsStaking _ = ⊥

module _ (c : Cosmwasm) (d : Deps) (env : Env) (info : MessageInfo) (s s' : Store)
    (ms : List Message) (e : lookup s.config.astro_token s.reward_infos ≡ none) where
  no_reward : {r : RewardInfo} → load (lookup s.config.astro_token s.reward_infos) ≢ ok r
  no_reward h = ground arith

  refuses_staking : (msg : ExecuteMsg) → IsStaking msg → execute c d env info msg s ≢ ok (s', ms)
  unfolding execute receive_stake handle_staking_claimed execute_send_income execute_stake
      save_stake execute_relock callback_after_staking_claimed execute_request_unstake
      execute_claim_income
  refuses_staking (receive_stake_msg sender amount) p h =
      let (k, _, h0) = try-eq-ok std (d.addr_validate sender) _ h in
      let (_, h1) = fail_if-eq-ok (not (info.sender == s.config.astro_gov.xastro_token)) _ _ h0 in
      let (lock, _, h2) = try-eq-ok std (query_lock d s.config.astro_gov env.contract) _ h1 in
      let (locked, _, h3) = try-eq-ok std (c.add lock.amount amount) _ h2 in
      let (_, h4) = fail_if-eq-ok (ltb s.config.max_quota locked) _ _ h3 in
      let (m, _, h5) = try-eq-ok std (lock_messages c d env s.config lock amount) _ h4 in
      let (_, f, _) = try-eq-ok std (load (lookup s.config.astro_token s.reward_infos)) _ h5 in
      no_reward f
  refuses_staking (after_staking_claimed_msg _) p h =
      let (_, h1) = fail_if-eq-ok (not (info.sender == env.contract)) _ _ h in
      let (_, f, _) = try-eq-ok std (load (lookup s.config.astro_token s.reward_infos)) _ h1 in
      no_reward f
  refuses_staking send_income_msg p h =
      let (_, h1) = fail_if-eq-ok (not (info.sender == s.config.controller)) _ _ h in
      let (_, f, _) = try-eq-ok std (load (lookup s.config.astro_token s.reward_infos)) _ h1 in
      no_reward f
  refuses_staking relock_msg p h =
      let (_, h1) =
        fail_if-eq-ok
          (not (info.sender == s.config.controller) && not (info.sender == env.contract)) _ _ h in
      let (_, f, _) = try-eq-ok std (load (lookup s.config.astro_token s.reward_infos)) _ h1 in
      no_reward f
  refuses_staking (request_unstake_msg _) p h =
      let (_, f, _) = try-eq-ok std (load (lookup s.config.astro_token s.reward_infos)) _ h in
      no_reward f
  refuses_staking claim_income_msg p h =
      let (_, f, _) = try-eq-ok std (load (lookup s.config.astro_token s.reward_infos)) _ h in
      no_reward f
  refuses_staking (update_config_msg _ _) p h = p
  refuses_staking (update_parameters_msg _ _) p h = p
  refuses_staking (controller_vote_msg _) p h = p
  refuses_staking (propose_new_owner_msg _ _) p h = p
  refuses_staking drop_ownership_proposal_msg p h = p
  refuses_staking claim_ownership_msg p h = p
  refuses_staking (withdraw_unstaked_msg _) p h = p

-- The messages that are not of the staking change no reward.
keeps_rewards :
    (c : Cosmwasm) (d : Deps) (env : Env) (info : MessageInfo) (s s' : Store) (ms : List Message)
    (msg : ExecuteMsg)
    → (IsStaking msg → ⊥)
    → execute c d env info msg s ≡ ok (s', ms)
    → (s'.reward_infos ≡ s.reward_infos) × (s'.config.astro_token ≡ s.config.astro_token)
unfolding execute execute_update_config execute_update_parameters execute_controller_vote
    execute_withdraw_unstaked claim_ownership
keeps_rewards c d env info s s' ms (receive_stake_msg _ _) n h = absurd (n tt)
keeps_rewards c d env info s s' ms (after_staking_claimed_msg _) n h = absurd (n tt)
keeps_rewards c d env info s s' ms send_income_msg n h = absurd (n tt)
keeps_rewards c d env info s s' ms relock_msg n h = absurd (n tt)
keeps_rewards c d env info s s' ms (request_unstake_msg _) n h = absurd (n tt)
keeps_rewards c d env info s s' ms claim_income_msg n h = absurd (n tt)
keeps_rewards c d env info s s' ms (update_config_msg _ _) n h = ground arith
keeps_rewards c d env info s s' ms (update_parameters_msg _ _) n h = ground arith
keeps_rewards c d env info s s' ms (controller_vote_msg _) n h = ground arith
keeps_rewards c d env info s s' ms (propose_new_owner_msg _ _) n h = ground arith
keeps_rewards c d env info s s' ms drop_ownership_proposal_msg n h = ground arith
keeps_rewards c d env info s s' ms claim_ownership_msg n h = elim (Option-cases s.proposal) [
  | inl e ↦ ground arith
  | inr (p, e) ↦ ground arith
]
keeps_rewards c d env info s s' ms (withdraw_unstaked_msg _) n h = ground arith

-- The stores that messages to the staking and to the operation lead to, as long as none comes to
-- the pools; at each message the other contracts answer anew.
pub data Run (c : Cosmwasm) (s : Store) : Store → Type 0 where
  start : Run c s s
  next :
      {t u : Store} (d : Deps) (env : Env) (info : MessageInfo) (msg : ExecuteMsg)
      (ms : List Message)
      → Run c s t
      → execute c d env info msg t ≡ ok (u, ms)
      → Run c s u

abbrev HasNone : Store → Type 0
HasNone s = lookup s.config.astro_token s.reward_infos ≡ none

Run-HasNone : (c : Cosmwasm) {s t : Store} → HasNone s → Run c s t → HasNone t
Run-HasNone c v start = v
Run-HasNone c v (next {t = t} {u = u} d env info msg ms r h) =
    let v = Run-HasNone c v r in
    let (e, f) =
      keeps_rewards c d env info t u ms msg (λ p. refuses_staking c d env info t u ms v msg p h)
        h in
    rw (e, f) v

-- Until a message reaches the pools, none of these succeeds, whatever came since the instantiation:
-- a stake, a relock, a request to unstake, a claim of the income, the callback after a claim and the
-- sending of the fees. They load a record of the rewards in ASTRO, and the instantiation stores
-- none.
pub fresh_refuses :
    (c : Cosmwasm) (d : Deps) (env : Env) (msg : InstantiateMsg) (s t : Store)
    → instantiate d env msg ≡ ok s
    → Run c s t
    → (d' : Deps) (at : Env) (info : MessageInfo) (m : ExecuteMsg) (t' : Store) (ms : List Message)
    → IsStaking m
    → execute c d' at info m t ≢ ok (t', ms)
unfolding instantiate
fresh_refuses c d env msg s t h r d' at info m t' ms p =
    refuses_staking c d' at info t t' ms (Run-HasNone c (ground arith) r) m p
