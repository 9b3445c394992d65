-- ===== src/GeneratorProxy/Operation.antt =====
-- contracts/generator_proxy/src/oper.rs, and what contract.rs does with the messages to the staking.
use baz_core.Common.{
  ℕ, ltb, not, ◌==◌, if◌then◌else◌, Option, none, some, List, [], ◌∷◌, Result, ok, err, ◌>>=◌, ◌>>◌,
  fail_if,
}
use baz_core.Common.Map.{lookup, insert}
use baz_core.Cosmwasm.{Cosmwasm, StdError, StdResult, generic_err, decimal_one, load}
use baz_core.Host.{Addr, HumanAddr, Env, MessageInfo}
use baz_core.Assets.{token, transfer_msg}
use baz_core.Ownership.{drop_ownership_proposal, claim_ownership}
use baz_core.Ownership.Limited.{propose_new_owner}
use baz_core.GeneratorProxy.Defs.{
  AstroGov, Store, ContractError, Outcome, Deps, try, unauthorized, callback_unauthorized, vote,
  asset_msg,
}
use baz_core.GeneratorProxy.Staking.{
  execute_stake, execute_relock, callback_after_staking_claimed, execute_request_unstake,
  execute_withdraw_unstaked, execute_claim_income,
}

-- " cannot greater than 1"
abbrev pub cannot_greater_than_1 : StdError
cannot_greater_than_1 = generic_err 51

unfoldable pub validate_percentage : ℕ → StdResult (Unit {0})
validate_percentage value = if ltb decimal_one value then err cannot_greater_than_1 else ok tt

pub record InstantiateMsg : Type 0 where
  pub generator : HumanAddr
  pub astro_gov : AstroGov
  pub owner : HumanAddr
  pub controller : HumanAddr
  pub astro_token : HumanAddr
  pub fee_collector : HumanAddr
  pub max_quota : ℕ
  pub staker_rate : ℕ
  pub boost_fee : ℕ

module _ (d : Deps) where
  -- `AstroGovUnchecked::check`; the unchecked texts stand in the same record
  unfoldable pub check : AstroGov → StdResult AstroGov
  check self = do
    fee_distributor ← d.addr_validate self.fee_distributor
    generator_controller ← d.addr_validate self.generator_controller
    voting_escrow ← d.addr_validate self.voting_escrow
    xastro_token ← d.addr_validate self.xastro_token
    ok (record {
      fee_distributor = fee_distributor;
      generator_controller = generator_controller;
      voting_escrow = voting_escrow;
      xastro_token = xastro_token;
    })

  unfoldable pub instantiate : Env → InstantiateMsg → Result ContractError Store
  instantiate env msg = do
    try (validate_percentage msg.staker_rate)
    try (validate_percentage msg.boost_fee)
    generator ← try (d.addr_validate msg.generator)
    astro_gov ← try (check msg.astro_gov)
    owner ← try (d.addr_validate msg.owner)
    controller ← try (d.addr_validate msg.controller)
    astro_token ← try (d.addr_validate msg.astro_token)
    fee_collector ← try (d.addr_validate msg.fee_collector)
    period ← try (d.get_period env.time)
    ok (record {
      config = record {
        generator = generator;
        astro_gov = astro_gov;
        owner = owner;
        controller = controller;
        astro_token = astro_token;
        fee_collector = fee_collector;
        max_quota = msg.max_quota;
        staker_rate = msg.staker_rate;
        boost_fee = msg.boost_fee;
      };
      reward_infos = [];
      state = record {
        total_bond_share = 0;
        reward_index = 0;
        next_claim_period = period;
        total_unstaking_amount = 0;
        total_unstaked_amount = 0;
        unstaking_period = period;
      };
      stakers = [];
      proposal = none;
    })

  unfoldable pub set_addr : Option HumanAddr → Addr → StdResult Addr
  set_addr none old = ok old
  set_addr (some text) old = d.addr_validate text

  unfoldable pub set_percentage : Option ℕ → ℕ → StdResult ℕ
  set_percentage none old = ok old
  set_percentage (some value) old = do validate_percentage value; ok value

  unfoldable pub set_quota : Option ℕ → ℕ → ℕ
  set_quota none old = old
  set_quota (some max_quota) old = max_quota

  unfoldable pub execute_update_config : MessageInfo → Option HumanAddr → Option ℕ → Store → Outcome
  execute_update_config info controller boost_fee s = do
    fail_if (not (info.sender == s.config.owner)) unauthorized
    controller ← try (set_addr controller s.config.controller)
    boost_fee ← try (set_percentage boost_fee s.config.boost_fee)
    ok (
      record s { config = record s.config { controller = controller; boost_fee = boost_fee } },
      [],
    )

  unfoldable pub execute_update_parameters : MessageInfo → Option ℕ → Option ℕ → Store → Outcome
  execute_update_parameters info max_quota staker_rate s = do
    fail_if (not (info.sender == s.config.controller)) unauthorized
    staker_rate ← try (set_percentage staker_rate s.config.staker_rate)
    ok (
      record s {
        config = record s.config {
          max_quota = set_quota max_quota s.config.max_quota;
          staker_rate = staker_rate;
        };
      },
      [],
    )

  unfoldable pub execute_controller_vote : MessageInfo → List (ℕ × ℕ) → Store → Outcome
  execute_controller_vote info votes s = do
    fail_if (not (info.sender == s.config.controller)) unauthorized
    ok (s, vote s.config.astro_gov.generator_controller votes ∷ [])

module _ (c : Cosmwasm) (d : Deps) where
  unfoldable pub execute_send_income : MessageInfo → Store → Outcome
  execute_send_income info s = do
    fail_if (not (info.sender == s.config.controller)) unauthorized
    reward_info ← try (load (lookup s.config.astro_token s.reward_infos))
    let fee = reward_info.fee
    reconciled_amount ← try (c.minus reward_info.reconciled_amount fee)
    let saved = record reward_info { fee = 0; reconciled_amount = reconciled_amount }
    ok (
      record s { reward_infos = insert s.config.astro_token saved s.reward_infos },
      if fee == 0
          then []
          else asset_msg (
              transfer_msg (record { info = token s.config.astro_token; amount = fee })
                s.config.fee_collector)
            ∷ [],
    )

  -- The hook `Stake` of a token, sent on for a staker.
  unfoldable pub receive_stake : Env → MessageInfo → HumanAddr → ℕ → Store → Outcome
  receive_stake env info sender amount s = do
    staker_addr ← try (d.addr_validate sender)
    execute_stake c d env info staker_addr amount s

  -- The callback after a claim.
  unfoldable pub handle_staking_claimed : Env → MessageInfo → ℕ → Store → Outcome
  handle_staking_claimed env info prev_balance s = do
    fail_if (not (info.sender == env.contract)) callback_unauthorized
    callback_after_staking_claimed c d env prev_balance s

-- The messages to the staking and to the operation; those to the pools are not among them.
pub data ExecuteMsg : Type 0 where
  receive_stake_msg : (sender : HumanAddr) (amount : ℕ) → ExecuteMsg
  after_staking_claimed_msg : (prev_balance : ℕ) → ExecuteMsg
  update_config_msg : (controller : Option HumanAddr) (boost_fee : Option ℕ) → ExecuteMsg
  update_parameters_msg : (max_quota staker_rate : Option ℕ) → ExecuteMsg
  controller_vote_msg : (votes : List (ℕ × ℕ)) → ExecuteMsg
  send_income_msg : ExecuteMsg
  propose_new_owner_msg : (owner : HumanAddr) (expires_in : ℕ) → ExecuteMsg
  drop_ownership_proposal_msg : ExecuteMsg
  claim_ownership_msg : ExecuteMsg
  relock_msg : ExecuteMsg
  request_unstake_msg : (amount : ℕ) → ExecuteMsg
  withdraw_unstaked_msg : (amount : Option ℕ) → ExecuteMsg
  claim_income_msg : ExecuteMsg

unfoldable pub execute : Cosmwasm → Deps → Env → MessageInfo → ExecuteMsg → Store → Outcome
execute c d env info (receive_stake_msg sender amount) s =
    receive_stake c d env info sender amount s
execute c d env info (after_staking_claimed_msg prev_balance) s =
    handle_staking_claimed c d env info prev_balance s
execute c d env info (update_config_msg controller boost_fee) s =
    execute_update_config d info controller boost_fee s
execute c d env info (update_parameters_msg max_quota staker_rate) s =
    execute_update_parameters d info max_quota staker_rate s
execute c d env info (controller_vote_msg votes) s = execute_controller_vote d info votes s
execute c d env info send_income_msg s = execute_send_income c d info s
execute c d env info relock_msg s = execute_relock c d env info s
execute c d env info (request_unstake_msg amount) s = execute_request_unstake c d env info amount s
execute c d env info (withdraw_unstaked_msg amount) s = execute_withdraw_unstaked c d info amount s
execute c d env info claim_income_msg s = execute_claim_income c d info s
execute c d env info (propose_new_owner_msg owner expires_in) s = do
  proposal ←
      try (propose_new_owner d.addr_validate_to_lower info env owner expires_in s.config.owner)
  ok (record s { proposal = proposal }, [])
execute c d env info drop_ownership_proposal_msg s = do
  proposal ← try (drop_ownership_proposal info s.config.owner)
  ok (record s { proposal = proposal }, [])
execute c d env info claim_ownership_msg s = do
  (proposal, config) ← try (
      claim_ownership info env s.proposal (λ new_owner. ok (record s.config { owner = new_owner })))
  ok (record s { proposal = proposal; config = config }, [])
