-- ===== src/LpStaking/Contract.antt =====
-- The entry points of contracts/lp_staking/src/contract.rs: each handler takes the store and gives
-- the store that is saved and the messages that are sent. Event attributes are left out.
use baz_core.Common.{
  ℕ, Option, none, some, List, [], ◌∷◌, ◌&&◌, ltb, ◌==◌, not, if◌then◌else◌, Result, ok, err, ◌>>=◌,
  ◌>>◌, fail_if, unwrap_or,
}
use baz_core.Common.Map.{Map, insert, remove}
use baz_core.Cosmwasm.{Cosmwasm}
use baz_core.Host.{Addr, HumanAddr, Api, Env, MessageInfo}
use baz_core.Ownership.{propose_new_owner, drop_ownership_proposal, claim_ownership}
use baz_core.LpStaking.Defs.{
  Slot, Config, State, RewardInfo, Store, ContractError, unauthorized, invalid_message,
  unbond_exceed_balance, try, read_reward_info, compute_reward, compute_staker_reward,
  increase_bond_amount, decrease_bond_amount,
}
use baz_core.LpStaking.Schedule.{assert_new_schedules}

-- `Cw20ExecuteMsg::Transfer` of a token
pub data Message : Type 0 where
  transfer : (token recipient : Addr) (amount : ℕ) → Message

abbrev pub Outcome : Type 0
Outcome = Result ContractError (Store × List Message)

pub record InstantiateMsg : Type 0 where
  pub owner : HumanAddr
  pub reward_token : HumanAddr
  pub staking_token : HumanAddr
  pub distribution_schedule : List Slot

-- What `from_binary` reads in the message of a `Cw20ReceiveMsg`: `Cw20HookMsg`, or an error.
pub data Hook : Type 0 where
  bond_hook : Option HumanAddr → Hook
  unreadable : Hook

pub data ExecuteMsg : Type 0 where
  receive : (sender : HumanAddr) (amount : ℕ) (msg : Hook) → ExecuteMsg
  unbond_msg : ℕ → ExecuteMsg
  withdraw_msg : Option ℕ → ExecuteMsg
  update_config_msg : Option (List Slot) → ExecuteMsg
  propose_new_owner_msg : HumanAddr → ℕ → ExecuteMsg
  drop_ownership_proposal_msg : ExecuteMsg
  claim_ownership_msg : ExecuteMsg

-- what `unbond` and `withdraw` do to the map: an empty entry is removed
unfoldable pub save_or_remove : Addr → RewardInfo → Map RewardInfo → Map RewardInfo
save_or_remove owner reward_info reward_infos =
    if reward_info.pending_reward == 0 && reward_info.bond_amount == 0
    then remove owner reward_infos
    else insert owner reward_info reward_infos

-- the body of `if let Some(distribution_schedule)`
unfoldable pub replace_schedule : Option (List Slot) → State → Config → Result ContractError Config
replace_schedule none state config = ok config
replace_schedule (some distribution_schedule) state config = do
  assert_new_schedules config state distribution_schedule
  ok (record config { distribution_schedule = distribution_schedule })

unfoldable pub update_config : MessageInfo → Option (List Slot) → Store → Outcome
update_config info distribution_schedule s = do
  fail_if (not (info.sender == s.config.owner)) unauthorized
  config ← replace_schedule distribution_schedule s.state s.config
  ok (record s { config = config }, [])

module _ (addr_validate : Api) where
  unfoldable pub instantiate : Env → InstantiateMsg → Result ContractError Store
  instantiate env msg = do
    owner ← try (addr_validate msg.owner)
    reward_token ← try (addr_validate msg.reward_token)
    staking_token ← try (addr_validate msg.staking_token)
    ok (record {
      config = record {
        owner = owner;
        reward_token = reward_token;
        staking_token = staking_token;
        distribution_schedule = msg.distribution_schedule;
      };
      state = record {
        last_distributed = env.time;
        total_bond_amount = 0;
        global_reward_index = 0;
      };
      reward_infos = [];
      proposal = none;
    })

module _ (c : Cosmwasm) where
  -- `compute_reward` and `compute_staker_reward`, as the handlers call them
  unfoldable pub settle : Env → Addr → Store → Result ContractError (State × RewardInfo)
  settle env owner s = do
    state ← try (compute_reward c s.config s.state env.time)
    reward_info ← try (compute_staker_reward c state (read_reward_info s.reward_infos owner))
    ok (state, reward_info)

  unfoldable pub unbond : Env → MessageInfo → ℕ → Store → Outcome
  unbond env info amount s = do
    fail_if (ltb (read_reward_info s.reward_infos info.sender).bond_amount amount)
        unbond_exceed_balance
    (state, reward_info) ← settle env info.sender s
    (state, reward_info) ← try (decrease_bond_amount c state reward_info amount)
    ok (
      record s {
        state = state;
        reward_infos = save_or_remove info.sender reward_info s.reward_infos;
      },
      transfer s.config.staking_token info.sender amount ∷ [],
    )

  unfoldable pub withdraw : Env → MessageInfo → Option ℕ → Store → Outcome
  withdraw env info baz_amount s = do
    (state, reward_info) ← settle env info.sender s
    let amount = unwrap_or baz_amount reward_info.pending_reward
    left ← try (c.checked_sub reward_info.pending_reward amount)
    let reward_info = record reward_info { pending_reward = left }
    ok (
      record s {
        state = state;
        reward_infos = save_or_remove info.sender reward_info s.reward_infos;
      },
      transfer s.config.reward_token info.sender amount ∷ [],
    )

  module _ (addr_validate : Api) where
    unfoldable pub bond : Env → HumanAddr → ℕ → Store → Outcome
    bond env sender_addr amount s = do
      sender_addr ← try (addr_validate sender_addr)
      (state, reward_info) ← settle env sender_addr s
      (state, reward_info) ← try (increase_bond_amount c state reward_info amount)
      ok (
        record s { state = state; reward_infos = insert sender_addr reward_info s.reward_infos },
        [],
      )

    -- `to_string` of a validated address is read as the address again
    unfoldable pub receive_cw20 : Env → MessageInfo → HumanAddr → ℕ → Hook → Store → Outcome
    receive_cw20 env info sender amount (bond_hook staker_addr) s = do
      fail_if (not (s.config.staking_token == info.sender)) unauthorized
      cw20_sender ← try (addr_validate sender)
      bond env (unwrap_or staker_addr cw20_sender) amount s
    receive_cw20 env info sender amount unreadable s = err invalid_message

    unfoldable pub execute : Env → MessageInfo → ExecuteMsg → Store → Outcome
    execute env info (receive sender amount msg) s = receive_cw20 env info sender amount msg s
    execute env info (unbond_msg amount) s = unbond env info amount s
    execute env info (withdraw_msg amount) s = withdraw env info amount s
    execute env info (update_config_msg distribution_schedule) s =
        update_config info distribution_schedule s
    execute env info (propose_new_owner_msg owner expires_in) s = do
      proposal ← try (propose_new_owner addr_validate info env owner expires_in s.config.owner)
      ok (record s { proposal = proposal }, [])
    execute env info drop_ownership_proposal_msg s = do
      proposal ← try (drop_ownership_proposal info s.config.owner)
      ok (record s { proposal = proposal }, [])
    execute env info claim_ownership_msg s = do
      (proposal, config) ← try (
          claim_ownership info env s.proposal
            (λ new_owner. ok (record s.config { owner = new_owner })))
      ok (record s { proposal = proposal; config = config }, [])
