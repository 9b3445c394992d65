-- ===== src/Tests/Proxy.antt =====
-- The theorems on `generator_proxy` at concrete inputs.
use baz_core.Common.{◌/◌, ◌≡◌, ◌≢◌, refl, none, some, List, [], ◌∷◌, ok, arith}
use baz_core.Cosmwasm.{decimal_one}
use baz_core.Cosmwasm.Standard.{standard, standard-IsDocumented}
use baz_core.Host.{Addr, Env, MessageInfo}
use baz_core.GeneratorProxy.Defs.{
  AstroGov, Config, StakingState, StakerInfo, Store, Message, Deps, create, extend_lock_amount,
  calc_bond_share,
}
use baz_core.GeneratorProxy.Governance.{query_lock}
use baz_core.GeneratorProxy.Staking.{
  reconcile_staker_income, reconcile_to_staker_info, lock_messages, save_stake, execute_stake,
}
use baz_core.GeneratorProxy.Operation.{
  InstantiateMsg, validate_percentage, check, instantiate, execute, receive_stake,
  receive_stake_msg, request_unstake_msg, update_config_msg, execute_update_config, set_addr,
  set_percentage,
}
use baz_core.GeneratorProxy.Ledger.{IsSound}
use baz_core.GeneratorProxy.Reachable.{start, message, pools, reachable_stakes}
use baz_core.GeneratorProxy.Withdrawal.{PaysUpTo, withdraw_unstaked_lem}
use baz_core.GeneratorProxy.Fresh.{Run, fresh_refuses}

-- A lock of 100 xASTRO until period 20, at a week's rewards of 60 with a third of the voting power.
abbrev deps : Deps
deps = record {
  addr_validate = λ a. ok a;
  addr_validate_to_lower = λ a. ok a;
  query_lock =
      λ _ _. ok (some (record { amount = 100; start = 1; end = 20; last_extend_lock_period = 1 }));
  query_last_claim_period = λ _ _. ok (some 3);
  query_lock_end = λ _ _. ok 20;
  query_user_voting_power = λ _ _ _. ok 10;
  query_total_voting_power = λ _ _. ok 30;
  query_rewards_per_week = λ _ _. ok (some 60);
  query_token_balance = λ _ _. ok 0;
  get_period = λ time. ok time;
  week = 7;
}

abbrev gov : AstroGov
gov = record {
  fee_distributor = 31;
  generator_controller = 32;
  voting_escrow = 33;
  xastro_token = 34;
}

abbrev instantiate_msg : InstantiateMsg
instantiate_msg = record {
  generator = 30;
  astro_gov = gov;
  owner = 11;
  controller = 12;
  astro_token = 35;
  fee_collector = 36;
  max_quota = 1000;
  staker_rate = decimal_one / 2;
  boost_fee = decimal_one / 10;
}

abbrev pub block : Env
block = record { time = 5; height = 5; contract = 9 }

abbrev pub from : Addr → MessageInfo
from sender = record { sender = sender; funds = [] }

abbrev pub config : Config
config = record {
  generator = 30;
  astro_gov = gov;
  owner = 11;
  controller = 12;
  astro_token = 35;
  fee_collector = 36;
  max_quota = 1000;
  staker_rate = decimal_one / 2;
  boost_fee = decimal_one / 10;
}

abbrev new_state : StakingState
new_state = record {
  total_bond_share = 0;
  reward_index = 0;
  next_claim_period = 5;
  total_unstaking_amount = 0;
  total_unstaked_amount = 0;
  unstaking_period = 5;
}

abbrev fresh : Store
fresh = record {
  config = config;
  reward_infos = [];
  state = new_state;
  stakers = [];
  proposal = none;
}

abbrev no_messages : List Message
no_messages = []

run-instantiate : instantiate deps block instantiate_msg ≡ ok fresh
unfolding instantiate validate_percentage check
run-instantiate = refl

-- The owner lowers the fee; then comes a request.
abbrev tuned : Store
tuned = record fresh { config = record config { boost_fee = 0 } }

run-update :
    execute standard deps block (from 11) (update_config_msg none (some 0)) fresh
    ≡ ok (tuned, no_messages)
unfolding execute execute_update_config set_addr set_percentage validate_percentage
run-update = refl

fresh_refuses_example :
    execute standard deps block (from 5) (request_unstake_msg 7) tuned ≢ ok (tuned, no_messages)
fresh_refuses_example =
    fresh_refuses standard deps block instantiate_msg fresh tuned run-instantiate
      (Run.next deps block (from 11) (update_config_msg none (some 0)) no_messages Run.start
        run-update)
      deps block (from 5) (request_unstake_msg 7) tuned no_messages tt

-- After the pools have recorded a reward.
abbrev rewarded : Store
rewarded = record fresh {
  reward_infos = (35, record { reconciled_amount = 0; fee = 0; staker_income = 0 }) ∷ [];
}

abbrev staker : StakerInfo
staker = record (create new_state) { bond_share = 50 }

abbrev staked : Store
staked = record rewarded {
  state = record new_state { total_bond_share = 50 };
  stakers = (5, staker) ∷ [];
}

abbrev lock_sent : List Message
lock_sent = extend_lock_amount 34 33 50 ∷ []

run-stake :
    execute standard deps block (from 34) (receive_stake_msg 5 50) rewarded ≡ ok (staked, lock_sent)
unfolding execute receive_stake execute_stake query_lock lock_messages save_stake
    reconcile_staker_income reconcile_to_staker_info calc_bond_share
run-stake = refl

reachable_stakes_example : IsSound staked
reachable_stakes_example =
    reachable_stakes standard standard-IsDocumented deps block instantiate_msg fresh staked
      run-instantiate
      (message deps block (from 34) (receive_stake_msg 5 50) lock_sent
        (pools rewarded.reward_infos start) run-stake)

-- A staker with 30 unstaked and 20 more that left the lock since.
abbrev leaver : StakerInfo
leaver = record staker { unstaking_amount = 20; unstaked_amount = 30; unstaking_period = 4 }

abbrev left : Store
left = record staked {
  state = record staked.state { total_unstaked_amount = 50 };
  stakers = (5, leaver) ∷ [];
}

left-IsSound : IsSound left
left-IsSound = ground arith

withdraw_unstaked_example : PaysUpTo deps (from 5) (some 45) left leaver standard 50
withdraw_unstaked_example =
    withdraw_unstaked_lem standard standard-IsDocumented deps (from 5) (some 45) left leaver
      left-IsSound refl (omega arith)
