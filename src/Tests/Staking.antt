-- ===== src/Tests/Staking.antt =====
-- The theorems on rounding and on `lp_staking` at concrete inputs.
use baz_core.Common.{
  ℕ, ◌+◌, ◌*◌, ◌/◌, ◌≤◌, ◌<◌, ◌≡◌, ◌≢◌, ◌⊎◌, none, some, List, [], ◌∷◌, ok, err, panic, arith, refl,
}
use baz_core.Common.Words.{u128_mod}
use baz_core.Common.Map.{lookup}
use baz_core.Cosmwasm.{decimal_one}
use baz_core.Cosmwasm.Standard.{standard, standard-IsDocumented}
use baz_core.Host.{Addr, Api, Env, MessageInfo}
use baz_core.Helper.{multiply_ratio_and_ceil, compute_deposit_time}
use baz_core.Helper.Rounding.{multiply_ratio_and_ceil_lem, compute_deposit_time_lem}
use baz_core.LpStaking.Defs.{
  Slot, Config, State, RewardInfo, Store, ContractError, unbond_exceed_balance,
  invalid_distribution_schedule, distribution_schedule_started, distribute, distribute_slot,
  compute_reward, compute_staker_reward, increase_bond_amount, decrease_bond_amount,
  read_reward_info,
}
use baz_core.LpStaking.Schedule.{
  assert_new_schedules, tally_all, tally, slot_eq, check_existing, check_existing_slot, get, deduct,
  check_added,
}
use baz_core.LpStaking.Contract.{
  transfer, execute, receive_cw20, bond, unbond, withdraw, settle, save_or_remove, instantiate,
  InstantiateMsg, update_config, replace_schedule, receive, bond_hook, update_config_msg,
}
use baz_core.LpStaking.Rewards.{distribute_split, amounts}
use baz_core.LpStaking.Accrual.{accrual}
use baz_core.LpStaking.Counting.{count}
use baz_core.LpStaking.Replacement.{assert_new_schedules_lem}
use baz_core.LpStaking.Ledger.{IsSound}
use baz_core.LpStaking.Books.{execute-IsSound, reachable-IsSound, Reach}
use baz_core.LpStaking.Handlers.{unbond_refuses, withdraw_pays, bond-unbond, degenerate_slot_blocks}
use baz_core.LpStaking.Access.{handover, outsiders_change_nothing, Claims, RunWithout}

multiply_ratio_and_ceil_example :
    (q : ℕ) × (multiply_ratio_and_ceil standard 10 1 3 ≡ ok q)
    × (10 * 1 ≤ q * 3)
    × (q * 3 < 10 * 1 + 3)
    × (q ≤ 10)
multiply_ratio_and_ceil_example =
    multiply_ratio_and_ceil_lem standard standard-IsDocumented 10 1 3 (omega arith) (omega arith)
      (omega arith) (omega arith)

compute_deposit_time_example :
    ((2 * 100 + 3 * 200 < u128_mod)
      × (2 + 3 < u128_mod)
      × (0 < 2 + 3)
      × ((t : ℕ) × (compute_deposit_time 2 3 100 200 ≡ ok t) × (100 ≤ t) × (t ≤ 200)))
    ⊎ (((u128_mod ≤ 2 * 100 + 3 * 200) ⊎ ((u128_mod ≤ 2 + 3) ⊎ (2 + 3 ≡ 0)))
        × (compute_deposit_time 2 3 100 200 ≡ panic))
compute_deposit_time_example = compute_deposit_time_lem 2 3 100 200 (omega arith) (omega arith)

abbrev addresses : Api
addresses = λ a. ok a

abbrev schedule : List Slot
schedule = (100, 200, 1000) ∷ []

abbrev config : Config
config = record { owner = 1; reward_token = 2; staking_token = 3; distribution_schedule = schedule }

abbrev at_100 : State
at_100 = record { last_distributed = 100; total_bond_amount = 10; global_reward_index = 0 }

abbrev at_150 : State
at_150 = record {
  last_distributed = 150;
  total_bond_amount = 10;
  global_reward_index = 50 * decimal_one;
}

abbrev staker : RewardInfo
staker = record { reward_index = 0; bond_amount = 10; pending_reward = 0 }

abbrev rewarded : RewardInfo
rewarded = record { reward_index = 50 * decimal_one; bond_amount = 10; pending_reward = 500 }

abbrev store : Store
store = record { config = config; state = at_100; reward_infos = (5, staker) ∷ []; proposal = none }

abbrev settled : Store
settled = record store { state = at_150; reward_infos = (5, rewarded) ∷ [] }

abbrev bonded_5 : Store
bonded_5 = record settled {
  state = record at_150 { total_bond_amount = 15 };
  reward_infos = (5, record rewarded { bond_amount = 15 }) ∷ [];
}

abbrev block : Env
block = record { time = 150; height = 7; contract = 9 }

abbrev from_staker : MessageInfo
from_staker = record { sender = 5; funds = [] }

abbrev from_token : MessageInfo
from_token = record { sender = 3; funds = [] }

store-IsSound : IsSound store
store-IsSound = ground arith

run-settle : settle standard block 5 store ≡ ok (at_150, rewarded)
unfolding settle compute_reward compute_staker_reward distribute distribute_slot read_reward_info
run-settle = refl

run-bond : bond standard addresses block 5 5 store ≡ ok (bonded_5, [])
unfolding bond settle compute_reward compute_staker_reward distribute distribute_slot
    read_reward_info increase_bond_amount
run-bond = refl

run-receive :
    execute standard addresses block from_token (receive 5 5 (bond_hook none)) store
    ≡ ok (bonded_5, [])
unfolding execute receive_cw20 bond settle compute_reward compute_staker_reward distribute
    distribute_slot read_reward_info increase_bond_amount
run-receive = refl

run-unbond : unbond standard block from_staker 5 bonded_5 ≡ ok (settled, transfer 3 5 5 ∷ [])
unfolding unbond settle compute_reward compute_staker_reward distribute distribute_slot
    read_reward_info decrease_bond_amount save_or_remove
run-unbond = refl

abbrev paid : Store
paid = record settled { reward_infos = (5, record rewarded { pending_reward = 0 }) ∷ [] }

run-withdraw : withdraw standard block from_staker none store ≡ ok (paid, transfer 2 5 500 ∷ [])
unfolding withdraw settle compute_reward compute_staker_reward distribute distribute_slot
    read_reward_info decrease_bond_amount save_or_remove
run-withdraw = refl

distribute_split_example : (250 + 250 ≤ 500) × (500 ≤ amounts schedule)
unfolding distribute distribute_slot
distribute_split_example =
    distribute_split standard standard-IsDocumented schedule 100 125 150 250 250 500 (omega arith)
      (omega arith) refl refl refl

accrual_example :
    (0 + 10 * (50 * decimal_one) / decimal_one ≤ 500)
    × (500 ≤ 0 + 10 * (50 * decimal_one) / decimal_one + 1)
    × (rewarded.reward_index ≡ 50 * decimal_one)
    × (at_150.last_distributed ≡ 150)
unfolding compute_reward compute_staker_reward distribute distribute_slot
accrual_example =
    accrual standard standard-IsDocumented config at_100 at_150 150 staker rewarded (omega arith)
      refl refl

-- A schedule with one more slot, which begins later.
abbrev longer : List Slot
longer = (100, 200, 1000) ∷ (300, 400, 50) ∷ []

assert_new_schedules_example :
    ((assert_new_schedules config at_150 longer ≡ ok tt)
      × (1 ≤ 2)
      × ((t : Slot) → t.0 ≤ 150 → count t longer ≡ count t schedule))
    ⊎ ((assert_new_schedules config at_150 longer ≡ err invalid_distribution_schedule) × (2 < 1))
    ⊎ ((assert_new_schedules config at_150 longer ≡ err distribution_schedule_started)
        × (1 ≤ 2)
        × ((t : Slot) × (t.0 ≤ 150) × (count t longer ≢ count t schedule)))
assert_new_schedules_example =
    assert_new_schedules_lem config at_150 longer (omega arith) (omega arith)

execute-IsSound_example : IsSound bonded_5
execute-IsSound_example =
    execute-IsSound standard standard-IsDocumented addresses block from_token
      (receive 5 5 (bond_hook none)) store bonded_5 [] store-IsSound run-receive

abbrev instantiate_msg : InstantiateMsg
instantiate_msg = record {
  owner = 1;
  reward_token = 2;
  staking_token = 3;
  distribution_schedule = schedule;
}

abbrev at_start : Env
at_start = record { time = 100; height = 5; contract = 9 }

abbrev empty : Store
empty = record {
  config = config;
  state = record { last_distributed = 100; total_bond_amount = 0; global_reward_index = 0 };
  reward_infos = [];
  proposal = none;
}

run-instantiate : instantiate addresses at_start instantiate_msg ≡ ok empty
unfolding instantiate
run-instantiate = refl

run-first_bond :
    execute standard addresses at_start from_token (receive 5 10 (bond_hook none)) empty
    ≡ ok (store, [])
unfolding execute receive_cw20 bond settle compute_reward compute_staker_reward distribute
    distribute_slot read_reward_info increase_bond_amount
run-first_bond = refl

reachable-IsSound_example : IsSound bonded_5
reachable-IsSound_example =
    reachable-IsSound standard standard-IsDocumented addresses at_start instantiate_msg empty
      bonded_5 run-instantiate
      (Reach.next block from_token (receive 5 5 (bond_hook none)) []
        (Reach.next at_start from_token (receive 5 10 (bond_hook none)) [] Reach.here
          run-first_bond)
        run-receive)

unbond_refuses_example :
    (10 < 4 → unbond standard block from_staker 4 store ≡ err unbond_exceed_balance)
    × (4 ≤ 10 → (e : ContractError) → unbond standard block from_staker 4 store ≢ err e)
unfolding read_reward_info
unbond_refuses_example =
    unbond_refuses standard standard-IsDocumented block from_staker 4 store store-IsSound

withdraw_pays_example :
    (transfer 2 5 500 ∷ [] ≡ transfer 2 5 500 ∷ [])
    × (0 + 500 ≡ rewarded.pending_reward)
    × ((read_reward_info paid.reward_infos 5).bond_amount ≡ staker.bond_amount)
    × (paid.state.total_bond_amount ≡ store.state.total_bond_amount)
    × ((j : Addr) → j ≢ 5 → lookup j paid.reward_infos ≡ lookup j store.reward_infos)
unfolding read_reward_info
withdraw_pays_example =
    withdraw_pays standard standard-IsDocumented block from_staker none store paid
      (transfer 2 5 500 ∷ []) at_150 rewarded store-IsSound run-settle run-withdraw

bond-unbond_example :
    (transfer 3 5 5 ∷ [] ≡ transfer 3 5 5 ∷ [])
    × (settled.state.total_bond_amount ≡ store.state.total_bond_amount)
    × ((read_reward_info settled.reward_infos 5).bond_amount ≡ staker.bond_amount)
    × ((j : Addr) → j ≢ 5 → lookup j settled.reward_infos ≡ lookup j store.reward_infos)
unfolding read_reward_info
bond-unbond_example =
    bond-unbond standard standard-IsDocumented addresses block block 5 from_staker 5 store bonded_5
      settled [] (transfer 3 5 5 ∷ []) store-IsSound refl run-bond run-unbond

-- The second slot ends where it begins.
abbrev broken : Store
broken = record store {
  config = record config { distribution_schedule = (100, 120, 10) ∷ (140, 140, 10) ∷ [] };
}

degenerate_slot_blocks_example :
    (bond standard addresses block 5 1 broken ≢ ok (broken, []))
    × (unbond standard block from_staker 1 broken ≢ ok (broken, []))
    × (withdraw standard block from_staker none broken ≢ ok (broken, []))
degenerate_slot_blocks_example =
    degenerate_slot_blocks standard standard-IsDocumented addresses block from_staker 5 1 none
      broken broken [] ((100, 120, 10) ∷ []) [] (140, 140, 10) refl (omega arith) (omega arith)
      (omega arith) (ground arith)

abbrev from_owner : MessageInfo
from_owner = record { sender = 1; funds = [] }

abbrev rescheduled : Store
rescheduled = record store { config = record config { distribution_schedule = longer } }

run-update :
    execute standard addresses block from_owner (update_config_msg (some longer)) store
    ≡ ok (rescheduled, [])
unfolding execute update_config replace_schedule assert_new_schedules tally_all tally slot_eq
    check_existing check_existing_slot get deduct check_added
run-update = refl

handover_example :
    ((rescheduled.config.owner ≡ config.owner) ⊎ Claims block from_owner store rescheduled)
    × (from_owner.sender ≢ config.owner
        → ((rescheduled.config ≡ store.config) × (rescheduled.proposal ≡ store.proposal))
          ⊎ Claims block from_owner store rescheduled)
handover_example =
    handover standard addresses block from_owner (update_config_msg (some longer)) store rescheduled
      [] run-update

outsiders_change_nothing_example : (bonded_5.config ≡ store.config) × (bonded_5.proposal ≡ none)
outsiders_change_nothing_example = outsiders_change_nothing standard addresses store bonded_5 refl (
    RunWithout.next block from_token (receive 5 5 (bond_hook none)) [] RunWithout.here
      (ground arith) run-receive)
