-- ===== src/Tests/Farm.antt =====
-- The theorems on `astroport_farm` at concrete inputs.
use baz_core.Common.{
  ℕ, ◌+◌, ◌*◌, ◌/◌, ◌≤◌, ◌<◌, ◌≡◌, ◌≢◌, ◌⊎◌, none, some, List, [], ◌∷◌, ok, arith, refl, ltb, err,
  panic, subst, unwrap_or,
}
use baz_core.Common.Map.{lookup}
use baz_core.Cosmwasm.{decimal_one}
use baz_core.Cosmwasm.Standard.{standard, standard-IsDocumented}
use baz_core.Helper.{multiply_ratio_and_ceil, compute_deposit_time}
use baz_core.Host.{Addr, Env, MessageInfo}
use baz_core.Assets.{
  asset_info_eq, Asset, PoolResponse, token, native_token, transfer, bank_send, transfer_info,
}
use baz_core.AstroportFarm.Defs.{
  duplicated_asset, Config, RewardInfo, Store, scale, calc_bond_share, calc_bond_amount, ratios,
  ensure_deposit_costs, no_costs, add_costs, bond_reward, unbond_reward, calc_user_balance, day,
}
use baz_core.AstroportFarm.Bond.{
  check_neighbours, asset_eq, Deps, Message, bond_internal, bond, unbond, withdraw, deposit,
  asset_msg, check_duplicates,
}
use baz_core.AstroportFarm.Token.{
  execute_increase_allowance, execute_decrease_allowance, cost_assets, move_share,
  transfer_internal, deduct_from, deduct_allowance, execute_transfer_from, set_allowance,
}
use baz_core.AstroportFarm.Compound.{Plan, plan_reward, compound_info, commission_msgs}
use baz_core.AstroportFarm.Contract.{
  InstantiateMsg, instantiate, validate, validate_percentage, is_valid_name, is_valid_symbol,
  is_symbol_byte, are_symbol_bytes, execute, receive_cw20, receive, bond_hook, transfer_from_msg,
}
use baz_core.AstroportFarm.Supply.{IsSound, share, entry}
use baz_core.AstroportFarm.Price.{user_balance_lem}
use baz_core.AstroportFarm.Approval.{raise_then_lower}
use baz_core.AstroportFarm.Withdrawal.{IsCurrent, Ends, unbond_lem}
use baz_core.AstroportFarm.Value.{bond_value, unbond_value}
use baz_core.AstroportFarm.Holders.{transfer_moves}
use baz_core.AstroportFarm.Allowance.{from_spends, Spent, IsFrom}
use baz_core.AstroportFarm.Commission.{Splits, commission_split, native_overpaid}
use baz_core.AstroportFarm.Guards.{allowed, Allowed}
use baz_core.AstroportFarm.Reachable.{reachable_shares, Reach}
use baz_core.AstroportFarm.Ledger.{ledger}
use baz_core.AstroportFarm.Refinement.{Performs, execute_refines}
use baz_core.AstroportFarm.Terms.{reachable_fee}
use baz_core.AstroportFarm.Duplicates.{HasTwins, check_duplicates_lem}

abbrev reserves : PoolResponse
reserves = record {
  assets =
      record { info = token 20; amount = 1000 }
      ∷ record { info = native_token 30; amount = 2000 }
      ∷ [];
  total_share = 1000;
}

-- The farm has 200 LP tokens staked.
abbrev deps : Deps
deps = record {
  addr_validate = λ a. ok a;
  query_deposit = λ _ _ _. ok 200;
  query_pending_token = λ _ _ _. ok (record { pending = 0; pending_on_proxy = none });
  query_token_balance = λ _ _. ok 0;
  query_pool_info = λ _. ok reserves;
  assert_sent_native_token_balance = λ _ _. ok tt;
  at_height = λ h. h;
  never = 0;
  is_expired = λ expires env. ltb expires env.height;
}

-- The name is `Farm`, the symbol `FRM`, and the fee 5 %.
abbrev config : Config
config = record {
  owner = 1;
  staking_contract = 2;
  compound_proxy = 3;
  controller = 4;
  fee = 50_000_000_000_000_000;
  fee_collector = 7;
  liquidity_token = 8;
  base_reward_token = 20;
  name = 70 ∷ 97 ∷ 114 ∷ 109 ∷ [];
  symbol = 70 ∷ 82 ∷ 77 ∷ [];
  pair = 10;
}

abbrev holder : RewardInfo
holder = record {
  bond_share = 100;
  deposit_amount = 150;
  deposit_time = 0;
  transfer_share = 0;
  deposit_costs = 150 ∷ 300 ∷ [];
}

-- The holder 5 allows 11 to take 40 shares, up to the block 100.
abbrev farm : Store
farm = record {
  config = config;
  state = record { total_bond_share = 100 };
  reward = (5, holder) ∷ [];
  allowances = set_allowance 5 11 (some (record { allowance = 40; expires = 100 })) (λ _ _. none);
  pool_info = none;
  proposal = none;
}

abbrev noon : Env
noon = record { time = 43200; height = 7; contract = 9 }

abbrev from : Addr → MessageInfo
from sender = record { sender = sender; funds = [] }

farm-IsSound : IsSound farm
farm-IsSound = ground arith

abbrev after_bond : Store
after_bond = record farm {
  state = record { total_bond_share = 125 };
  reward =
      (5, holder)
      ∷ (
        6,
        record {
          bond_share = 25;
          deposit_amount = 50;
          deposit_time = 43200;
          transfer_share = 0;
          deposit_costs = 50 ∷ 100 ∷ [];
        },
      )
      ∷ [];
}

run-bond : bond_internal standard deps noon 6 50 farm ≡ ok (after_bond, deposit 2 8 50 ∷ [])
unfolding bond_internal calc_bond_share scale calc_bond_amount ensure_deposit_costs no_costs
    bond_reward add_costs compute_deposit_time
run-bond = refl

run-receive :
    execute standard deps noon (from 8) (receive 6 50 (bond_hook none)) farm
    ≡ ok (after_bond, deposit 2 8 50 ∷ [])
unfolding execute receive_cw20 bond bond_internal calc_bond_share scale calc_bond_amount
    ensure_deposit_costs no_costs bond_reward add_costs compute_deposit_time
run-receive = refl

abbrev after_unbond : Store
after_unbond = record farm {
  state = record { total_bond_share = 80 };
  reward =
      (5, record holder { bond_share = 80; deposit_amount = 120; deposit_costs = 120 ∷ 240 ∷ [] })
      ∷ [];
}

abbrev unbond_messages : List Message
unbond_messages = withdraw 2 8 35 ∷ asset_msg (transfer 8 5 35) ∷ []

run-unbond : unbond standard deps noon (from 5) 35 farm ≡ ok (after_unbond, unbond_messages)
unfolding unbond calc_user_balance calc_bond_amount multiply_ratio_and_ceil unbond_reward ratios
run-unbond = refl

abbrev transferred : Store
transferred = record farm {
  reward =
      (5, record holder { bond_share = 70; transfer_share = 30 })
      ∷ (
        6,
        record {
          bond_share = 30;
          deposit_amount = 45;
          deposit_time = 0;
          transfer_share = 0;
          deposit_costs = 45 ∷ 90 ∷ [];
        },
      )
      ∷ [];
}

run-transfer : transfer_internal standard deps 5 6 30 farm ≡ ok transferred
unfolding transfer_internal move_share ensure_deposit_costs no_costs cost_assets bond_reward
    add_costs compute_deposit_time
run-transfer = refl

abbrev transferred_from : Store
transferred_from = record transferred {
  allowances = set_allowance 5 11 (some (record { allowance = 10; expires = 100 })) farm.allowances;
}

run-transfer_from :
    execute standard deps noon (from 11) (transfer_from_msg 5 6 30) farm ≡ ok (transferred_from, [])
unfolding execute execute_transfer_from deduct_allowance deduct_from transfer_internal move_share
    ensure_deposit_costs no_costs cost_assets bond_reward add_costs compute_deposit_time
run-transfer_from = refl

abbrev instantiate_msg : InstantiateMsg
instantiate_msg = record {
  owner = 1;
  staking_contract = 2;
  compound_proxy = 3;
  controller = 4;
  fee = 50_000_000_000_000_000;
  fee_collector = 7;
  liquidity_token = 8;
  base_reward_token = 20;
  pair = 10;
  name = config.name;
  symbol = config.symbol;
}

abbrev new_farm : Store
new_farm = record {
  config = config;
  state = record { total_bond_share = 0 };
  reward = [];
  allowances = λ _ _. none;
  pool_info = none;
  proposal = none;
}

run-instantiate : instantiate deps instantiate_msg ≡ ok new_farm
unfolding instantiate validate validate_percentage is_valid_name is_valid_symbol are_symbol_bytes
    is_symbol_byte
run-instantiate = refl

abbrev first_bond : Store
first_bond = record new_farm {
  state = record { total_bond_share = 50 };
  reward =
      (
        6,
        record {
          bond_share = 50;
          deposit_amount = 250;
          deposit_time = 43200;
          transfer_share = 0;
          deposit_costs = 250 ∷ 500 ∷ [];
        },
      )
      ∷ [];
}

run-first_bond :
    execute standard deps noon (from 8) (receive 6 50 (bond_hook none)) new_farm
    ≡ ok (first_bond, deposit 2 8 50 ∷ [])
unfolding execute receive_cw20 bond bond_internal calc_bond_share scale calc_bond_amount
    ensure_deposit_costs no_costs bond_reward add_costs compute_deposit_time
run-first_bond = refl

bonded_once : Reach standard new_farm first_bond
bonded_once =
    Reach.next deps noon (from 8) (receive 6 50 (bond_hook none)) (deposit 2 8 50 ∷ []) Reach.here
      run-first_bond

reachable_shares_example : IsSound first_bond
reachable_shares_example =
    reachable_shares standard standard-IsDocumented deps instantiate_msg new_farm first_bond
      run-instantiate bonded_once

reachable_fee_example : first_bond.config.fee ≤ decimal_one
reachable_fee_example =
    reachable_fee standard standard-IsDocumented deps instantiate_msg new_farm first_bond
      run-instantiate bonded_once

unbond_value_example :
    (200 * 80 + 35 * 100 ≤ 200 * 100)
    × (share (entry 5 after_unbond.reward) + 100 ≡ share (entry 5 farm.reward) + 80)
    × ((k : Addr) → k ≢ 5 → lookup k after_unbond.reward ≡ lookup k farm.reward)
unbond_value_example =
    unbond_value standard standard-IsDocumented deps noon (from 5) 35 200 farm after_unbond
      unbond_messages refl run-unbond

bond_value_example :
    (200 * 125 ≤ (200 + 50) * 100)
    × (share (entry 6 after_bond.reward) + 100 ≡ share (entry 6 farm.reward) + 125)
    × ((j : Addr) → j ≢ 6 → lookup j after_bond.reward ≡ lookup j farm.reward)
bond_value_example =
    bond_value standard standard-IsDocumented deps noon 6 50 200 farm after_bond
      (deposit 2 8 50 ∷ []) refl (ground arith) (ground arith) run-bond

run-balance : calc_user_balance standard holder farm.state 200 43200 ≡ ok 175
unfolding calc_user_balance calc_bond_amount
run-balance = refl

user_balance_example :
    (amount : ℕ) × (calc_bond_amount standard farm.state 200 100 ≡ ok amount)
    × (175 ≤ amount)
    × ((150 ≤ 175) ⊎ (175 ≡ amount))
    × (0 + day ≤ 43200 → 175 ≡ amount)
user_balance_example =
    user_balance_lem standard standard-IsDocumented holder farm.state 200 43200 175 run-balance

abbrev alice : Addr
alice = 5

abbrev bob : Addr
bob = 6

transfer_moves_example :
    (0 < 30)
    × (30 ≤ share (entry 5 farm.reward))
    × (alice ≢ bob → share (entry 5 transferred.reward) + 30 ≡ share (entry 5 farm.reward))
    × (alice ≢ bob → share (entry 6 transferred.reward) ≡ share (entry 6 farm.reward) + 30)
    × (alice ≡ bob → share (entry 5 transferred.reward) ≡ share (entry 5 farm.reward))
    × ((i : Addr) → i ≢ alice → i ≢ bob → lookup i transferred.reward ≡ lookup i farm.reward)
    × (transferred.state ≡ farm.state)
transfer_moves_example =
    transfer_moves standard standard-IsDocumented deps alice bob 6 30 farm transferred refl
      run-transfer

from_spends_example : Spent deps noon 5 11 30 farm transferred_from
from_spends_example =
    from_spends standard standard-IsDocumented deps noon (from 11) 5 5 30 (transfer_from_msg 5 6 30)
      farm transferred_from [] (IsFrom.transfer_from 6) refl run-transfer_from

execute_refines_example :
    Performs deps (from 11) (transfer_from_msg 5 6 30) (ledger farm) (ledger transferred_from)
execute_refines_example =
    execute_refines standard standard-IsDocumented deps noon (from 11) (transfer_from_msg 5 6 30)
      farm transferred_from [] run-transfer_from

abbrev native_reward : Asset
native_reward = record { info = native_token 30; amount = 1000 }

abbrev token_reward : Asset
token_reward = record { info = token 20; amount = 1000 }

commission_split_example :
    (p : Plan) × (plan_reward standard deps token_reward 200 config noon ≡ ok p)
    × Splits deps config noon token_reward p
commission_split_example =
    commission_split standard standard-IsDocumented deps token_reward 200 config noon (omega arith)
      (omega arith) (omega arith) (ground arith) (ground arith)

abbrev native_plan : Plan
native_plan = record {
  messages = bank_send 7 (record { denom = 30; amount = 50 }) ∷ [];
  funds = record { denom = 30; amount = 1000 } ∷ [];
  rewards = record { info = native_token 30; amount = 950 } ∷ [];
}

run-plan_reward : plan_reward standard deps native_reward 200 config noon ≡ ok native_plan
unfolding plan_reward compound_info commission_msgs transfer_info
run-plan_reward = refl

native_overpaid_example :
    (native_plan.funds ≡ record { denom = 30; amount = 1000 } ∷ [])
    × (native_plan.messages
        ≡ bank_send 7 (record { denom = 30; amount = 1000 * config.fee / decimal_one }) ∷ [])
native_overpaid_example =
    native_overpaid standard standard-IsDocumented deps 30 1000 200 config noon native_plan
      run-plan_reward (ground arith) (ground arith)

allowed_example : Allowed noon (from 8) farm (receive 6 50 (bond_hook none))
allowed_example =
    allowed standard standard-IsDocumented deps noon (from 8) farm after_bond (deposit 2 8 50 ∷ [])
      (receive 6 50 (bond_hook none)) run-receive

-- A coin that is named twice, with another asset between.
abbrev separated : List Asset
separated =
    record { info = native_token 30; amount = 1 }
    ∷ record { info = token 20; amount = 5 }
    ∷ record { info = native_token 30; amount = 1 }
    ∷ []

run-separated : check_duplicates separated ≡ ok tt
unfolding check_duplicates check_neighbours asset_eq asset_info_eq
run-separated = refl

check_duplicates_example :
    ((separated ≡ []) × (check_duplicates separated ≡ panic))
    ⊎ (((check_duplicates separated ≡ ok tt) × (HasTwins separated → ⊥))
        ⊎ ((check_duplicates separated ≡ err duplicated_asset) × HasTwins separated))
check_duplicates_example = check_duplicates_lem separated

holder-IsCurrent : IsCurrent holder 43200
holder-IsCurrent = record {
  in_time = omega arith;
  shares_fit = omega arith;
  amount_fit = omega arith;
  costs_fit = ground arith;
}

sender-IsCurrent : (r : RewardInfo) → lookup 5 farm.reward ≡ some r → IsCurrent r 43200
sender-IsCurrent r h = subst (λ o. IsCurrent (unwrap_or o holder) 43200) h holder-IsCurrent

unbond_lem_example : Ends standard deps noon (from 5) 35 farm 200 (some holder)
unbond_lem_example =
    unbond_lem standard standard-IsDocumented deps noon (from 5) 35 200 farm farm-IsSound refl
      (omega arith) sender-IsCurrent (ground arith)

abbrev raised : Store
raised = record farm {
  allowances = set_allowance 5 11 (some (record { allowance = 50; expires = 100 })) farm.allowances;
}

abbrev lowered_again : Store
lowered_again = record raised {
  allowances =
      set_allowance 5 11 (some (record { allowance = 40; expires = 100 })) raised.allowances;
}

run-increase : execute_increase_allowance standard deps (from 5) 11 10 none farm ≡ ok (raised, [])
unfolding execute_increase_allowance
run-increase = refl

run-decrease :
    execute_decrease_allowance standard deps (from 5) 11 10 none raised ≡ ok (lowered_again, [])
unfolding execute_decrease_allowance
run-decrease = refl

raise_then_lower_example : lowered_again.allowances 5 11 ≡ farm.allowances 5 11
raise_then_lower_example =
    raise_then_lower standard standard-IsDocumented deps (from 5) 11 11 10 farm raised lowered_again
      [] [] (record { allowance = 40; expires = 100 }) refl refl (omega arith) run-increase
      run-decrease 5 11
