-- ===== src/Tests/Pools.antt =====
-- The theorems on the pools of `generator_proxy` at concrete inputs.
use baz_core.Common.{◌/◌, ◌+◌, ◌>>=◌, ℕ, arith, >>=-eq-ok, ◌≡◌, refl, some, List, [], ◌∷◌, ok}
use baz_core.Common.Map.{Map, insert, lookup-insert_self, lookup-insert_ne}
use baz_core.Cosmwasm.{decimal_one, checked_sum, StdResult}
use baz_core.Cosmwasm.Standard.{standard, standard-IsDocumented}
use baz_core.Host.{Addr}
use baz_core.GeneratorProxy.Defs.{RewardInfo}
use baz_core.GeneratorProxy.Pools.Defs.{
  PoolInfo, UserInfo, no_pool, create_user, no_rewards, Store, AstroUserInfo, Deps, Message,
  generator_deposit, after_bond_changed_self, calc_bond_share,
}
use baz_core.GeneratorProxy.Pools.Reconcile.{
  reconcile_astro_reward, add_rewards, reconcile_to_user_info,
}
use baz_core.GeneratorProxy.Pools.Bond.{set_user}
use baz_core.GeneratorProxy.Pools.Call.{callback_deposit}
use baz_core.GeneratorProxy.Pools.Contract.{
  callback_msg, deposit, run_callback, handle_callback, execute,
}
use baz_core.GeneratorProxy.Pools.Shares.{IsSound}
use baz_core.GeneratorProxy.Pools.Split.{index_of, Accumulates, Divides, reconcile_astro_reward_lem}
use baz_core.GeneratorProxy.Pools.Reachable.{fresh, message, reachable_pools}
use baz_core.Tests.Proxy.{config, block, from}

abbrev stake : AstroUserInfo
stake = record { amount = 50; reward_user_index = 7; reward_debt_proxy = []; virtual_amount = 40 }

-- A vector whose update fails where the sum does not fit.
abbrev update : Map ℕ → Addr → ℕ → StdResult (Map ℕ)
update m k v = do n ← checked_sum (index_of k m) v; ok (insert k n m)

update-Accumulates : Accumulates update
update-Accumulates = record {
  own = λ m m' k v h.
      let (n, e, f) = >>=-eq-ok (checked_sum (index_of k m) v) _ h in
      ground (arith, lookup-insert_self k n m);
  others = λ m m' k j v h ne.
      let (n, e, f) = >>=-eq-ok (checked_sum (index_of k m) v) _ h in
      ground (arith, lookup-insert_ne j k n m ne);
}

abbrev deps : Deps
deps = record {
  addr_validate = λ a. ok a;
  query_user_info = λ _ _ _. ok (some stake);
  query_deposit = λ _ _ _. ok 0;
  query_token_balance = λ _ _. ok 0;
  update_index = update;
  update_amount = update;
}

-- Of 100, 50 are the pool's at once; of the other 50 the fee is 5 and the stakers' part 22. The
-- index of ASTRO stood at one half already.
abbrev pool : PoolInfo
pool = record no_pool {
  total_bond_share = 73;
  reward_indexes = (34, decimal_one) ∷ (35, decimal_one / 2) ∷ [];
}

abbrev pool' : PoolInfo
pool' = record pool {
  reward_indexes = (34, decimal_one) ∷ (35, decimal_one / 2 + decimal_one) ∷ [];
}

abbrev rewards : RewardInfo
rewards = record { reconciled_amount = 100; fee = 5; staker_income = 22 }

run-reconcile :
    reconcile_astro_reward standard deps config stake pool no_rewards 100 ≡ ok (pool', rewards)
unfolding reconcile_astro_reward
run-reconcile = refl

reconcile_astro_reward_example : Divides config stake 100 pool pool' no_rewards rewards
reconcile_astro_reward_example =
    reconcile_astro_reward_lem standard standard-IsDocumented deps config stake pool pool'
      no_rewards rewards 100 update-Accumulates run-reconcile

abbrev user : UserInfo
user = record (create_user no_pool) { bond_share = 50 }

abbrev empty : Store
empty = record { config = config; reward_infos = []; pools = []; users = λ _. [] }

abbrev deposited : Store
deposited = record empty {
  pools = (8, record no_pool { total_bond_share = 50 }) ∷ [];
  users = set_user 8 5 user empty.users;
}

abbrev sent : List Message
sent = generator_deposit 30 8 50 ∷ after_bond_changed_self 8 ∷ []

run-deposit :
    execute standard deps block (from 9) (callback_msg (deposit 8 5 50)) empty
    ≡ ok (deposited, sent)
unfolding execute handle_callback run_callback callback_deposit reconcile_to_user_info add_rewards
    calc_bond_share
run-deposit = refl

reachable_pools_example : IsSound deposited
reachable_pools_example = reachable_pools standard standard-IsDocumented deposited (
    message deps block (from 9) (callback_msg (deposit 8 5 50)) (deposited, sent) (fresh config)
      run-deposit)
