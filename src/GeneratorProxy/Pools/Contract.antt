-- ===== src/GeneratorProxy/Pools/Contract.antt =====
-- contracts/generator_proxy/src/contract.rs: the messages to the pools.
use baz_core.Common.{ℕ, not, ◌==◌, List, ◌>>=◌, ◌>>◌, fail_if}
use baz_core.Common.Map.{Map}
use baz_core.Cosmwasm.{Cosmwasm}
use baz_core.Host.{Addr, HumanAddr, Env, MessageInfo}
use baz_core.GeneratorProxy.Defs.{try, callback_unauthorized}
use baz_core.GeneratorProxy.Pools.Defs.{Store, Deps}
use baz_core.GeneratorProxy.Pools.Bond.{
  Outcome, execute_deposit, execute_withdraw, execute_claim_rewards,
}
use baz_core.GeneratorProxy.Pools.Call.{
  callback_after_bond_claimed, callback_after_bond_changed, callback_deposit, callback_withdraw,
  callback_claim_rewards,
}

pub data CallbackMsg : Type 0 where
  after_bond_claimed : (lp_token : Addr) (prev_balances : Map ℕ) → CallbackMsg
  deposit : (lp_token staker_addr : Addr) (amount : ℕ) → CallbackMsg
  withdraw : (lp_token staker_addr : Addr) (amount : ℕ) → CallbackMsg
  after_bond_changed : (lp_token : Addr) → CallbackMsg
  claim_rewards : (lp_token staker_addr : Addr) → CallbackMsg

-- The messages to the pools; a deposit comes with the hook `Deposit` of an LP token.
pub data ExecuteMsg : Type 0 where
  receive_deposit_msg : (sender : HumanAddr) (amount : ℕ) → ExecuteMsg
  claim_rewards_msg : (lp_tokens : List HumanAddr) → ExecuteMsg
  withdraw_msg : (lp_token : HumanAddr) (amount : ℕ) → ExecuteMsg
  callback_msg : CallbackMsg → ExecuteMsg

module _ (c : Cosmwasm) (d : Deps) where
  unfoldable pub run_callback : Env → CallbackMsg → Store → Outcome
  run_callback env (after_bond_claimed lp_token prev_balances) s =
      callback_after_bond_claimed c d env lp_token prev_balances s
  run_callback env (deposit lp_token staker_addr amount) s =
      callback_deposit c d env lp_token staker_addr amount s
  run_callback env (withdraw lp_token staker_addr amount) s =
      callback_withdraw c d env lp_token staker_addr amount s
  run_callback env (after_bond_changed lp_token) s = callback_after_bond_changed c d env lp_token s
  run_callback env (claim_rewards lp_token staker_addr) s =
      callback_claim_rewards c d lp_token staker_addr s

  unfoldable pub handle_callback : Env → MessageInfo → CallbackMsg → Store → Outcome
  handle_callback env info msg s = do
    fail_if (not (info.sender == env.contract)) callback_unauthorized
    run_callback env msg s

  unfoldable pub receive_deposit : Env → MessageInfo → HumanAddr → ℕ → Store → Outcome
  receive_deposit env info sender amount s = do
    staker_addr ← try (d.addr_validate sender)
    execute_deposit c d env info staker_addr amount s

  unfoldable pub execute : Env → MessageInfo → ExecuteMsg → Store → Outcome
  execute env info (receive_deposit_msg sender amount) s = receive_deposit env info sender amount s
  execute env info (claim_rewards_msg lp_tokens) s = execute_claim_rewards c d env info lp_tokens s
  execute env info (withdraw_msg lp_token amount) s =
      execute_withdraw c d env info lp_token amount s
  execute env info (callback_msg msg) s = handle_callback env info msg s
