-- ===== src/AstroportFarm/Terms.antt =====
-- The fee stays at most one, whatever messages come.
use baz_core.Common.{◌≤◌, ◌≡◌, none, some, List, ok, arith}
use baz_core.Cosmwasm.{Cosmwasm, IsDocumented, decimal_one}
use baz_core.Cosmwasm.Standard.{standard, at_standard}
use baz_core.Host.{Env, MessageInfo}
use baz_core.AstroportFarm.Defs.{Store}
use baz_core.AstroportFarm.Bond.{
  Deps, Message, bond_internal, unbond, bond, bond_to, bond_assets, stake_callback,
  bond_to_callback,
}
use baz_core.AstroportFarm.Token.{
  transfer_internal, burn_internal, deduct_allowance, execute_transfer, execute_burn, execute_send,
  execute_increase_allowance, execute_decrease_allowance, execute_transfer_from, execute_burn_from,
  execute_send_from,
}
use baz_core.AstroportFarm.Compound.{compound, stake}
use baz_core.AstroportFarm.Contract.{
  InstantiateMsg, instantiate, bond_hook, unreadable, ExecuteMsg, receive_cw20, run_callback,
  handle_callback, update_config, execute, receive, update_config_msg, unbond_msg, callback_msg,
}
use baz_core.Ownership.{propose_new_owner, drop_ownership_proposal, claim_ownership}
use baz_core.AstroportFarm.Contract.{validate_percentage, updated_fee}
use baz_core.AstroportFarm.Reachable.{Reach, here, next}

module _ (d : Deps) (env : Env) (info : MessageInfo) (s s' : Store) (ms : List Message) where
  fee_standard :
      (msg : ExecuteMsg)
      → s.config.fee ≤ decimal_one
      → execute standard d env info msg s ≡ ok (s', ms)
      → s'.config.fee ≤ decimal_one
  unfolding execute receive_cw20 bond_internal bond unbond bond_to update_config updated_fee
      validate_percentage bond_assets compound stake handle_callback run_callback transfer_internal
      burn_internal execute_transfer execute_burn execute_send execute_transfer_from
      execute_burn_from execute_send_from deduct_allowance execute_increase_allowance
      execute_decrease_allowance propose_new_owner drop_ownership_proposal claim_ownership
  fee_standard (receive sender amount (bond_hook a)) f h = ground arith
  fee_standard (receive sender amount unreadable) f h = ground arith
  fee_standard (update_config_msg a b none e) f h = ground arith
  fee_standard (update_config_msg a b (some fee) e) f h = ground arith
  fee_standard (unbond_msg _) f h = ground arith
  fee_standard (callback_msg (stake_callback _ _)) f h = ground arith
  fee_standard (callback_msg (bond_to_callback _ _ _)) f h = ground arith
  fee_standard _ f h = ground arith

message_keeps_fee :
    (c : Cosmwasm)
    → IsDocumented c
    → (d : Deps) (env : Env) (info : MessageInfo) (s s' : Store) (ms : List Message)
      (msg : ExecuteMsg)
    → s.config.fee ≤ decimal_one
    → execute c d env info msg s ≡ ok (s', ms)
    → s'.config.fee ≤ decimal_one
message_keeps_fee = at_standard _ fee_standard

-- From its instantiation on, whatever messages come and whatever the other contracts answer, the
-- fee of the farm is at most one.
pub reachable_fee :
    (c : Cosmwasm)
    → IsDocumented c
    → (d : Deps) (msg : InstantiateMsg) (s t : Store) → instantiate d msg ≡ ok s
    → Reach c s t
    → t.config.fee ≤ decimal_one
unfolding instantiate validate_percentage
reachable_fee c e d msg s t h here = ground arith
reachable_fee c e d msg s t h (next {t = u} d' env info msg' ms r g) =
    message_keeps_fee c e d' env info u t ms msg' (reachable_fee c e d msg s u h r) g
