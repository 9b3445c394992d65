-- ===== src/AstroportFarm/Books.antt =====
-- The farm's entry points: what holds of the books after every message.
use baz_core.Common.{ℕ, ◌≡◌, Option, List, ok, arith, subst, try-eq-ok, fail_if-eq-ok, >>=-eq-ok}
use baz_core.Cosmwasm.Standard.{standard}
use baz_core.Host.{Addr, HumanAddr, Env, MessageInfo}
use baz_core.AstroportFarm.Defs.{Store, std}
use baz_core.AstroportFarm.Bond.{
  Deps, Message, bond, bond_to, bond_assets, CallbackMsg, stake_callback, bond_to_callback,
  check_minimum_receive,
}
use baz_core.AstroportFarm.Token.{
  transfer_internal, burn_internal, deduct_allowance, deduct_from, execute_transfer, execute_burn,
  execute_send, execute_increase_allowance, execute_decrease_allowance, execute_transfer_from,
  execute_burn_from, execute_send_from,
}
use baz_core.AstroportFarm.Compound.{compound, stake}
use baz_core.AstroportFarm.Contract.{
  bond_hook, unreadable, ExecuteMsg, receive_cw20, run_callback, handle_callback, update_config,
  execute, receive, unbond_msg, callback_msg, transfer_msg, burn_msg, send_msg, transfer_from_msg,
  send_from_msg, burn_from_msg,
}
use baz_core.AstroportFarm.Supply.{IsSound}
use baz_core.AstroportFarm.Moves.{burn_internal-Burns}
use baz_core.AstroportFarm.Shares.{
  transfer_internal-IsSound, Burns-IsSound, unbond-IsSound, bond_internal-IsSound,
}

same_books : (s s' : Store) → s'.state ≡ s.state → s'.reward ≡ s.reward → IsSound s → IsSound s'
same_books s s' e f v = record { keys = rw f v.keys; total = rw (e, f) v.total }

burn_internal-IsSound :
    (d : Deps) (k : Addr) (amount : ℕ) (s : Store) {s' : Store}
    → IsSound s
    → burn_internal standard d k amount s ≡ ok s'
    → IsSound s'
burn_internal-IsSound d k amount s v h =
    Burns-IsSound k amount s v (burn_internal-Burns d k amount s h)

-- Lowering an allowance does not touch the books.
deduct_allowance-IsSound :
    (d : Deps) (owner spender : Addr) (env : Env) (amount : ℕ) (s : Store) {s' : Store}
    → IsSound s
    → deduct_allowance standard d owner spender env amount s ≡ ok s'
    → IsSound s'
unfolding deduct_allowance
deduct_allowance-IsSound d owner spender env amount s {s'} v h =
    let (a, e, f) =
      >>=-eq-ok (deduct_from standard d (s.allowances owner spender) env amount) _ h in
    same_books s s' (ground arith) (ground arith) v

bond_to-IsSound :
    (d : Deps) (env : Env) (to : Addr) (prev : ℕ) (minimum : Option ℕ) (s : Store) {s' : Store}
    {ms : List Message}
    → IsSound s
    → bond_to standard d env to prev minimum s ≡ ok (s', ms)
    → IsSound s'
unfolding bond_to
bond_to-IsSound d env to prev minimum s v h =
    let (balance, _, h1) =
      try-eq-ok std (d.query_token_balance s.config.liquidity_token env.contract) _ h in
    let (amount, _, h2) = try-eq-ok std (standard.minus balance prev) _ h1 in
    let (_, _, h3) = >>=-eq-ok (check_minimum_receive minimum amount) _ h2 in
    bond_internal-IsSound d env to amount s v h3

bond-IsSound :
    (d : Deps) (env : Env) (info : MessageInfo) (sender : HumanAddr) (amount : ℕ) (s : Store)
    {s' : Store} {ms : List Message}
    → IsSound s
    → bond standard d env info sender amount s ≡ ok (s', ms)
    → IsSound s'
unfolding bond
bond-IsSound d env info sender amount s v h =
    let (k, _, h1) = try-eq-ok std (d.addr_validate sender) _ h in
    let (_, h2) = fail_if-eq-ok _ _ _ h1 in bond_internal-IsSound d env k amount s v h2

callback-IsSound :
    (d : Deps) (env : Env) (info : MessageInfo) (msg : CallbackMsg) (s : Store) {s' : Store}
    {ms : List Message}
    → IsSound s
    → handle_callback standard d env info msg s ≡ ok (s', ms)
    → IsSound s'
unfolding handle_callback run_callback stake
callback-IsSound d env info (stake_callback prev minimum) s {s'} v h =
    same_books s s' (ground arith) (ground arith) v
callback-IsSound d env info (bond_to_callback to prev minimum) s v h =
    let (_, h1) = fail_if-eq-ok _ _ _ h in bond_to-IsSound d env to prev minimum s v h1

pub execute-IsSound-standard :
    (d : Deps) (env : Env) (info : MessageInfo) (msg : ExecuteMsg) (s s' : Store)
    (ms : List Message)
    → IsSound s
    → execute standard d env info msg s ≡ ok (s', ms)
    → IsSound s'
unfolding execute receive_cw20 update_config bond_assets compound execute_transfer execute_burn
    execute_send execute_transfer_from execute_burn_from execute_send_from
    execute_increase_allowance execute_decrease_allowance
execute-IsSound-standard d env info (receive sender amount (bond_hook a)) s s' ms v h =
    bond-IsSound d env info _ amount s v h
execute-IsSound-standard d env info (receive sender amount unreadable) s s' ms v h = cc
execute-IsSound-standard d env info (unbond_msg amount) s s' ms v h =
    unbond-IsSound d env info amount s v h
execute-IsSound-standard d env info (callback_msg msg) s s' ms v h =
    callback-IsSound d env info msg s v h
execute-IsSound-standard d env info (transfer_msg recipient amount) s s' ms v h =
    let (t, e, f) = >>=-eq-ok (transfer_internal standard d info.sender recipient amount s) _ h in
    subst IsSound (ground arith) (transfer_internal-IsSound d info.sender recipient amount s v e)
execute-IsSound-standard d env info (send_msg contract amount msg) s s' ms v h =
    let (t, e, f) = >>=-eq-ok (transfer_internal standard d info.sender contract amount s) _ h in
    subst IsSound (ground arith) (transfer_internal-IsSound d info.sender contract amount s v e)
execute-IsSound-standard d env info (burn_msg amount) s s' ms v h =
    let (t, e, f) = >>=-eq-ok (burn_internal standard d info.sender amount s) _ h in
    subst IsSound (ground arith) (burn_internal-IsSound d info.sender amount s v e)
execute-IsSound-standard d env info (transfer_from_msg owner recipient amount) s s' ms v h =
    let (o, _, h1) = try-eq-ok std (d.addr_validate owner) _ h in
    let (t, e, h2) = >>=-eq-ok (deduct_allowance standard d o info.sender env amount s) _ h1 in
    let (u, f, g) = >>=-eq-ok (transfer_internal standard d o recipient amount t) _ h2 in
    subst IsSound (ground arith) (
      transfer_internal-IsSound d o recipient amount t
        (deduct_allowance-IsSound d o info.sender env amount s v e) f)
execute-IsSound-standard d env info (send_from_msg owner contract amount msg) s s' ms v h =
    let (o, _, h1) = try-eq-ok std (d.addr_validate owner) _ h in
    let (t, e, h2) = >>=-eq-ok (deduct_allowance standard d o info.sender env amount s) _ h1 in
    let (u, f, g) = >>=-eq-ok (transfer_internal standard d o contract amount t) _ h2 in
    subst IsSound (ground arith) (
      transfer_internal-IsSound d o contract amount t
        (deduct_allowance-IsSound d o info.sender env amount s v e) f)
execute-IsSound-standard d env info (burn_from_msg owner amount) s s' ms v h =
    let (o, _, h1) = try-eq-ok std (d.addr_validate owner) _ h in
    let (t, e, h2) = >>=-eq-ok (deduct_allowance standard d o info.sender env amount s) _ h1 in
    let (u, f, g) = >>=-eq-ok (burn_internal standard d o amount t) _ h2 in
    subst IsSound (ground arith) (
      burn_internal-IsSound d o amount t (deduct_allowance-IsSound d o info.sender env amount s v e)
        f)
execute-IsSound-standard d env info _ s s' ms v h = same_books s s' (ground arith) (ground arith) v
