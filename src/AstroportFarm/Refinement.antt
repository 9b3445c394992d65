-- ===== src/AstroportFarm/Refinement.antt =====
-- contracts/astroport_farm as a token: its messages implement the ledger.
use baz_core.Common.{
  ℕ, ◌≡◌, Option, List, Result, ok, arith, subst, unwrap_or, try-eq-ok, fail_if-eq-ok, >>=-eq-ok,
}
use baz_core.Cosmwasm.{Cosmwasm, IsDocumented}
use baz_core.Cosmwasm.Standard.{standard, at_standard}
use baz_core.Host.{Addr, HumanAddr, Env, MessageInfo}
use baz_core.AstroportFarm.Defs.{Store, ContractError, std}
use baz_core.AstroportFarm.Bond.{
  Deps, Message, bond, bond_to, bond_assets, bond_to_callback, check_minimum_receive,
}
use baz_core.AstroportFarm.Token.{
  transfer_internal, burn_internal, deduct_allowance, execute_transfer, execute_burn, execute_send,
  execute_increase_allowance, execute_decrease_allowance, execute_transfer_from, execute_burn_from,
  execute_send_from,
}
use baz_core.AstroportFarm.Compound.{compound, stake}
use baz_core.AstroportFarm.Contract.{
  bond_hook, ExecuteMsg, receive_cw20, run_callback, handle_callback, update_config, execute,
  receive, unbond_msg, callback_msg, transfer_msg, burn_msg, send_msg, transfer_from_msg,
  send_from_msg, burn_from_msg,
}
use baz_core.AstroportFarm.Moves.{burn_internal-Burns}
use baz_core.AstroportFarm.Ledger.{
  Ledger, ledger, Mints, Destroys, Moves, transfer-Moves, burn-Destroys, unbond-Destroys,
  bond-Mints, ledger-eq, deduct_allowance-ledger,
}

-- What each message means for the ledger.
abbrev pub Performs : Deps → MessageInfo → ExecuteMsg → Ledger → Ledger → Type 0
Performs d info (transfer_msg recipient amount) a b =
    (j : Addr) × (d.addr_validate recipient ≡ ok j) × Moves info.sender j amount a b
Performs d info (send_msg contract amount _) a b =
    (j : Addr) × (d.addr_validate contract ≡ ok j) × Moves info.sender j amount a b
Performs d info (transfer_from_msg owner recipient amount) a b =
    (k : Addr) × (d.addr_validate owner ≡ ok k)
    × ((j : Addr) × (d.addr_validate recipient ≡ ok j) × Moves k j amount a b)
Performs d info (send_from_msg owner contract amount _) a b =
    (k : Addr) × (d.addr_validate owner ≡ ok k)
    × ((j : Addr) × (d.addr_validate contract ≡ ok j) × Moves k j amount a b)
Performs d info (burn_msg amount) a b = Destroys info.sender amount a b
Performs d info (burn_from_msg owner amount) a b =
    (k : Addr) × (d.addr_validate owner ≡ ok k) × Destroys k amount a b
Performs d info (unbond_msg _) a b = (n : ℕ) × Destroys info.sender n a b
Performs d info (receive sender _ (bond_hook staker)) a b =
    (k : Addr) × (d.addr_validate (unwrap_or staker sender) ≡ ok k) × ((n : ℕ) × Mints k n a b)
Performs d info (callback_msg (bond_to_callback to _ _)) a b = (n : ℕ) × Mints to n a b
Performs d info _ a b = b ≡ a

-- A transfer of an owner's shares, after the allowance was lowered.
after_allowance :
    (d : Deps) (env : Env) (info : MessageInfo) (k : Addr) (recipient : HumanAddr) (amount : ℕ)
    (s t u s' : Store)
    → deduct_allowance standard d k info.sender env amount s ≡ ok t
    → transfer_internal standard d k recipient amount t ≡ ok u
    → u ≡ s'
    → (j : Addr) × (d.addr_validate recipient ≡ ok j) × Moves k j amount (ledger s) (ledger s')
after_allowance d env info k recipient amount s t u s' e f g =
    let (j, v, m) = transfer-Moves d k recipient amount t u f in
    (
      j,
      v,
      subst (λ x. Moves k j amount x (ledger s'))
          (deduct_allowance-ledger d k info.sender env amount s t e)
          (subst (λ x. Moves k j amount (ledger t) (ledger x)) g m),
    )

same_end :
    {s t : Store} {ms : List Message} {m : List Message}
    → Path (Result ContractError (Store × List Message)) (ok (t, m)) (ok (s, ms))
    → t ≡ s
same_end h = ground arith

bond_to-Mints :
    (d : Deps) (env : Env) (to : Addr) (prev : ℕ) (minimum : Option ℕ) (s s' : Store)
    (ms : List Message)
    → bond_to standard d env to prev minimum s ≡ ok (s', ms)
    → (n : ℕ) × Mints to n (ledger s) (ledger s')
unfolding bond_to
bond_to-Mints d env to prev minimum s s' ms h =
    let (balance, _, h1) =
      try-eq-ok std (d.query_token_balance s.config.liquidity_token env.contract) _ h in
    let (amount, _, h2) = try-eq-ok std (standard.minus balance prev) _ h1 in
    let (_, _, h3) = >>=-eq-ok (check_minimum_receive minimum amount) _ h2 in
    bond-Mints d env to amount s s' ms h3

execute-Performs :
    (d : Deps) (env : Env) (info : MessageInfo) (msg : ExecuteMsg) (s s' : Store)
    (ms : List Message)
    → execute standard d env info msg s ≡ ok (s', ms)
    → Performs d info msg (ledger s) (ledger s')
unfolding execute receive_cw20 bond update_config bond_assets compound stake handle_callback
    run_callback execute_transfer execute_burn execute_send execute_transfer_from execute_burn_from
    execute_send_from execute_increase_allowance execute_decrease_allowance
execute-Performs d env info (receive sender amount (bond_hook staker)) s s' ms h =
    let (k, e, h1) = try-eq-ok std (d.addr_validate (unwrap_or staker sender)) _ h in
    let (_, h2) = fail_if-eq-ok _ _ _ h1 in (k, e, bond-Mints d env k amount s s' ms h2)
execute-Performs d env info (callback_msg (bond_to_callback to prev minimum)) s s' ms h =
    let (_, h1) = fail_if-eq-ok _ _ _ h in bond_to-Mints d env to prev minimum s s' ms h1
execute-Performs d env info (unbond_msg amount) s s' ms h =
    unbond-Destroys d env info amount s s' ms h
execute-Performs d env info (transfer_msg recipient amount) s s' ms h =
    let (t, e, f) = >>=-eq-ok (transfer_internal standard d info.sender recipient amount s) _ h in
    let (j, v, m) = transfer-Moves d info.sender recipient amount s t e in
    (j, v, subst (λ x. Moves info.sender j amount (ledger s) (ledger x)) (same_end f) m)
execute-Performs d env info (send_msg contract amount msg) s s' ms h =
    let (t, e, f) = >>=-eq-ok (transfer_internal standard d info.sender contract amount s) _ h in
    let (j, v, m) = transfer-Moves d info.sender contract amount s t e in
    (j, v, subst (λ x. Moves info.sender j amount (ledger s) (ledger x)) (same_end f) m)
execute-Performs d env info (burn_msg amount) s s' ms h =
    let (t, e, f) = >>=-eq-ok (burn_internal standard d info.sender amount s) _ h in
    subst (λ x. Destroys info.sender amount (ledger s) (ledger x)) (same_end f)
      (burn-Destroys info.sender amount s t (burn_internal-Burns d info.sender amount s e))
execute-Performs d env info (transfer_from_msg owner recipient amount) s s' ms h =
    let (k, v, h1) = try-eq-ok std (d.addr_validate owner) _ h in
    let (t, e, h2) = >>=-eq-ok (deduct_allowance standard d k info.sender env amount s) _ h1 in
    let (u, f, g) = >>=-eq-ok (transfer_internal standard d k recipient amount t) _ h2 in
    (k, v, after_allowance d env info k recipient amount s t u s' e f (same_end g))
execute-Performs d env info (send_from_msg owner contract amount msg) s s' ms h =
    let (k, v, h1) = try-eq-ok std (d.addr_validate owner) _ h in
    let (t, e, h2) = >>=-eq-ok (deduct_allowance standard d k info.sender env amount s) _ h1 in
    let (u, f, g) = >>=-eq-ok (transfer_internal standard d k contract amount t) _ h2 in
    (k, v, after_allowance d env info k contract amount s t u s' e f (same_end g))
execute-Performs d env info (burn_from_msg owner amount) s s' ms h =
    let (k, v, h1) = try-eq-ok std (d.addr_validate owner) _ h in
    let (t, e, h2) = >>=-eq-ok (deduct_allowance standard d k info.sender env amount s) _ h1 in
    let (u, f, g) = >>=-eq-ok (burn_internal standard d k amount t) _ h2 in
    let m = burn-Destroys k amount t u (burn_internal-Burns d k amount t f) in
    (
      k,
      v,
      subst (λ x. Destroys k amount x (ledger s'))
          (deduct_allowance-ledger d k info.sender env amount s t e)
          (subst (λ x. Destroys k amount (ledger t) (ledger x)) (same_end g) m),
    )
execute-Performs d env info msg s s' ms h = ledger-eq s s' (ground arith) (ground arith)

-- The farm's token implements the ledger: where a message succeeds, the ledger that the store shows
-- takes the step that the message means. A transfer or a send moves just the amount from the sender,
-- or the named owner, to the valid recipient, who may be the same; a burn destroys just the amount;
-- an unbond destroys shares of the sender, a bond and its callback mint shares for their account;
-- every other message leaves all balances and the supply as they are.
pub execute_refines :
    (c : Cosmwasm)
    → IsDocumented c
    → (d : Deps) (env : Env) (info : MessageInfo) (msg : ExecuteMsg) (s s' : Store)
      (ms : List Message)
    → execute c d env info msg s ≡ ok (s', ms)
    → Performs d info msg (ledger s) (ledger s')
execute_refines = at_standard _ execute-Performs
