-- ===== src/LpStaking/Books.antt =====
-- Sound books stay sound through every message.
use baz_core.Common.{ℕ, ◌+◌, ◌-◌, ◌≡◌, Option, List, ok, arith, refl, subst, sym}
use baz_core.Common.{try-eq-ok, fail_if-eq-ok}
use baz_core.Cosmwasm.{Cosmwasm, IsDocumented}
use baz_core.Cosmwasm.Standard.{standard, at_standard}
use baz_core.Host.{HumanAddr, Api, Env, MessageInfo}
use baz_core.LpStaking.Defs.{Store, std}
use baz_core.LpStaking.Contract.{
  Message, ExecuteMsg, InstantiateMsg, unbond, withdraw, bond, receive_cw20, execute, update_config,
  receive, unbond_msg, withdraw_msg, bond_hook, unreadable, instantiate,
}
use baz_core.LpStaking.Ledger.{IsSound, settle-Settles, insert-Stores, save_or_remove-Stores, books}
use baz_core.LpStaking.Runs.{unbond-Unbonds, withdraw-Withdraws, bond-Bonds, less_bond, more_bond}

unbond-IsSound :
    (env : Env) (info : MessageInfo) (amount : ℕ) (s : Store) {s' : Store} {ms : List Message}
    → IsSound s
    → unbond standard env info amount s ≡ ok (s', ms)
    → IsSound s'
unbond-IsSound env info amount s v h =
    let u = unbond-Unbonds env info amount s h in
    let r' = record u.r { bond_amount = u.r.bond_amount - amount } in
    subst IsSound (sym u.result) (
      books env.time info.sender s u.state (less_bond amount u.state) u.r r' _ v
        (settle-Settles env info.sender s u.settled)
        (save_or_remove-Stores info.sender r' s.reward_infos) (omega (arith, u.total, u.own)) refl
        refl)

withdraw-IsSound :
    (env : Env) (info : MessageInfo) (amount : Option ℕ) (s : Store) {s' : Store}
    {ms : List Message}
    → IsSound s
    → withdraw standard env info amount s ≡ ok (s', ms)
    → IsSound s'
withdraw-IsSound env info amount s v h =
    let (state, r, e, u) = withdraw-Withdraws env info amount s h in
    subst IsSound (sym u.result) (
      books env.time info.sender s state state r _ _ v (settle-Settles env info.sender s e)
        (save_or_remove-Stores info.sender _ s.reward_infos) refl refl refl)

pub bond-IsSound :
    (api : Api) (env : Env) (sender : HumanAddr) (amount : ℕ) (s : Store) {s' : Store}
    {ms : List Message}
    → IsSound s
    → bond standard api env sender amount s ≡ ok (s', ms)
    → IsSound s'
bond-IsSound api env sender amount s v h =
    let u = bond-Bonds api env sender amount s h in
    let r' = record u.r { bond_amount = u.r.bond_amount + amount } in
    subst IsSound (sym u.result) (
      books env.time u.staker s u.state (more_bond amount u.state) u.r r' _ v
        (settle-Settles env u.staker s u.settled) (insert-Stores u.staker r' s.reward_infos)
        (omega arith) refl refl)

-- Saving another configuration or proposal does not touch the books.
same_books :
    (s s' : Store) → s'.state ≡ s.state → s'.reward_infos ≡ s.reward_infos → IsSound s → IsSound s'
same_books s s' e f v = record {
  keys = rw f v.keys;
  total = rw (e, f) v.total;
  indexes = rw (e, f) v.indexes;
}

execute-IsSound-standard :
    (api : Api) (env : Env) (info : MessageInfo) (msg : ExecuteMsg) (s s' : Store)
    (ms : List Message)
    → IsSound s
    → execute standard api env info msg s ≡ ok (s', ms)
    → IsSound s'
unfolding execute receive_cw20 update_config
execute-IsSound-standard api env info (receive sender amount (bond_hook a)) s s' ms v h =
    let (_, h0) = fail_if-eq-ok _ _ _ h in
    let (sender', _, h1) = try-eq-ok std (api sender) _ h0 in bond-IsSound api env _ amount s v h1
execute-IsSound-standard api env info (receive sender amount unreadable) s s' ms v h = cc
execute-IsSound-standard api env info (unbond_msg amount) s s' ms v h =
    unbond-IsSound env info amount s v h
execute-IsSound-standard api env info (withdraw_msg amount) s s' ms v h =
    withdraw-IsSound env info amount s v h
execute-IsSound-standard api env info _ s s' ms v h =
    same_books s s' (ground arith) (ground arith) v

-- Whatever a message does, where it succeeds, sound books stay sound: the bonded total is the sum
-- of the stakers' bonds, no staker is stored twice, and no index passes the global one.
pub execute-IsSound :
    (c : Cosmwasm)
    → IsDocumented c
    → (api : Api) (env : Env) (info : MessageInfo) (msg : ExecuteMsg) (s s' : Store)
      (ms : List Message)
    → IsSound s
    → execute c api env info msg s ≡ ok (s', ms)
    → IsSound s'
execute-IsSound = at_standard _ execute-IsSound-standard

-- The books of a new contract are sound.
instantiate-IsSound :
    (api : Api) (env : Env) (msg : InstantiateMsg) (s : Store)
    → instantiate api env msg ≡ ok s
    → IsSound s
unfolding instantiate
instantiate-IsSound api env msg s h = ground arith

-- The stores that messages lead to, each message at a block and from a sender of its own.
pub data Reach (c : Cosmwasm) (api : Api) (s : Store) : Store → Type 0 where
  here : Reach c api s s
  next :
      {t u : Store} (env : Env) (info : MessageInfo) (msg : ExecuteMsg) (ms : List Message)
      → Reach c api s t
      → execute c api env info msg t ≡ ok (u, ms)
      → Reach c api s u

Reach-IsSound :
    (c : Cosmwasm) (d : IsDocumented c) (api : Api) {s t : Store}
    → IsSound s
    → Reach c api s t
    → IsSound t
Reach-IsSound c d api v here = v
Reach-IsSound c d api v (next {t = t} {u = u} env info msg ms r h) =
    execute-IsSound c d api env info msg t u ms (Reach-IsSound c d api v r) h

-- From its instantiation on, whatever messages come, the books are sound.
pub reachable-IsSound :
    (c : Cosmwasm)
    → IsDocumented c
    → (api : Api) (env : Env) (msg : InstantiateMsg) (s t : Store) → instantiate api env msg ≡ ok s
    → Reach c api s t
    → IsSound t
reachable-IsSound c d api env msg s t h r =
    Reach-IsSound c d api (instantiate-IsSound api env msg s h) r
