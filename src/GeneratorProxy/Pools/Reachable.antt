-- ===== src/GeneratorProxy/Pools/Reachable.antt =====
-- contracts/generator_proxy: what holds of the pools after any run of messages.
use baz_core.Common.{
  ℕ, ◌+◌, ◌≡◌, ◌==◌, refl, ap, subst, ◌∙◌, not, true, Bool-cases, inl, inr, List, [], Option, some,
  ok, arith, eq→≡, >>=-eq-ok, try-eq-ok, fail_if-eq-ok,
}
use baz_core.Common.Map.{Map, lookup, at_key, sum_by-insert, insert-IsMap}
use baz_core.Cosmwasm.{Cosmwasm, IsDocumented, load, load-eq-ok, checked, checked-eq-ok}
use baz_core.Cosmwasm.Standard.{standard, at_standard}
use baz_core.Host.{Addr, Env, MessageInfo}
use baz_core.GeneratorProxy.Defs.{Config, RewardInfo, std, overflow}
use baz_core.GeneratorProxy.Pools.Defs.{PoolInfo, UserInfo, Store, Deps, Message, calc_bond_share}
use baz_core.GeneratorProxy.Pools.Reconcile.{reconcile_to_user_info}
use baz_core.GeneratorProxy.Pools.Bond.{set_user}
use baz_core.GeneratorProxy.Pools.Call.{callback_withdraw, pay_rewards, callback_claim_rewards}
use baz_core.GeneratorProxy.Pools.Contract.{
  CallbackMsg, after_bond_claimed, deposit, withdraw, after_bond_changed, claim_rewards, ExecuteMsg,
  receive_deposit_msg, claim_rewards_msg, withdraw_msg, callback_msg, run_callback, handle_callback,
  receive_deposit, execute,
}
use baz_core.GeneratorProxy.Pools.Shares.{IsSound, bonded, total, user-IsSound, first_eq}
use baz_core.GeneratorProxy.Pools.Kept
use baz_core.GeneratorProxy.Pools.Callbacks.{
  user_kept, claimed-IsSound, changed-IsSound, deposit-IsSound,
}

-- A user of a pool is saved with the same shares.
same_user :
    (s : Store) (lp_token user : Addr) (u u' : UserInfo) (rewards : Map RewardInfo)
    → IsSound s
    → lookup user (s.users lp_token) ≡ some u
    → bonded u' ≡ bonded u
    → IsSound (record s { users = set_user lp_token user u' s.users; reward_infos = rewards })
unfolding set_user
same_user s lp_token user u u' rewards v l e = record {
  keys = λ lp. elim (Bool-cases (lp == lp_token)) [
    | inl t ↦ rw t (insert-IsMap user u' (s.users lp) (v.keys lp))
    | inr t ↦ rw t (v.keys lp)
  ];
  shares = λ lp.
      let w = v.shares lp in
      let i = sum_by-insert bonded user u' (s.users lp) in
      elim (Bool-cases (lp == lp_token)) [
        | inl t ↦
            let q =
              ap (at_key bonded) (ap (λ x. lookup user (s.users x)) (eq→≡ lp lp_token t) ∙ l) in
            ground arith
        | inr t ↦ ground arith
      ];
}

-- A withdrawal takes the same from the user and from the pool.
takes :
    (op : Option PoolInfo) (ou : Option UserInfo) (p : PoolInfo) (u : UserInfo) (share b t : ℕ)
    → op ≡ some p
    → ou ≡ some u
    → b + share ≡ bonded u
    → t + share ≡ total p
    → t + at_key bonded ou ≡ at_key total op + b
takes op ou p u share b t e f g h = rw (e, f) (omega arith)

module _ (d : Deps) (env : Env) where
  out-IsSound :
      (lp_token staker : Addr) (amount : ℕ) (s : Store) (x : Store × List Message)
      → IsSound s
      → callback_withdraw standard d env lp_token staker amount s ≡ ok x
      → IsSound x.0
  unfolding callback_withdraw
  out-IsSound lp_token staker amount s x v h =
      let (p, e, h1) = try-eq-ok std (load (lookup lp_token s.pools)) _ h in
      let (u, f, h2) = try-eq-ok std (load (lookup staker (s.users lp_token))) _ h1 in
      let (w, g, h3) = try-eq-ok std (reconcile_to_user_info standard d p u) _ h2 in
      let (n, _, h4) =
        try-eq-ok std (d.query_deposit s.config.generator lp_token env.contract) _ h3 in
      let (share, _, h5) = try-eq-ok std (calc_bond_share standard p n amount true) _ h4 in
      let (b, i, h6) = try-eq-ok (λ _. overflow) (checked w.bond_share share) _ h5 in
      let (t, j, h7) = try-eq-ok (λ _. overflow) (checked p.total_bond_share share) _ h6 in
      subst IsSound (first_eq h7) (
        user-IsSound s lp_token staker (record p { total_bond_share = t })
          (record w { bond_share = b }) v
          (takes (lookup lp_token s.pools) (lookup staker (s.users lp_token)) p u share b t
            (load-eq-ok (lookup lp_token s.pools) e)
            (load-eq-ok (lookup staker (s.users lp_token)) f)
            (checked-eq-ok w.bond_share share i ∙ user_kept d p u g)
            (checked-eq-ok p.total_bond_share share j)))

  paid-IsSound :
      (lp_token staker : Addr) (s : Store) (x : Store × List Message)
      → IsSound s
      → callback_claim_rewards standard d lp_token staker s ≡ ok x
      → IsSound x.0
  unfolding callback_claim_rewards
  paid-IsSound lp_token staker s x v h =
      let (u, e, h1) = try-eq-ok std (load (lookup staker (s.users lp_token))) _ h in
      let (p, _, h2) = try-eq-ok std (load (lookup lp_token s.pools)) _ h1 in
      let (w, g, h3) = try-eq-ok std (reconcile_to_user_info standard d p u) _ h2 in
      let (y, _, h4) =
        >>=-eq-ok (pay_rewards standard d staker w.pending_rewards s.reward_infos) _ h3 in
      subst IsSound (first_eq h4) (
        same_user s lp_token staker u (record w { pending_rewards = [] }) y.0 v
          (load-eq-ok (lookup staker (s.users lp_token)) e) (user_kept d p u g))

  callback-IsSound :
      (msg : CallbackMsg) (s : Store) (x : Store × List Message)
      → IsSound s
      → run_callback standard d env msg s ≡ ok x
      → IsSound x.0
  unfolding run_callback
  callback-IsSound (after_bond_claimed lp_token prev) s x v h =
      claimed-IsSound d env lp_token prev s x v h
  callback-IsSound (deposit lp_token staker amount) s x v h =
      deposit-IsSound d env lp_token staker amount s x v h
  callback-IsSound (withdraw lp_token staker amount) s x v h =
      out-IsSound lp_token staker amount s x v h
  callback-IsSound (after_bond_changed lp_token) s x v h = changed-IsSound d env lp_token s x v h
  callback-IsSound (claim_rewards lp_token staker) s x v h = paid-IsSound lp_token staker s x v h

execute-IsSound-standard :
    (d : Deps) (env : Env) (info : MessageInfo) (msg : ExecuteMsg) (s : Store)
    (x : Store × List Message)
    → IsSound s
    → execute standard d env info msg s ≡ ok x
    → IsSound x.0
unfolding execute receive_deposit handle_callback
execute-IsSound-standard d env info (receive_deposit_msg sender amount) s x v h =
    let (k, _, h1) = try-eq-ok std (d.addr_validate sender) _ h in
    Kept.deposit-IsSound d env info k amount s x v h1
execute-IsSound-standard d env info (claim_rewards_msg texts) s x v h =
    Kept.claims-IsSound d env info texts s x v h
execute-IsSound-standard d env info (withdraw_msg text amount) s x v h =
    Kept.withdraw-IsSound d env info text amount s x v h
execute-IsSound-standard d env info (callback_msg msg) s x v h =
    let (_, h1) = fail_if-eq-ok (not (info.sender == env.contract)) _ _ h in
    callback-IsSound d env msg s x v h1

execute-IsSound :
    (c : Cosmwasm)
    → IsDocumented c
    → (d : Deps) (env : Env) (info : MessageInfo) (msg : ExecuteMsg) (s : Store)
      (x : Store × List Message)
    → IsSound s
    → execute c d env info msg s ≡ ok x
    → IsSound x.0
execute-IsSound = at_standard _ execute-IsSound-standard

-- The stores that messages to the pools lead to from one without pools and users. Between them the
-- messages to the staking change the rewards and the configuration, in whatever way; at each message
-- the other contracts answer anew.
pub data Reach (c : Cosmwasm) : Store → Type 0 where
  fresh :
      (config : Config)
      → Reach c (record { config = config; reward_infos = []; pools = []; users = λ _. [] })
  message :
      {s : Store} (d : Deps) (env : Env) (info : MessageInfo) (msg : ExecuteMsg)
      (x : Store × List Message)
      → Reach c s
      → execute c d env info msg s ≡ ok x
      → Reach c x.0
  staking :
      {s : Store} (config : Config) (rewards : Map RewardInfo)
      → Reach c s
      → Reach c (record s { config = config; reward_infos = rewards })

-- Whatever messages come, however the messages to the staking change the rewards and the
-- configuration and whatever the other contracts answer: in every pool the total of the shares is
-- the sum of its users' shares, and no user has two entries in it.
pub reachable_pools : (c : Cosmwasm) → IsDocumented c → (s : Store) → Reach c s → IsSound s
reachable_pools c e _ (fresh config) = record { keys = λ _. tt; shares = λ _. refl }
reachable_pools c e _ (message {s = s} d env info msg x r h) =
    execute-IsSound c e d env info msg s x (reachable_pools c e s r) h
reachable_pools c e _ (staking {s = s} config rewards r) =
    let v = reachable_pools c e s r in record { keys = v.keys; shares = v.shares }
