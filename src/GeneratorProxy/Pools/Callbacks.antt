-- ===== src/GeneratorProxy/Pools/Callbacks.antt =====
-- contracts/generator_proxy/src/bond.rs: every callback of the pools keeps the shares.
use baz_core.Common.{
  ℕ, ◌+◌, ◌≡◌, refl, sym, ap, subst, ◌∙◌, false, Option-cases, inl, inr, Option, some, none,
  unwrap_or, List, [], ◌∷◌, ok, arith, >>=-eq-ok, try-eq-ok, map_err-eq-ok,
}
use baz_core.Common.Words.{u128_mod, fit}
use baz_core.Common.Map.{Map, lookup, at_key}
use baz_core.Cosmwasm.{StdResult, load, load-eq-ok, checked}
use baz_core.Cosmwasm.Standard.{standard}
use baz_core.Host.{Addr, Env}
use baz_core.GeneratorProxy.Defs.{std, overflow}
use baz_core.GeneratorProxy.Pools.Defs.{
  PoolInfo, UserInfo, Store, AstroUserInfo, Deps, Message, no_pool, no_rewards, create_user,
  calc_bond_share,
}
use baz_core.GeneratorProxy.Pools.Reconcile.{get_last, reconcile_to_user_info, add_rewards}
use baz_core.GeneratorProxy.Pools.Bond.{Books, found, save_astro, save_token}
use baz_core.GeneratorProxy.Pools.Call.{
  user_info_not_found, claimed_astro, claimed_token, claimed_tokens, callback_after_bond_claimed,
  changed, callback_after_bond_changed, callback_deposit,
}
use baz_core.GeneratorProxy.Pools.Shares.{
  IsSound, bonded, total, pool-IsSound, user-IsSound, first_eq, save_astro-kept, save_token-kept,
}

fit-eq-ok : (m x : ℕ) {n : ℕ} → Path (StdResult ℕ) (fit m x) (ok n) → x ≡ n
fit-eq-ok m x h = ground arith

-- A user's shares are not touched by the rewards.
pub user_kept :
    (d : Deps) (p : PoolInfo) (u : UserInfo) {u' : UserInfo}
    → reconcile_to_user_info standard d p u ≡ ok u'
    → bonded u' ≡ bonded u
unfolding reconcile_to_user_info
user_kept d p u h =
    let (m, _, h1) =
      >>=-eq-ok
        (add_rewards standard d p.reward_indexes u.reward_indexes u.bond_share u.pending_rewards) _
        h in
    ground arith

-- What an entry counts, where there is none nothing.
part_of_user :
    (k : Addr) (m : Map UserInfo) (p : PoolInfo)
    → at_key bonded (lookup k m) ≡ bonded (unwrap_or (lookup k m) (create_user p))
part_of_user k m p = elim (Option-cases (lookup k m)) [ inl e ↦ rw e refl | inr (u, e) ↦ rw e refl ]

part_of_pool :
    (k : Addr) (m : Map PoolInfo)
    → at_key total (lookup k m) ≡ total (unwrap_or (lookup k m) no_pool)
part_of_pool k m = elim (Option-cases (lookup k m)) [ inl e ↦ rw e refl | inr (p, e) ↦ rw e refl ]

-- A deposit adds the same to the user and to the pool.
deposit_adds :
    (s : Store) (lp_token staker : Addr) (share b t : ℕ)
    → bonded (
          unwrap_or
            (lookup staker (s.users lp_token))
            (create_user (unwrap_or (lookup lp_token s.pools) no_pool)))
        + share
      ≡ b
    → total (unwrap_or (lookup lp_token s.pools) no_pool) + share ≡ t
    → t + at_key bonded (lookup staker (s.users lp_token))
      ≡ at_key total (lookup lp_token s.pools) + b
deposit_adds s lp_token staker share b t e f =
    let p = unwrap_or (lookup lp_token s.pools) no_pool in
    let x = part_of_user staker (s.users lp_token) p in
    let y = part_of_pool lp_token s.pools in omega arith

module _ (d : Deps) where
  astro-kept :
      (s : Store) (a : AstroUserInfo) (n : ℕ) (o : Option ℕ) (p : PoolInfo) (b : Books)
      → claimed_astro standard d s a n o p ≡ ok b
      → total b.0 ≡ total p
  unfolding claimed_astro
  astro-kept s a n none p b h = ground arith
  astro-kept s a n (some m) p b h =
      let (net, _, h1) = try-eq-ok (λ _. overflow) (checked n m) _ h in
      let r = unwrap_or (lookup s.config.astro_token s.reward_infos) no_rewards in
      save_astro-kept d s.config a r net (p, s.reward_infos)
        (map_err-eq-ok std (save_astro standard d s.config a r net (p, s.reward_infos)) h1)

  token_kept :
      (contract_addr k : Addr) (o : Option ℕ) (b b' : Books)
      → claimed_token standard d contract_addr k o b ≡ ok b'
      → total b'.0 ≡ total b.0
  unfolding claimed_token
  token_kept contract_addr k none b b' h = ground arith
  token_kept contract_addr k (some m) b b' h =
      let (n, _, h1) = try-eq-ok std (d.query_token_balance k contract_addr) _ h in
      let (net, _, h2) = try-eq-ok (λ _. overflow) (checked n m) _ h1 in
      let r = unwrap_or (lookup k b.1) no_rewards in
      save_token-kept d k r net b (map_err-eq-ok std (save_token standard d k r net b) h2)

  tokens-kept :
      (contract_addr : Addr) (prev debts : Map ℕ) (b b' : Books)
      → claimed_tokens standard d contract_addr prev debts b ≡ ok b'
      → total b'.0 ≡ total b.0
  unfolding claimed_tokens
  tokens-kept contract_addr prev [] b b' h = ground arith
  tokens-kept contract_addr prev ((k, _) ∷ rest) b b' h =
      let (t, e, h1) =
        >>=-eq-ok (claimed_token standard d contract_addr k (get_last k prev) b) _ h in
      tokens-kept contract_addr prev rest t b' h1
      ∙ token_kept contract_addr k (get_last k prev) b t e

  pub claimed-IsSound :
      (env : Env) (lp_token : Addr) (prev : Map ℕ) (s : Store) (x : Store × List Message)
      → IsSound s
      → callback_after_bond_claimed standard d env lp_token prev s ≡ ok x
      → IsSound x.0
  unfolding callback_after_bond_claimed
  claimed-IsSound env lp_token prev s x v h =
      let (p, e, h1) = try-eq-ok std (load (lookup lp_token s.pools)) _ h in
      let (q, _, h2) =
        try-eq-ok std (d.query_user_info s.config.generator lp_token env.contract) _ h1 in
      let (a, _, h3) = try-eq-ok std (found user_info_not_found q) _ h2 in
      let (n, _, h4) =
        try-eq-ok std (d.query_token_balance s.config.astro_token env.contract) _ h3 in
      let o = get_last s.config.astro_token prev in
      let (b, f, h5) = >>=-eq-ok (claimed_astro standard d s a n o p) _ h4 in
      let (t, g, h6) =
        >>=-eq-ok (claimed_tokens standard d env.contract prev a.reward_debt_proxy b) _ h5 in
      let k1 = astro-kept s a n o p b f in
      let k2 = tokens-kept env.contract prev a.reward_debt_proxy b t g in
      subst IsSound (first_eq h6) (
        pool-IsSound s lp_token
          (record t.0 {
            prev_reward_user_index = a.reward_user_index;
            prev_reward_debt_proxy = a.reward_debt_proxy;
            last_reconcile = env.height;
          })
          t.1 v (k2 ∙ k1 ∙ sym (ap (at_key total) (load-eq-ok (lookup lp_token s.pools) e))))

  changed_known :
      (o : Option AstroUserInfo) (lp_token : Addr) (s : Store) (x : Store × List Message)
      → IsSound s
      → changed standard d o lp_token s ≡ ok x
      → IsSound x.0
  unfolding changed
  changed_known none lp_token s x v h = subst IsSound (first_eq h) v
  changed_known (some a) lp_token s x v h =
      let (p, e, h1) = try-eq-ok std (load (lookup lp_token s.pools)) _ h in
      subst IsSound (first_eq h1) (
        pool-IsSound s lp_token
          (record p {
            prev_reward_user_index = a.reward_user_index;
            prev_reward_debt_proxy = a.reward_debt_proxy;
          })
          s.reward_infos v (sym (ap (at_key total) (load-eq-ok (lookup lp_token s.pools) e))))

  pub changed-IsSound :
      (env : Env) (lp_token : Addr) (s : Store) (x : Store × List Message)
      → IsSound s
      → callback_after_bond_changed standard d env lp_token s ≡ ok x
      → IsSound x.0
  unfolding callback_after_bond_changed
  changed-IsSound env lp_token s x v h =
      let (o, _, h1) =
        try-eq-ok std (d.query_user_info s.config.generator lp_token env.contract) _ h in
      changed_known o lp_token s x v h1

  pub deposit-IsSound :
      (env : Env) (lp_token staker : Addr) (amount : ℕ) (s : Store) (x : Store × List Message)
      → IsSound s
      → callback_deposit standard d env lp_token staker amount s ≡ ok x
      → IsSound x.0
  unfolding callback_deposit
  deposit-IsSound env lp_token staker amount s x v h =
      let p = unwrap_or (lookup lp_token s.pools) no_pool in
      let u = unwrap_or (lookup staker (s.users lp_token)) (create_user p) in
      let (w, e, h1) = try-eq-ok std (reconcile_to_user_info standard d p u) _ h in
      let (n, _, h2) =
        try-eq-ok std (d.query_deposit s.config.generator lp_token env.contract) _ h1 in
      let (share, _, h3) = try-eq-ok std (calc_bond_share standard p n amount false) _ h2 in
      let (b, f, h4) = try-eq-ok std (standard.add w.bond_share share) _ h3 in
      let (t, g, h5) = try-eq-ok std (standard.add p.total_bond_share share) _ h4 in
      let e1 = user_kept d p u e in
      let f1 = fit-eq-ok u128_mod (w.bond_share + share) f in
      let g1 = fit-eq-ok u128_mod (p.total_bond_share + share) g in
      subst IsSound (first_eq h5) (
        user-IsSound s lp_token staker (record p { total_bond_share = t })
          (record w { bond_share = b }) v
          (deposit_adds s lp_token staker share b t (ap (λ z. z + share) (sym e1) ∙ f1) g1))
