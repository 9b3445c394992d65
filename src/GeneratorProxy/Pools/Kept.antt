-- ===== src/GeneratorProxy/Pools/Kept.antt =====
-- contracts/generator_proxy/src/bond.rs: every message to the pools keeps the shares.
use baz_core.Common.{
  ℕ, ◌≡◌, ◌==◌, refl, subst, Bool, Bool-cases, inl, inr, Option, some, none, List, [], ◌∷◌, ok,
  if_taken, if_skipped, >>=-eq-ok, try-eq-ok,
}
use baz_core.Common.Map.{Map, lookup}
use baz_core.Cosmwasm.Standard.{standard}
use baz_core.Host.{Addr, HumanAddr, Env, MessageInfo}
use baz_core.GeneratorProxy.Defs.{Config, std}
use baz_core.GeneratorProxy.Pools.Defs.{PoolInfo, Store, AstroUserInfo, Deps, Message}
use baz_core.GeneratorProxy.Pools.Reconcile.{fetch_balance}
use baz_core.GeneratorProxy.Pools.Bond.{
  found, user_info_is_not_found, reconcile_pool, reconcile_stored, reconcile_claimed_by_others,
  claim_if_known, execute_deposit, execute_withdraw, execute_claim_rewards,
}
use baz_core.GeneratorProxy.Pools.Shares.{IsSound, first_eq, third_eq, reconcile_pool-IsSound}

module _ (d : Deps) (env : Env) where
  stored-IsSound :
      (o : Option PoolInfo) (config : Config) (lp_token : Addr) (a : AstroUserInfo) (s : Store)
      (x : Bool × Map ℕ × Store)
      → IsSound s
      → lookup lp_token s.pools ≡ o
      → reconcile_stored standard d o env config lp_token a s ≡ ok x
      → IsSound x.2
  unfolding reconcile_stored
  stored-IsSound none config lp_token a s x v l h =
      let (b, _, h1) = >>=-eq-ok (fetch_balance standard d config env.contract a) _ h in
      subst IsSound (third_eq h1) v
  stored-IsSound (some p) config lp_token a s x v l h =
      elim (Bool-cases (p.total_bond_share == 0)) [
        | inl t ↦
            let (b, _, h1) =
              >>=-eq-ok (fetch_balance standard d config env.contract a) _
                (if_taken (p.total_bond_share == 0) _ t h) in
            subst IsSound (third_eq h1) v
        | inr t ↦
            let h1 = if_skipped (p.total_bond_share == 0) _ t h in
            elim (Bool-cases (p.last_reconcile == env.height)) [
              | inl q ↦
                  let (b, _, h2) =
                    >>=-eq-ok (fetch_balance standard d config env.contract a) _
                      (if_taken (p.last_reconcile == env.height) _ q h1) in
                  subst IsSound (third_eq h2) v
              | inr q ↦
                  let (y, e, h2) =
                    >>=-eq-ok (reconcile_pool standard d env config lp_token a p s) _
                      (if_skipped (p.last_reconcile == env.height) _ q h1) in
                  subst IsSound (third_eq h2)
                    (reconcile_pool-IsSound d env config lp_token a p s y v l e)
            ]
      ]

  known-IsSound :
      (o : Option AstroUserInfo) (lp_token : Addr) (s : Store) (x : Store × List Message)
      → IsSound s
      → claim_if_known standard d o env lp_token s ≡ ok x
      → IsSound x.0
  unfolding claim_if_known reconcile_claimed_by_others
  known-IsSound none lp_token s x v h = subst IsSound (first_eq h) v
  known-IsSound (some a) lp_token s x v h =
      let (y, e, h1) =
        >>=-eq-ok (reconcile_stored standard d (lookup lp_token s.pools) env s.config lp_token a s)
          _ h in
      subst IsSound (first_eq h1)
        (stored-IsSound (lookup lp_token s.pools) s.config lp_token a s y v refl e)

  pub deposit-IsSound :
      (info : MessageInfo) (staker : Addr) (amount : ℕ) (s : Store) (x : Store × List Message)
      → IsSound s
      → execute_deposit standard d env info staker amount s ≡ ok x
      → IsSound x.0
  unfolding execute_deposit
  deposit-IsSound info staker amount s x v h =
      let (o, _, h1) =
        try-eq-ok std (d.query_user_info s.config.generator info.sender env.contract) _ h in
      let (y, e, h2) = try-eq-ok std (claim_if_known standard d o env info.sender s) _ h1 in
      subst IsSound (first_eq h2) (known-IsSound o info.sender s y v e)

  pub withdraw-IsSound :
      (info : MessageInfo) (text : HumanAddr) (amount : ℕ) (s : Store) (x : Store × List Message)
      → IsSound s
      → execute_withdraw standard d env info text amount s ≡ ok x
      → IsSound x.0
  unfolding execute_withdraw
  withdraw-IsSound info text amount s x v h =
      let (lp, _, h1) = try-eq-ok std (d.addr_validate text) _ h in
      let (o, _, h2) = try-eq-ok std (d.query_user_info s.config.generator lp env.contract) _ h1 in
      let (a, _, h3) = try-eq-ok std (found user_info_is_not_found o) _ h2 in
      let (y, e, h4) = try-eq-ok std (claim_if_known standard d (some a) env lp s) _ h3 in
      subst IsSound (first_eq h4) (known-IsSound (some a) lp s y v e)

  pub claims-IsSound :
      (info : MessageInfo) (texts : List HumanAddr) (s : Store) (x : Store × List Message)
      → IsSound s
      → execute_claim_rewards standard d env info texts s ≡ ok x
      → IsSound x.0
  unfolding execute_claim_rewards
  claims-IsSound info [] s x v h = subst IsSound (first_eq h) v
  claims-IsSound info (text ∷ rest) s x v h =
      let (lp, _, h1) = try-eq-ok std (d.addr_validate text) _ h in
      let (o, _, h2) = try-eq-ok std (d.query_user_info s.config.generator lp env.contract) _ h1 in
      let (a, _, h3) = try-eq-ok std (found user_info_is_not_found o) _ h2 in
      let (y, e, h4) = try-eq-ok std (claim_if_known standard d (some a) env lp s) _ h3 in
      let (z, f, h5) = >>=-eq-ok (execute_claim_rewards standard d env info rest y.0) _ h4 in
      let w = known-IsSound (some a) lp s y v e in
      subst IsSound (first_eq h5) (claims-IsSound info rest y.0 z w f)
