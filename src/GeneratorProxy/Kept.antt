-- ===== src/GeneratorProxy/Kept.antt =====
-- contracts/generator_proxy/src/staking.rs: every handler keeps the books of the staking.
use baz_core.Common.{
  ℕ, ◌+◌, ◌≡◌, inl, inr, true, false, ltb, not, ◌&&◌, ◌==◌, Option, some, unwrap_or, List, ok, sym,
  ◌∙◌, arith, Option-cases, try-eq-ok, fail_if-eq-ok,
}
use baz_core.Common.Words.{u128_mod, fit}
use baz_core.Common.Map.{Map, lookup, insert}
use baz_core.Cosmwasm.{load, load-eq-ok, checked, StdResult}
use baz_core.Cosmwasm.Standard.{standard}
use baz_core.Host.{Addr, Env, MessageInfo}
use baz_core.GeneratorProxy.Defs.{
  StakingState, StakerInfo, RewardInfo, Store, Message, Deps, Lock, std, overflow, create,
  update_staking, calc_bond_share,
}
use baz_core.GeneratorProxy.Governance.{query_lock}
use baz_core.GeneratorProxy.Staking.{
  lock_messages, reconcile_staker_income, reconcile_to_staker_info,
  reconcile_staking_claim_by_others, save_stake, save_request, execute_stake, execute_relock,
  execute_request_unstake, execute_withdraw_unstaked, execute_claim_income,
}
use baz_core.GeneratorProxy.Ledger.{IsSound, Stands, save-IsSound, relock-IsSound}
use baz_core.GeneratorProxy.Books.{
  Keeps, Holds, income-Keeps, info-Holds, update-Holds, claimed-Keeps, withdraw-Books, stake-Books,
  request-Books, claim-Books, Holds-trans, IsSound-after,
}

fit-eq-ok : (m x : ℕ) {n : ℕ} → Path (StdResult ℕ) (fit m x) (ok n) → x ≡ n
fit-eq-ok m x h = ground arith

-- The entry of a staker who is not stored is empty.
read-Stands :
    (k : ℕ) (st : StakingState) (m : Map StakerInfo)
    → Stands k (unwrap_or (lookup k m) (create st)) m
read-Stands k st m = elim (Option-cases (lookup k m)) [
  | inl e ↦ inr (e, ground arith, ground arith)
  | inr (r, e) ↦ inl (ground arith)
]

module _ (d : Deps) (s s' : Store) (ms : List Message) (v : IsSound s) where
  pub withdraw-IsSound-standard :
      (info : MessageInfo) (amount : Option ℕ)
      → execute_withdraw_unstaked standard d info amount s ≡ ok (s', ms)
      → IsSound s'
  unfolding execute_withdraw_unstaked
  withdraw-IsSound-standard info amount h =
      let (r, e, h1) = try-eq-ok std (load (lookup info.sender s.stakers)) _ h in
      let (u, f, h2) = try-eq-ok std (update_staking standard r s.state) _ h1 in
      let n = unwrap_or amount u.unstaked_amount in
      let (a, g, h3) = try-eq-ok (λ _. overflow) (checked u.unstaked_amount n) _ h2 in
      let (b, i, h4) = try-eq-ok (λ _. overflow) (checked s.state.total_unstaked_amount n) _ h3 in
      let (o, q) = update-Holds s.state r f in
      IsSound-after
        (save-IsSound s info.sender r (record u { unstaked_amount = a })
          (record s.state { total_unstaked_amount = b }) s.reward_infos v
          (inl (load-eq-ok (lookup info.sender s.stakers) e))
          (withdraw-Books s.state r u n a b o q g i))
        h4

  save_stake-IsSound :
      (lock : Lock) (staker : Addr) (amount : ℕ) (messages : List Message)
      → save_stake standard d lock staker amount messages s ≡ ok (s', ms)
      → IsSound s'
  unfolding save_stake
  save_stake-IsSound lock staker amount messages h =
      let (a, _, h1) = try-eq-ok std (load (lookup s.config.astro_token s.reward_infos)) _ h in
      let r = unwrap_or (lookup staker s.stakers) (create s.state) in
      let (y, e, h2) = try-eq-ok std (reconcile_staker_income standard a s.state) _ h1 in
      let (u, f, h3) = try-eq-ok std (reconcile_to_staker_info standard y.1 r) _ h2 in
      let (share, _, h4) =
        try-eq-ok std (calc_bond_share standard y.1 lock.amount amount false) _ h3 in
      let (b, g, h5) = try-eq-ok std (standard.add u.bond_share share) _ h4 in
      let (t, i, h6) = try-eq-ok std (standard.add y.1.total_bond_share share) _ h5 in
      IsSound-after
        (save-IsSound s staker r (record u { bond_share = b }) (record y.1 { total_bond_share = t })
          (insert s.config.astro_token y.0 s.reward_infos) v (read-Stands staker s.state s.stakers)
          (stake-Books s.state y.1 r u share b t (income-Keeps a s.state e)
            (info-Holds s.state.unstaking_period y.1 r f)
            (fit-eq-ok u128_mod (u.bond_share + share) g)
            (fit-eq-ok u128_mod (y.1.total_bond_share + share) i)))
        h6

  pub stake-IsSound-standard :
      (env : Env) (info : MessageInfo) (staker : Addr) (amount : ℕ)
      → execute_stake standard d env info staker amount s ≡ ok (s', ms)
      → IsSound s'
  unfolding execute_stake
  stake-IsSound-standard env info staker amount h =
      let (_, h0) = fail_if-eq-ok (not (info.sender == s.config.astro_gov.xastro_token)) _ _ h in
      let (lock, _, h1) = try-eq-ok std (query_lock d s.config.astro_gov env.contract) _ h0 in
      let (locked, _, h2) = try-eq-ok std (standard.add lock.amount amount) _ h1 in
      let (_, h3) = fail_if-eq-ok (ltb s.config.max_quota locked) _ _ h2 in
      let (messages, _, h4) =
        try-eq-ok std (lock_messages standard d env s.config lock amount) _ h3 in
      save_stake-IsSound lock staker amount messages h4

  save_request-IsSound :
      (env : Env) (info : MessageInfo) (amount : ℕ) (a : RewardInfo) (st : StakingState)
      (r u : StakerInfo)
      → Keeps s.state st
      → lookup info.sender s.stakers ≡ some r
      → Holds s.state.unstaking_period r u
      → ltb u.unstaking_period st.unstaking_period ≡ false
      → save_request standard d env info amount a st u s ≡ ok (s', ms)
      → IsSound s'
  unfolding save_request
  save_request-IsSound env info amount a st r u keeps e o q h =
      let (lock, _, h1) = try-eq-ok std (query_lock d s.config.astro_gov env.contract) _ h in
      let (share, _, h2) =
        try-eq-ok std (calc_bond_share standard st lock.amount amount true) _ h1 in
      let (b, f, h3) = try-eq-ok (λ _. overflow) (checked u.bond_share share) _ h2 in
      let (w, g, h4) = try-eq-ok std (standard.add u.unstaking_amount amount) _ h3 in
      let (t, i, h5) = try-eq-ok (λ _. overflow) (checked st.total_bond_share share) _ h4 in
      let (z, j, h6) = try-eq-ok std (standard.add st.total_unstaking_amount amount) _ h5 in
      IsSound-after
        (save-IsSound s info.sender r (record u { bond_share = b; unstaking_amount = w })
          (record st { total_bond_share = t; total_unstaking_amount = z })
          (insert s.config.astro_token a s.reward_infos) v (inl e)
          (request-Books s.state st r u amount share b t w z keeps o q f
            (fit-eq-ok u128_mod (u.unstaking_amount + amount) g) i
            (fit-eq-ok u128_mod (st.total_unstaking_amount + amount) j)))
        h6

  pub request-IsSound-standard :
      (env : Env) (info : MessageInfo) (amount : ℕ)
      → execute_request_unstake standard d env info amount s ≡ ok (s', ms)
      → IsSound s'
  unfolding execute_request_unstake
  request-IsSound-standard env info amount h =
      let (a, _, h1) = try-eq-ok std (load (lookup s.config.astro_token s.reward_infos)) _ h in
      let (r, e, h2) = try-eq-ok std (load (lookup info.sender s.stakers)) _ h1 in
      let (y, f, h3) = try-eq-ok std (reconcile_staker_income standard a s.state) _ h2 in
      let (x, g, h4) = try-eq-ok std (reconcile_to_staker_info standard y.1 r) _ h3 in
      let (u, i, h5) = try-eq-ok std (update_staking standard x y.1) _ h4 in
      let keeps = income-Keeps a s.state f in
      let (o, q) = update-Holds y.1 x i in
      save_request-IsSound env info amount y.0 y.1 r u keeps
        (load-eq-ok (lookup info.sender s.stakers) e)
        (Holds-trans s.state.unstaking_period y.1 r x u keeps.period
          (info-Holds s.state.unstaking_period y.1 r g) o)
        q h5

  pub claim-IsSound-standard :
      (info : MessageInfo) → execute_claim_income standard d info s ≡ ok (s', ms) → IsSound s'
  unfolding execute_claim_income
  claim-IsSound-standard info h =
      let (a, _, h1) = try-eq-ok std (load (lookup s.config.astro_token s.reward_infos)) _ h in
      let (r, e, h2) = try-eq-ok std (load (lookup info.sender s.stakers)) _ h1 in
      let (y, f, h3) = try-eq-ok std (reconcile_staker_income standard a s.state) _ h2 in
      let (u, g, h4) = try-eq-ok std (reconcile_to_staker_info standard y.1 r) _ h3 in
      let (n, _, h5) =
        try-eq-ok (λ _. overflow) (checked y.0.reconciled_amount u.pending_reward) _ h4 in
      IsSound-after
        (save-IsSound s info.sender r (record u { pending_reward = 0 }) y.1 _ v
          (inl (load-eq-ok (lookup info.sender s.stakers) e))
          (claim-Books s.state y.1 r u (income-Keeps a s.state f)
            (info-Holds s.state.unstaking_period y.1 r g)))
        h5

  pub relock-IsSound-standard :
      (env : Env) (info : MessageInfo)
      → execute_relock standard d env info s ≡ ok (s', ms)
      → IsSound s'
  unfolding execute_relock
  relock-IsSound-standard env info h =
      let (_, h0) =
        fail_if-eq-ok
          (not (info.sender == s.config.controller) && not (info.sender == env.contract)) _ _ h in
      let (a, _, h1) = try-eq-ok std (load (lookup s.config.astro_token s.reward_infos)) _ h0 in
      let (lock, _, h2) = try-eq-ok std (query_lock d s.config.astro_gov env.contract) _ h1 in
      let (m, _, h3) =
        try-eq-ok (λ _. overflow) (checked lock.amount s.state.total_unstaking_amount) _ h2 in
      let (t, e, h4) =
        try-eq-ok std (standard.add s.state.total_unstaked_amount s.state.total_unstaking_amount) _
          h3 in
      let (p, _, h5) = try-eq-ok std (d.get_period env.time) _ h4 in
      let st = record s.state {
        total_unstaked_amount = t;
        total_unstaking_amount = 0;
        unstaking_period = p;
      } in
      let (y, f, h6) =
        try-eq-ok std (reconcile_staking_claim_by_others standard d env s.config a st) _ h5 in
      let k = claimed-Keeps d env s.config a st f in
      let sum =
        fit-eq-ok u128_mod (s.state.total_unstaked_amount + s.state.total_unstaking_amount) e in
      IsSound-after
        (relock-IsSound s y.2 (insert s.config.astro_token y.1 s.reward_infos) v k.total k.unstaking
          (k.unstaked ∙ sym sum))
        h6
