-- ===== src/AstroportFarm/Exchange.antt =====
-- What a bond and an unbond have done where they succeed: shares for LP tokens and back.
use baz_core.Common.{
  ℕ, ◌+◌, ◌≤◌, ◌≡◌, ◌≢◌, some, List, ok, arith, try-eq-ok, fail_if-eq-ok, ◌==◌, ltb,
}
use baz_core.Common.Map.{lookup, insert}
use baz_core.Cosmwasm.Standard.{standard}
use baz_core.Host.{Addr, Env, MessageInfo}
use baz_core.AstroportFarm.Defs.{
  RewardInfo, Store, std, unbond_reward, calc_user_balance, calc_bond_share, calc_bond_amount,
  truncate, ensure_deposit_costs, bond_reward,
}
use baz_core.Cosmwasm.{load, load-eq-ok}
use baz_core.AstroportFarm.Bond.{Deps, Message, bond_internal, unbond}
use baz_core.Helper.{multiply_ratio_and_ceil}
use baz_core.Assets.{PoolResponse}
use baz_core.AstroportFarm.Supply.{share, entry}

module _ (d : Deps) (env : Env) (info : MessageInfo) (amount : ℕ) (s : Store) where
  -- What an unbond of `amount` LP tokens went by.
  pub record Unbonds (s' : Store) (ms : List Message) : Type 0 where
    pub positive : amount ≢ 0
    pub lp_balance : ℕ
    pub queried :
        d.query_deposit s.config.staking_contract s.config.liquidity_token env.contract
        ≡ ok lp_balance
    pub r : RewardInfo
    pub loaded : lookup info.sender s.reward ≡ some r
    pub user_balance : ℕ
    pub measured : calc_user_balance standard r s.state lp_balance env.time ≡ ok user_balance
    pub enough : amount ≤ user_balance
    pub bond_share : ℕ
    pub rounded : multiply_ratio_and_ceil standard r.bond_share amount user_balance ≡ ok bond_share
    pub r' : RewardInfo
    pub released : unbond_reward standard r bond_share ≡ ok r'
    pub total : ℕ
    pub paid : total + bond_share ≡ s.state.total_bond_share
    pub result : s' ≡ record s {
      state = record s.state { total_bond_share = total };
      reward = insert info.sender r' s.reward;
    }

  unbond_after :
      {s' : Store} {ms : List Message} (lp_balance : ℕ) (r : RewardInfo)
      (user_balance bond_share total : ℕ) (r' : RewardInfo)
      → amount ≢ 0
      → d.query_deposit s.config.staking_contract s.config.liquidity_token env.contract
        ≡ ok lp_balance
      → lookup info.sender s.reward ≡ some r
      → calc_user_balance standard r s.state lp_balance env.time ≡ ok user_balance
      → amount ≤ user_balance
      → multiply_ratio_and_ceil standard r.bond_share amount user_balance ≡ ok bond_share
      → standard.checked_sub s.state.total_bond_share bond_share ≡ ok total
      → unbond_reward standard r bond_share ≡ ok r'
      → unbond standard d env info amount s ≡ ok (s', ms)
      → Unbonds s' ms
  unfolding unbond
  unbond_after lp_balance r user_balance bond_share total r' z q l b e m t u h = record {
    positive = z;
    lp_balance = lp_balance;
    queried = q;
    r = r;
    loaded = l;
    user_balance = user_balance;
    measured = b;
    enough = e;
    bond_share = bond_share;
    rounded = m;
    r' = r';
    released = u;
    total = total;
    paid = ground arith;
    result = ground arith;
  }

  pub unbond-Unbonds :
      {s' : Store} {ms : List Message}
      → unbond standard d env info amount s ≡ ok (s', ms)
      → Unbonds s' ms
  unfolding unbond
  unbond-Unbonds h =
      let (z, h0) = fail_if-eq-ok (amount == 0) _ _ h in
      let (lp, e1, h1) =
        try-eq-ok std
          (d.query_deposit s.config.staking_contract s.config.liquidity_token env.contract) _ h0 in
      let (r, e2, h2) = try-eq-ok std (load (lookup info.sender s.reward)) _ h1 in
      let (b, e3, h3) = try-eq-ok std (calc_user_balance standard r s.state lp env.time) _ h2 in
      let (g, h4) = fail_if-eq-ok (ltb b amount) _ _ h3 in
      let (m, e5, h5) =
        try-eq-ok std (multiply_ratio_and_ceil standard r.bond_share amount b) _ h4 in
      let (t, e6, h6) = try-eq-ok std (standard.checked_sub s.state.total_bond_share m) _ h5 in
      let (r', e7, h7) = try-eq-ok std (unbond_reward standard r m) _ h6 in
      unbond_after lp r b m t r' (ground arith) e1 (load-eq-ok _ e2) e3 (ground arith) e5 e6 e7 h

module _ (d : Deps) (env : Env) (k : Addr) (amount : ℕ) (s : Store) where
  -- What a bond of `amount` LP tokens to the account `k` went by.
  pub record Bonds (s' : Store) (ms : List Message) : Type 0 where
    pub lp_balance : ℕ
    pub queried :
        d.query_deposit s.config.staking_contract s.config.liquidity_token env.contract
        ≡ ok lp_balance
    pub bond_share : ℕ
    pub priced : calc_bond_share standard s.state amount lp_balance truncate ≡ ok bond_share
    pub total : ℕ
    pub paid : total ≡ s.state.total_bond_share + bond_share
    pub deposit_amount : ℕ
    pub valued :
        calc_bond_amount standard
          (record s.state { total_bond_share = total })
          (lp_balance + amount)
          bond_share
        ≡ ok deposit_amount
    pub pool_info : PoolResponse
    pub ensured : RewardInfo
    pub ready : ensure_deposit_costs standard (entry k s.reward) s.pool_info ≡ ok ensured
    pub r' : RewardInfo
    pub credited : bond_reward standard ensured bond_share deposit_amount env.time pool_info ≡ ok r'
    pub result : s' ≡ record s {
      state = record s.state { total_bond_share = total };
      reward = insert k r' s.reward;
    }

  bond_after :
      {s' : Store} {ms : List Message} (lp_balance bond_share total balance deposit_amount : ℕ)
      (pool_info : PoolResponse) (ensured r' : RewardInfo)
      → d.query_deposit s.config.staking_contract s.config.liquidity_token env.contract
        ≡ ok lp_balance
      → calc_bond_share standard s.state amount lp_balance truncate ≡ ok bond_share
      → standard.add s.state.total_bond_share bond_share ≡ ok total
      → standard.add lp_balance amount ≡ ok balance
      → calc_bond_amount standard (record s.state { total_bond_share = total }) balance bond_share
        ≡ ok deposit_amount
      → d.query_pool_info s.config.pair ≡ ok pool_info
      → ensure_deposit_costs standard (entry k s.reward) s.pool_info ≡ ok ensured
      → bond_reward standard ensured bond_share deposit_amount env.time pool_info ≡ ok r'
      → bond_internal standard d env k amount s ≡ ok (s', ms)
      → Bonds s' ms
  unfolding bond_internal
  bond_after lp share total balance deposited pool ensured r' q p t a v i e u h =
      let exact : balance ≡ lp + amount = ground arith in
      record {
        lp_balance = lp;
        queried = q;
        bond_share = share;
        priced = p;
        total = total;
        paid = ground arith;
        deposit_amount = deposited;
        valued = rw (← exact) v;
        pool_info = pool;
        ensured = ensured;
        ready = e;
        r' = r';
        credited = u;
        result = ground arith;
      }

  pub bond_internal-Bonds :
      {s' : Store} {ms : List Message}
      → bond_internal standard d env k amount s ≡ ok (s', ms)
      → Bonds s' ms
  unfolding bond_internal
  bond_internal-Bonds h =
      let (lp, e1, h1) =
        try-eq-ok std
          (d.query_deposit s.config.staking_contract s.config.liquidity_token env.contract) _ h in
      let (share, e2, h2) =
        try-eq-ok std (calc_bond_share standard s.state amount lp truncate) _ h1 in
      let (total, e3, h3) = try-eq-ok std (standard.add s.state.total_bond_share share) _ h2 in
      let (balance, e4, h4) = try-eq-ok std (standard.add lp amount) _ h3 in
      let (v, e5, h5) =
        try-eq-ok std
          (calc_bond_amount standard (record s.state { total_bond_share = total }) balance share) _
          h4 in
      let (pool, e6, h6) = try-eq-ok std (d.query_pool_info s.config.pair) _ h5 in
      let (r, e7, h7) =
        try-eq-ok std (ensure_deposit_costs standard (entry k s.reward) s.pool_info) _ h6 in
      let (r', e8, h8) = try-eq-ok std (bond_reward standard r share v env.time pool) _ h7 in
      bond_after lp share total balance v pool r r' e1 e2 e3 e4 e5 e6 e7 e8 h
