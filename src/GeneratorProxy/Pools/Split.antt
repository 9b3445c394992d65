-- ===== src/GeneratorProxy/Pools/Split.antt =====
-- contracts/generator_proxy/src/bond.rs: how a reward in ASTRO is divided.
use baz_core.Common.{ap, ◌∙◌, ℕ, ◌+◌, ◌-◌, ◌*◌, ◌/◌, ◌≤◌, ◌≡◌, ◌≢◌, ok, arith, unwrap_or, >>=-eq-ok}
use baz_core.Common.Map.{Map, lookup}
use baz_core.Cosmwasm.{Cosmwasm, IsDocumented, StdResult, checked, floor_ratio, decimal_one}
use baz_core.Cosmwasm.Standard.{standard, at_standard}
use baz_core.Host.{Addr}
use baz_core.GeneratorProxy.Defs.{Config, RewardInfo}
use baz_core.GeneratorProxy.Pools.Defs.{PoolInfo, AstroUserInfo, Deps}
use baz_core.GeneratorProxy.Pools.Reconcile.{based_part, reconcile_astro_reward}

-- The index of a token, zero where it has none.
abbrev pub index_of : Addr → Map ℕ → ℕ
index_of token indexes = unwrap_or (lookup token indexes) 0

-- What `RestrictedVector` says of its `update`: it adds the value to that of the key, which it
-- appends where it is missing, and leaves the other keys alone.
pub record Accumulates (update : Map ℕ → Addr → ℕ → StdResult (Map ℕ)) : Type 0 where
  pub own :
      (m m' : Map ℕ) (k : Addr) (v : ℕ) → update m k v ≡ ok m' → index_of k m' ≡ index_of k m + v
  pub others :
      (m m' : Map ℕ) (k j : Addr) (v : ℕ) → update m k v ≡ ok m' → j ≢ k → lookup j m' ≡ lookup j m

-- The reward `net` in parts: of what is boosted, that is of all but the base, a fee, and of the rest
-- what the stakers get; the pool gets what is left with the base.
pub record Divides (config : Config) (a : AstroUserInfo) (net : ℕ) (p p' : PoolInfo)
    (r r' : RewardInfo) : Type 0 where
  pub based : ℕ
  pub fee : ℕ
  pub to_staker : ℕ
  pub to_lp : ℕ
  pub based_eq : based ≡ net * (a.amount * 2 / 5) / a.virtual_amount
  pub fee_eq : fee ≡ (net - based) * config.boost_fee / decimal_one
  pub staker_eq : to_staker ≡ (net - based - fee) * config.staker_rate / decimal_one
  pub whole : fee + to_staker + to_lp ≡ net
  pub base : based ≤ to_lp
  pub fees : r'.fee ≡ r.fee + fee
  pub income : r'.staker_income ≡ r.staker_income + to_staker
  pub reconciled : r'.reconciled_amount ≡ r.reconciled_amount + net
  pub index :
      index_of config.astro_token p'.reward_indexes
      ≡ index_of config.astro_token p.reward_indexes + to_lp * decimal_one / p.total_bond_share
  pub others :
      (j : Addr) → j ≢ config.astro_token → lookup j p'.reward_indexes ≡ lookup j p.reward_indexes
  pub kept : p'.total_bond_share ≡ p.total_bond_share

floor_ratio-eq : (a n m : ℕ) {q : ℕ} → floor_ratio a n m ≡ ok q → q ≡ a * n / m
floor_ratio-eq a n m h = ground arith

-- The same, where the amount is known by an equation.
share_eq : (a n m : ℕ) {b q : ℕ} → a ≡ b → floor_ratio a n m ≡ ok q → q ≡ b * n / m
share_eq a n m e h = floor_ratio-eq a n m h ∙ ap (λ x. x * n / m) e

-- 40 per cent, rounded down.
two_fifths : (a : ℕ) → a * based_part / decimal_one ≡ a * 2 / 5
two_fifths a = omega arith

results_eq :
    {p p' : PoolInfo} {r r' : RewardInfo}
    → Path (StdResult (PoolInfo × RewardInfo)) (ok (p, r)) (ok (p', r'))
    → (p.reward_indexes ≡ p'.reward_indexes)
      × (p'.total_bond_share ≡ p.total_bond_share)
      × (r'.fee ≡ r.fee)
      × (r'.staker_income ≡ r.staker_income)
      × (r'.reconciled_amount ≡ r.reconciled_amount)
results_eq h = (ground arith, ground arith, ground arith, ground arith, ground arith)

checked-eq : (a b : ℕ) {n : ℕ} → checked a b ≡ ok n → n ≡ a - b
checked-eq a b h = ground arith

minus-eq : (a b : ℕ) {n : ℕ} → standard.minus a b ≡ ok n → n ≡ a - b
minus-eq a b h = ground arith

add-eq : (a b : ℕ) {n : ℕ} → standard.add a b ≡ ok n → n ≡ a + b
add-eq a b h = ground arith

sum_eq :
    (net based boosted fee rest staker lp to_lp : ℕ)
    → checked net based ≡ ok boosted
    → standard.minus boosted fee ≡ ok rest
    → standard.minus rest staker ≡ ok lp
    → standard.add lp based ≡ ok to_lp
    → fee + staker + to_lp ≡ net
sum_eq net based boosted fee rest staker lp to_lp e f g h = ground arith

base_le : (lp based to_lp : ℕ) → standard.add lp based ≡ ok to_lp → based ≤ to_lp
base_le lp based to_lp h = ground arith

base_eq :
    (net amount staked virtual : ℕ) {based : ℕ}
    → floor_ratio staked based_part decimal_one ≡ ok amount
    → floor_ratio net amount virtual ≡ ok based
    → based ≡ net * (staked * 2 / 5) / virtual
base_eq net amount staked virtual e f =
    floor_ratio-eq net amount virtual f
    ∙ ap (λ x. net * x / virtual)
        (floor_ratio-eq staked based_part decimal_one e ∙ two_fifths staked)

module _ (d : Deps) (config : Config) (a : AstroUserInfo) (p p' : PoolInfo) (r r' : RewardInfo)
    (net : ℕ) where
  parts_at_standard :
      Accumulates d.update_index
      → reconcile_astro_reward standard d config a p r net ≡ ok (p', r')
      → Divides config a net p p' r r'
  unfolding reconcile_astro_reward
  parts_at_standard u h =
      let (amount, e1, h1) = >>=-eq-ok (standard.mul_decimal a.amount based_part) _ h in
      let (based, e2, h2) = >>=-eq-ok (standard.multiply_ratio net amount a.virtual_amount) _ h1 in
      let (boosted, e3, h3) = >>=-eq-ok (standard.checked_sub net based) _ h2 in
      let (fee, e4, h4) = >>=-eq-ok (standard.mul_decimal boosted config.boost_fee) _ h3 in
      let (rest, e5, h5) = >>=-eq-ok (standard.minus boosted fee) _ h4 in
      let (staker, e6, h6) = >>=-eq-ok (standard.mul_decimal rest config.staker_rate) _ h5 in
      let (lp, e7, h7) = >>=-eq-ok (standard.minus rest staker) _ h6 in
      let (to_lp, e8, h8) = >>=-eq-ok (standard.add lp based) _ h7 in
      let (share, e9, h9) = >>=-eq-ok (standard.from_ratio to_lp p.total_bond_share) _ h8 in
      let (fees, e10, h10) = >>=-eq-ok (standard.add r.fee fee) _ h9 in
      let (income, e11, h11) = >>=-eq-ok (standard.add r.staker_income staker) _ h10 in
      let (rec, e12, h12) = >>=-eq-ok (standard.add r.reconciled_amount net) _ h11 in
      let (index, e13, h13) =
        >>=-eq-ok (d.update_index p.reward_indexes config.astro_token share) _ h12 in
      let (same_index, same_share, same_fee, same_income, same_amount) = results_eq h13 in
      let stored = e13 ∙ ap ok same_index in
      let boosted_eq = checked-eq net based e3 in
      let rest_eq = minus-eq boosted fee e5 ∙ ap (λ x. x - fee) boosted_eq in
      record {
        based = based;
        fee = fee;
        to_staker = staker;
        to_lp = to_lp;
        based_eq = base_eq net amount a.amount a.virtual_amount e1 e2;
        fee_eq = share_eq boosted config.boost_fee decimal_one boosted_eq e4;
        staker_eq = share_eq rest config.staker_rate decimal_one rest_eq e6;
        whole = sum_eq net based boosted fee rest staker lp to_lp e3 e5 e7 e8;
        base = base_le lp based to_lp e8;
        fees = same_fee ∙ add-eq r.fee fee e10;
        income = same_income ∙ add-eq r.staker_income staker e11;
        reconciled = same_amount ∙ add-eq r.reconciled_amount net e12;
        index =
            u.own p.reward_indexes p'.reward_indexes config.astro_token share stored
            ∙ ap (λ x. index_of config.astro_token p.reward_indexes + x)
                (floor_ratio-eq to_lp decimal_one p.total_bond_share e9);
        others =
            λ j n. u.others p.reward_indexes p'.reward_indexes config.astro_token j share stored n;
        kept = same_share;
      }

-- Where the vector's update adds to the index of a token and leaves the others alone, and the
-- division of a reward in ASTRO succeeds: the base is the reward times 40 per cent of the stake
-- over its virtual amount; of the rest the fee's share goes to the fees, and of what is left then
-- the stakers' share to their income, each rounded down; all else, with the base, goes to the pool.
-- The parts add up to the reward, all of which counts as reconciled. The pool's index of ASTRO
-- grows by the pool's part per share, rounded down, and its other indexes and its shares stay.
pub reconcile_astro_reward_lem :
    (c : Cosmwasm)
    → IsDocumented c
    → (d : Deps) (config : Config) (a : AstroUserInfo) (p p' : PoolInfo) (r r' : RewardInfo)
      (net : ℕ)
    → Accumulates d.update_index
    → reconcile_astro_reward c d config a p r net ≡ ok (p', r')
    → Divides config a net p p' r r'
reconcile_astro_reward_lem = at_standard _ parts_at_standard
