-- ===== src/GeneratorProxy/Pools/Shares.antt =====
-- contracts/generator_proxy/src/bond.rs: the shares of a pool are those of its users.
use baz_core.Common.{
  ℕ, ◌+◌, ◌-◌, ◌≡◌, ◌==◌, sym, ap, subst, ◌∙◌, Bool-cases, inl, inr, some, unwrap_or, [], ◌∷◌, min,
  Result, ok, arith, eq→≡, if_skipped, >>=-eq-ok,
}
use baz_core.Common.Map.{
  Map, IsMap, lookup, insert, sum_by, at_key, lookup-insert, sum_by-insert, insert-IsMap,
}
use baz_core.Cosmwasm.Standard.{standard}
use baz_core.Host.{Addr, Env}
use baz_core.GeneratorProxy.Defs.{Config, RewardInfo}
use baz_core.GeneratorProxy.Pools.Defs.{PoolInfo, UserInfo, Store, AstroUserInfo, Deps, no_rewards}
use baz_core.GeneratorProxy.Pools.Reconcile.{
  get_last, reconcile_astro_reward, reconcile_token_reward,
}
use baz_core.GeneratorProxy.Pools.Bond.{
  Books, set_user, save_astro, save_token, others_tokens, reconcile_pool,
}

abbrev pub bonded : UserInfo → ℕ
bonded u = u.bond_share

abbrev pub total : PoolInfo → ℕ
total p = p.total_bond_share

-- In each pool the total is the sum of the users' shares, and no user has two entries.
pub record IsSound (s : Store) : Type 0 where
  pub keys : (lp : Addr) → IsMap (s.users lp)
  pub shares : (lp : Addr) → at_key total (lookup lp s.pools) ≡ sum_by bonded (s.users lp)

-- A pool is saved with the same total.
pub pool-IsSound :
    (s : Store) (lp_token : Addr) (p' : PoolInfo) (rewards : Map RewardInfo)
    → IsSound s
    → total p' ≡ at_key total (lookup lp_token s.pools)
    → IsSound (record s { pools = insert lp_token p' s.pools; reward_infos = rewards })
pool-IsSound s lp_token p' rewards v e = record {
  keys = v.keys;
  shares =
      λ lp. let l = lookup-insert lp lp_token p' s.pools in let w = v.shares lp in ground arith;
}

own_pool :
    (s : Store) (lp_token user : Addr) (p' : PoolInfo) (u' : UserInfo)
    → IsSound s
    → total p' + at_key bonded (lookup user (s.users lp_token))
      ≡ at_key total (lookup lp_token s.pools) + bonded u'
    → at_key total (lookup lp_token (insert lp_token p' s.pools))
      ≡ sum_by bonded (set_user lp_token user u' s.users lp_token)
unfolding set_user
own_pool s lp_token user p' u' v e =
    let l = lookup-insert lp_token lp_token p' s.pools in
    let w = v.shares lp_token in
    let i = sum_by-insert bonded user u' (s.users lp_token) in ground arith

-- A pool and one of its users are saved.
pub user-IsSound :
    (s : Store) (lp_token user : Addr) (p' : PoolInfo) (u' : UserInfo)
    → IsSound s
    → total p' + at_key bonded (lookup user (s.users lp_token))
      ≡ at_key total (lookup lp_token s.pools) + bonded u'
    → IsSound
        (record s { users = set_user lp_token user u' s.users; pools = insert lp_token p' s.pools })
unfolding set_user
user-IsSound s lp_token user p' u' v e = record {
  keys = λ lp. elim (Bool-cases (lp == lp_token)) [
    | inl t ↦ rw t (insert-IsMap user u' (s.users lp) (v.keys lp))
    | inr t ↦ rw t (v.keys lp)
  ];
  shares = λ lp.
      let l = lookup-insert lp lp_token p' s.pools in
      let w = v.shares lp in
      elim (Bool-cases (lp == lp_token)) [
        | inl t ↦
            subst
              (λ x.
                at_key total (lookup x (insert lp_token p' s.pools))
                ≡ sum_by bonded (set_user lp_token user u' s.users x))
              (sym (eq→≡ lp lp_token t)) (own_pool s lp_token user p' u' v e)
        | inr t ↦ ground arith
      ];
}

token-kept :
    (d : Deps) (k : Addr) (p : PoolInfo) (r : RewardInfo) (n : ℕ) {x : PoolInfo × RewardInfo}
    → reconcile_token_reward standard d k p r n ≡ ok x
    → total x.0 ≡ total p
unfolding reconcile_token_reward
token-kept d k p r n h = ground arith

astro-kept :
    (d : Deps) (config : Config) (a : AstroUserInfo) (p p' : PoolInfo) (r r' : RewardInfo) (n : ℕ)
    → reconcile_astro_reward standard d config a p r n ≡ ok (p', r')
    → p'.total_bond_share ≡ p.total_bond_share
unfolding reconcile_astro_reward
astro-kept d config a p p' r r' n h = ground arith

pub save_astro-kept :
    (d : Deps) (config : Config) (a : AstroUserInfo) (r : RewardInfo) (n : ℕ) (b : Books)
    {b' : Books}
    → save_astro standard d config a r n b ≡ ok b'
    → total b'.0 ≡ total b.0
unfolding save_astro
save_astro-kept d config a r n (p, rewards) h = elim (Bool-cases (n == 0)) [
  | inl z ↦ ground arith
  | inr z ↦
      let (x, e, f) =
        >>=-eq-ok (reconcile_astro_reward standard d config a p r n) _
          (if_skipped (n == 0) _ z h) in
      let k = astro-kept d config a p x.0 r x.1 n e in ground arith
]

pub save_token-kept :
    (d : Deps) (k : Addr) (r : RewardInfo) (n : ℕ) (b : Books) {b' : Books}
    → save_token standard d k r n b ≡ ok b'
    → total b'.0 ≡ total b.0
unfolding save_token
save_token-kept d k r n (p, rewards) h = elim (Bool-cases (n == 0)) [
  | inl z ↦ ground arith
  | inr z ↦
      let (x, e, f) =
        >>=-eq-ok (reconcile_token_reward standard d k p r n) _ (if_skipped (n == 0) _ z h) in
      let k = token-kept d k p r n e in ground arith
]

pub first_eq :
    {E A B : Type 0} {a a' : A} {b b' : B}
    → Path (Result E (A × B)) (ok (a, b)) (ok (a', b'))
    → a ≡ a'
first_eq h = ground arith

pub third_eq :
    {E A B C : Type 0} {a a' : A} {b b' : B} {c c' : C}
    → Path (Result E (A × B × C)) (ok (a, b, c)) (ok (a', b', c'))
    → c ≡ c'
third_eq h = ground arith

pub second_eq :
    {E A B : Type 0} {a a' : A} {b b' : B}
    → Path (Result E (A × B)) (ok (a, b)) (ok (a', b'))
    → b ≡ b'
second_eq h = ground arith

others_tokens-kept :
    (d : Deps) (contract_addr : Addr) (prev debts : Map ℕ) (b : Books) (x : Map ℕ × Books)
    → others_tokens standard d contract_addr prev debts b ≡ ok x
    → total x.1.0 ≡ total b.0
unfolding others_tokens
others_tokens-kept d contract_addr prev [] b x h = ground arith
others_tokens-kept d contract_addr prev ((k, debt) ∷ rest) b x h =
    let (n, _, h1) = >>=-eq-ok (d.query_token_balance k contract_addr) _ h in
    let r = unwrap_or (lookup k b.1) no_rewards in
    let net = min (n - r.reconciled_amount) (debt - unwrap_or (get_last k prev) 0) in
    let (b', e, h2) = >>=-eq-ok (save_token standard d k r net b) _ h1 in
    let (y, f, h3) = >>=-eq-ok (others_tokens standard d contract_addr prev rest b') _ h2 in
    let k1 = save_token-kept d k r net b e in
    let k2 = others_tokens-kept d contract_addr prev rest b' y f in
    ap (λ z. total z.0) (sym (second_eq h3)) ∙ k2 ∙ k1

pub reconcile_pool-IsSound :
    (d : Deps) (env : Env) (config : Config) (lp_token : Addr) (a : AstroUserInfo) (p : PoolInfo)
    (s : Store) (x : Map ℕ × Store)
    → IsSound s
    → lookup lp_token s.pools ≡ some p
    → reconcile_pool standard d env config lp_token a p s ≡ ok x
    → IsSound x.1
unfolding reconcile_pool
reconcile_pool-IsSound d env config lp_token a p s x v l h =
    let r = unwrap_or (lookup config.astro_token s.reward_infos) no_rewards in
    let (n, _, h1) = >>=-eq-ok (d.query_token_balance config.astro_token env.contract) _ h in
    let (g, _, h2) =
      >>=-eq-ok (standard.minus_decimal a.reward_user_index p.prev_reward_user_index) _ h1 in
    let (t, _, h3) = >>=-eq-ok (standard.mul_decimal a.virtual_amount g) _ h2 in
    let net = min (n - r.reconciled_amount) t in
    let (b, e, h4) = >>=-eq-ok (save_astro standard d config a r net (p, s.reward_infos)) _ h3 in
    let (y, f, h5) =
      >>=-eq-ok
        (others_tokens standard d env.contract p.prev_reward_debt_proxy a.reward_debt_proxy b) _
        h4 in
    let k1 = save_astro-kept d config a r net (p, s.reward_infos) e in
    let k2 = others_tokens-kept d env.contract p.prev_reward_debt_proxy a.reward_debt_proxy b y f in
    subst IsSound (second_eq h5) (
      pool-IsSound s lp_token
        (record y.1.0 {
          prev_reward_user_index = a.reward_user_index;
          prev_reward_debt_proxy = a.reward_debt_proxy;
        })
        y.1.1 v (k2 ∙ k1 ∙ sym (ap (at_key total) l)))
