-- ===== src/GeneratorProxy/Books.antt =====
-- contracts/generator_proxy/src/staking.rs: every handler keeps the books.
use baz_core.Common.{
  ℕ, ◌+◌, ◌-◌, ◌≡◌, inl, inr, false, ltb, min, ◌==◌, List, ok, refl, subst, arith, Bool-cases,
  >>=-eq-ok, Result,
}
use baz_core.Cosmwasm.{StdResult, checked, checked-eq-ok}
use baz_core.Cosmwasm.Standard.{standard}
use baz_core.Host.{Env}
use baz_core.GeneratorProxy.Defs.{
  Config, StakingState, StakerInfo, RewardInfo, Store, ContractError, Message, Deps, update_staking,
}
use baz_core.GeneratorProxy.Governance.{query_last_claim_period, calc_claim_amount}
use baz_core.GeneratorProxy.Staking.{
  reconcile_staker_income, reconcile_to_staker_info, reconcile_staking_claim_by_others,
}
use baz_core.GeneratorProxy.Ledger.{IsSound, Books, bonded, asked, free}

-- The amounts of the state are the same.
pub record Keeps (st st' : StakingState) : Type 0 where
  pub total : st'.total_bond_share ≡ st.total_bond_share
  pub unstaking : st'.total_unstaking_amount ≡ st.total_unstaking_amount
  pub unstaked : st'.total_unstaked_amount ≡ st.total_unstaked_amount
  pub period : st'.unstaking_period ≡ st.unstaking_period

-- The same for what a staker holds, in the period `p`.
pub record Holds (p : ℕ) (r r' : StakerInfo) : Type 0 where
  pub share : bonded r' ≡ bonded r
  pub requested : asked r' ≡ asked r
  pub available : free p r' ≡ free p r

pub income-Keeps :
    (a : RewardInfo) (st : StakingState) {x : RewardInfo × StakingState}
    → reconcile_staker_income standard a st ≡ ok x
    → Keeps st x.1
unfolding reconcile_staker_income
income-Keeps a st h = elim (Bool-cases (st.total_bond_share == 0)) [
  | inl z ↦ record {
    total = ground arith;
    unstaking = ground arith;
    unstaked = ground arith;
    period = ground arith;
  }
  | inr n ↦ record {
    total = ground arith;
    unstaking = ground arith;
    unstaked = ground arith;
    period = ground arith;
  }
]

pub info-Holds :
    (p : ℕ) (st : StakingState) (r : StakerInfo) {r' : StakerInfo}
    → reconcile_to_staker_info standard st r ≡ ok r'
    → Holds p r r'
unfolding reconcile_to_staker_info
info-Holds p st r h = record {
  share = ground arith;
  requested = ground arith;
  available = ground arith;
}

pub update-Holds :
    (st : StakingState) (r : StakerInfo) {r' : StakerInfo}
    → update_staking standard r st ≡ ok r'
    → Holds st.unstaking_period r r' × (ltb r'.unstaking_period st.unstaking_period ≡ false)
unfolding update_staking
update-Holds st r h = elim (Bool-cases (ltb r.unstaking_period st.unstaking_period)) [
  | inl t ↦ (
    record { share = ground arith; requested = ground arith; available = ground arith },
    ground arith,
  )
  | inr t ↦ (
    record { share = ground arith; requested = ground arith; available = ground arith },
    ground arith,
  )
]

claimed_after :
    {st : StakingState} {p b : ℕ} {y : RewardInfo × StakingState}
    {x : ℕ × RewardInfo × StakingState}
    → Keeps (record st { next_claim_period = p }) y.1
    → Path (StdResult (ℕ × RewardInfo × StakingState)) (ok (b, y.0, y.1)) (ok x)
    → Keeps st x.2
claimed_after k h =
    let a = k.total in
    let b = k.unstaking in
    let c = k.unstaked in
    let e = k.period in
    record {
      total = ground arith;
      unstaking = ground arith;
      unstaked = ground arith;
      period = ground arith;
    }

pub claimed-Keeps :
    (d : Deps) (env : Env) (config : Config) (a : RewardInfo) (st : StakingState)
    {x : ℕ × RewardInfo × StakingState}
    → reconcile_staking_claim_by_others standard d env config a st ≡ ok x
    → Keeps st x.2
unfolding reconcile_staking_claim_by_others
claimed-Keeps d env config a st h =
    let (p, _, h1) = >>=-eq-ok (query_last_claim_period d config.astro_gov env.contract) _ h in
    let (t, _, h2) =
      >>=-eq-ok (calc_claim_amount standard d config.astro_gov env.contract st.next_claim_period p)
        _ h1 in
    let (b, _, h3) = >>=-eq-ok (d.query_token_balance config.astro_token env.contract) _ h2 in
    let net = min (b - a.reconciled_amount) t in
    let (i, _, h4) = >>=-eq-ok (standard.add a.staker_income net) _ h3 in
    let (r, _, h5) = >>=-eq-ok (standard.add a.reconciled_amount net) _ h4 in
    let (y, e, h6) =
      >>=-eq-ok
        (reconcile_staker_income standard (record a { staker_income = i; reconciled_amount = r })
          (record st { next_claim_period = p }))
        _ h5 in
    let k =
      income-Keeps (record a { staker_income = i; reconciled_amount = r })
        (record st { next_claim_period = p }) e in
    claimed_after k h6

pub amounts :
    {st st' : StakingState}
    → Keeps st st'
    → (st'.total_bond_share ≡ st.total_bond_share)
      × (st'.total_unstaking_amount ≡ st.total_unstaking_amount)
      × (st'.total_unstaked_amount ≡ st.total_unstaked_amount)
      × (st'.unstaking_period ≡ st.unstaking_period)
amounts k = (k.total, k.unstaking, k.unstaked, k.period)

stores_eq :
    {t s' : Store} {ms ms' : List Message}
    → Path (Result ContractError (Store × List Message)) (ok (t, ms)) (ok (s', ms'))
    → t ≡ s'
stores_eq h = ground arith

pub withdraw-Books :
    (st : StakingState) (r u : StakerInfo) (n a b : ℕ)
    → Holds st.unstaking_period r u
    → ltb u.unstaking_period st.unstaking_period ≡ false
    → checked u.unstaked_amount n ≡ ok a
    → checked st.total_unstaked_amount n ≡ ok b
    → Books st (record st { total_unstaked_amount = b }) r (record u { unstaked_amount = a })
withdraw-Books st r u n a b o f g h =
    let x = o.share in
    let y = o.requested in
    let z = o.available in
    let e1 = checked-eq-ok _ _ g in
    let e2 = checked-eq-ok _ _ h in
    record { shares = ground arith; requests = ground arith; period = refl; covered = ground arith }

pub stake-Books :
    (st st' : StakingState) (r u : StakerInfo) (share a b : ℕ)
    → Keeps st st'
    → Holds st.unstaking_period r u
    → u.bond_share + share ≡ a
    → st'.total_bond_share + share ≡ b
    → Books st (record st' { total_bond_share = b }) r (record u { bond_share = a })
stake-Books st st' r u share a b k o e f =
    let (k1, k2, k3, k4) = amounts k in
    let x = o.share in
    let y = o.requested in
    let z = o.available in
    record { shares = ground arith; requests = ground arith; period = k4; covered = ground arith }

pub request-Books :
    (st st' : StakingState) (r u : StakerInfo) (amount share a b w x : ℕ)
    → Keeps st st'
    → Holds st.unstaking_period r u
    → ltb u.unstaking_period st'.unstaking_period ≡ false
    → checked u.bond_share share ≡ ok a
    → u.unstaking_amount + amount ≡ w
    → checked st'.total_bond_share share ≡ ok b
    → st'.total_unstaking_amount + amount ≡ x
    → Books st
        (record st' { total_bond_share = b; total_unstaking_amount = x })
        r
        (record u { bond_share = a; unstaking_amount = w })
request-Books st st' r u amount share a b w x k o f g h i j =
    let (k1, k2, k3, k4) = amounts k in
    let p = o.share in
    let q = o.requested in
    let z = o.available in
    let e1 = checked-eq-ok _ _ g in
    let e2 = checked-eq-ok _ _ i in
    record { shares = ground arith; requests = ground arith; period = k4; covered = ground arith }

pub claim-Books :
    (st st' : StakingState) (r u : StakerInfo)
    → Keeps st st'
    → Holds st.unstaking_period r u
    → Books st st' r (record u { pending_reward = 0 })
claim-Books st st' r u k o =
    let (k1, k2, k3, k4) = amounts k in
    let x = o.share in
    let y = o.requested in
    let z = o.available in
    record { shares = ground arith; requests = ground arith; period = k4; covered = ground arith }

pub IsSound-after :
    {t s' : Store} {ms ms' : List Message}
    → IsSound t
    → Path (Result ContractError (Store × List Message)) (ok (t, ms)) (ok (s', ms'))
    → IsSound s'
IsSound-after v h = subst IsSound (stores_eq h) v

pub Holds-trans :
    (p : ℕ) (st : StakingState) (r x u : StakerInfo)
    → st.unstaking_period ≡ p
    → Holds p r x
    → Holds st.unstaking_period x u
    → Holds p r u
Holds-trans p st r x u e a b =
    let a1 = a.share in
    let a2 = a.requested in
    let a3 = a.available in
    let b1 = b.share in
    let b2 = b.requested in
    let b3 = subst (λ t. free t u ≡ free t x) e b.available in
    record { share = cc; requested = cc; available = cc }
