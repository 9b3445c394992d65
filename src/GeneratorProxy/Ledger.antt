-- ===== src/GeneratorProxy/Ledger.antt =====
-- The books of the staking in contracts/generator_proxy: the shares of the stakers, and what they
-- have asked back.
use baz_core.Common.{ℕ, ◌+◌, ◌≤◌, ◌≡◌, ◌⊎◌, inl, inr, ltb, if◌then◌else◌, none, some, arith}
use baz_core.Common.Map.{
  Map, IsMap, lookup, insert, sum_by, at_key, sum_by-insert, insert-IsMap, sum_by_mono,
}
use baz_core.GeneratorProxy.Defs.{StakingState, StakerInfo, RewardInfo, Store}

abbrev pub bonded : StakerInfo → ℕ
bonded r = r.bond_share

-- What a staker has asked back and not got.
abbrev pub asked : StakerInfo → ℕ
asked r = r.unstaking_amount + r.unstaked_amount

-- The part of it that is free to withdraw in the period `p`.
abbrev pub free : ℕ → StakerInfo → ℕ
free p r =
    if ltb r.unstaking_period p then r.unstaked_amount + r.unstaking_amount else r.unstaked_amount

pub record IsSound (s : Store) : Type 0 where
  pub keys : IsMap s.stakers
  pub shares : s.state.total_bond_share ≡ sum_by bonded s.stakers
  pub requests :
      s.state.total_unstaking_amount + s.state.total_unstaked_amount ≡ sum_by asked s.stakers
  pub covered : sum_by (free s.state.unstaking_period) s.stakers ≤ s.state.total_unstaked_amount

free-asked : (p : ℕ) (r : StakerInfo) → free p r ≤ asked r
free-asked p r = ground arith

-- The staker's entry, or one with nothing in it.
abbrev pub Stands : ℕ → StakerInfo → Map StakerInfo → Type 0
Stands k r m = (lookup k m ≡ some r) ⊎ ((lookup k m ≡ none) × (bonded r ≡ 0) × (asked r ≡ 0))

Stands-part :
    (f : StakerInfo → ℕ) (k : ℕ) (r : StakerInfo) (m : Map StakerInfo)
    → (bonded r ≡ 0 → asked r ≡ 0 → f r ≡ 0)
    → Stands k r m
    → at_key f (lookup k m) ≡ f r
Stands-part f k r m z (inl e) = rw e
Stands-part f k r m z (inr (e, b, a)) = rw e (let q = z b a in omega arith)

-- One staker's entry is saved, with a state that has the same period.
pub record Books (st st' : StakingState) (r r' : StakerInfo) : Type 0 where
  pub shares : st'.total_bond_share + r.bond_share ≡ st.total_bond_share + r'.bond_share
  pub requests :
      st'.total_unstaking_amount + st'.total_unstaked_amount + asked r
      ≡ st.total_unstaking_amount + st.total_unstaked_amount + asked r'
  pub period : st'.unstaking_period ≡ st.unstaking_period
  pub covered :
      free st.unstaking_period r' + st.total_unstaked_amount
      ≤ free st.unstaking_period r + st'.total_unstaked_amount

pub save-IsSound :
    (s : Store) (k : ℕ) (r r' : StakerInfo) (st' : StakingState) (rewards : Map RewardInfo)
    → IsSound s
    → Stands k r s.stakers
    → Books s.state st' r r'
    → IsSound (record s { stakers = insert k r' s.stakers; state = st'; reward_infos = rewards })
save-IsSound s k r r' st' rewards v o b =
    let p = s.state.unstaking_period in
    let f1 = Stands-part bonded k r s.stakers (λ x y. x) o in
    let f2 = Stands-part asked k r s.stakers (λ x y. y) o in
    let f3 = Stands-part (free p) k r s.stakers (λ x y. ground arith) o in
    let e1 = sum_by-insert bonded k r' s.stakers in
    let e2 = sum_by-insert asked k r' s.stakers in
    let e3 = sum_by-insert (free p) k r' s.stakers in
    let b1 = b.shares in
    let b2 = b.requests in
    let b3 = b.covered in
    let v1 = v.shares in
    let v2 = v.requests in
    let v3 = v.covered in
    record {
      keys = insert-IsMap k r' s.stakers v.keys;
      shares = omega arith;
      requests = omega arith;
      covered = rw b.period (omega arith);
    }

-- What a relock does: all that is asked back leaves the lock.
pub relock-IsSound :
    (s : Store) (st' : StakingState) (rewards : Map RewardInfo)
    → IsSound s
    → st'.total_bond_share ≡ s.state.total_bond_share
    → st'.total_unstaking_amount ≡ 0
    → st'.total_unstaked_amount ≡ s.state.total_unstaked_amount + s.state.total_unstaking_amount
    → IsSound (record s { state = st'; reward_infos = rewards })
relock-IsSound s st' rewards v e z t =
    let v1 = v.shares in
    let v2 = v.requests in
    let l =
      sum_by_mono (free st'.unstaking_period) asked s.stakers (free-asked st'.unstaking_period) in
    record { keys = v.keys; shares = omega arith; requests = omega arith; covered = omega arith }
