-- ===== src/GeneratorProxy/Withdrawal.antt =====
-- contracts/generator_proxy/src/staking.rs: a staker gets back what has left the lock.
use baz_core.Common.{
  subst, ℕ, ◌+◌, ◌≤◌, ◌<◌, ◌≡◌, ltb, ap, ◌-◌, ◌∙◌, if◌then◌else◌, inl, inr, Bool-cases, Option,
  some, unwrap_or, [], ◌∷◌, ok, err, arith,
}
use baz_core.Common.Words.{u128_mod}
use baz_core.Common.Map.{lookup, insert, lookup-insert_self, at_key-le-sum_by, at_key}
use baz_core.Cosmwasm.{Cosmwasm, IsDocumented}
use baz_core.Cosmwasm.Standard.{standard, at_standard}
use baz_core.Host.{MessageInfo}
use baz_core.Assets.{transfer, transfer_info}
use baz_core.GeneratorProxy.Defs.{
  StakingState, StakerInfo, Store, Deps, Outcome, overflow, asset_msg, update_staking,
}
use baz_core.GeneratorProxy.Staking.{execute_withdraw_unstaked}
use baz_core.GeneratorProxy.Ledger.{IsSound, asked, free}

update-free :
    (st : StakingState) (r : StakerInfo)
    → asked r < u128_mod
    → (u : StakerInfo) × (update_staking standard r st ≡ ok u)
      × (u.unstaked_amount ≡ free st.unstaking_period r)
unfolding update_staking
update-free st r lt = elim (Bool-cases (ltb r.unstaking_period st.unstaking_period)) [
  | inl t ↦ (
    record r {
      unstaked_amount = r.unstaked_amount + r.unstaking_amount;
      unstaking_amount = 0;
      unstaking_period = st.unstaking_period;
    },
    ground arith,
    ground arith,
  )
  | inr t ↦ (r, ground arith, ground arith)
]

-- The store after `u` was paid `n`.
paid_out : Store → MessageInfo → StakerInfo → ℕ → Store
paid_out s info u n = record s {
  stakers = insert info.sender (record u { unstaked_amount = u.unstaked_amount - n }) s.stakers;
  state = record s.state { total_unstaked_amount = s.state.total_unstaked_amount - n };
}

-- The handler, once the staker's entry is known.
paying : Store → MessageInfo → StakerInfo → ℕ → Outcome
unfolding paid_out
paying s info u n =
    if ltb u.unstaked_amount n
    then err overflow
    else (if ltb s.state.total_unstaked_amount n
        then err overflow
        else ok (
          paid_out s info u n,
          asset_msg (transfer s.config.astro_gov.xastro_token info.sender n) ∷ [],
        ))

paying_refuses :
    (s : Store) (info : MessageInfo) (u : StakerInfo) (n : ℕ)
    → u.unstaked_amount < n
    → paying s info u n ≡ err overflow
unfolding paying
paying_refuses s info u n lt = ground arith

paying_pays :
    (s : Store) (info : MessageInfo) (u : StakerInfo) (n : ℕ)
    → n ≤ u.unstaked_amount
    → u.unstaked_amount ≤ s.state.total_unstaked_amount
    → paying s info u n
      ≡ ok (
        paid_out s info u n,
        asset_msg (transfer s.config.astro_gov.xastro_token info.sender n) ∷ [],
      )
unfolding paying
paying_pays s info u n le all = ground arith

module _ (d : Deps) (info : MessageInfo) (amount : Option ℕ) (s : Store) (r : StakerInfo) where
  withdraw-paying :
      (u : StakerInfo)
      → lookup info.sender s.stakers ≡ some r
      → update_staking standard r s.state ≡ ok u
      → execute_withdraw_unstaked standard d info amount s
        ≡ paying s info u (unwrap_or amount u.unstaked_amount)
  unfolding execute_withdraw_unstaked transfer_info paying paid_out
  withdraw-paying u e f = ground arith

  -- The two outcomes, for a staker who may withdraw `most`.
  abbrev pub PaysUpTo : Cosmwasm → ℕ → Type 0
  PaysUpTo c most =
      (most < unwrap_or amount most → execute_withdraw_unstaked c d info amount s ≡ err overflow)
      × (unwrap_or amount most ≤ most
          → (t : Store) × (execute_withdraw_unstaked c d info amount s
              ≡ ok (
                t,
                asset_msg
                      (transfer s.config.astro_gov.xastro_token info.sender (unwrap_or amount most))
                    ∷ [],
              ))
            × (t.state.total_unstaked_amount + unwrap_or amount most
                ≡ s.state.total_unstaked_amount)
            × ((r' : StakerInfo) × (lookup info.sender t.stakers ≡ some r')
                × (r'.unstaked_amount + unwrap_or amount most ≡ most)))

  withdraw-standard :
      IsSound s
      → lookup info.sender s.stakers ≡ some r
      → s.state.total_unstaking_amount + s.state.total_unstaked_amount < u128_mod
      → PaysUpTo standard (free s.state.unstaking_period r)
  unfolding paid_out
  withdraw-standard v e lt =
      let p = s.state.unstaking_period in
      let all = at_key-le-sum_by asked info.sender s.stakers in
      let some_free = at_key-le-sum_by (free p) info.sender s.stakers in
      let v2 = v.requests in
      let v3 = v.covered in
      let here = ap (at_key asked) e in
      let (u, f, g) = update-free s.state r (omega arith) in
      let h = withdraw-paying u e f in
      let less = ap (at_key (free p)) e in
      let n = unwrap_or amount u.unstaked_amount in
      subst (PaysUpTo standard) g (
        (λ more. h ∙ paying_refuses s info u n more),
        λ few. (
          paid_out s info u n,
          h ∙ paying_pays s info u n few (omega arith),
          omega arith,
          (
            record u { unstaked_amount = u.unstaked_amount - n },
            lookup-insert_self info.sender (record u { unstaked_amount = u.unstaked_amount - n })
                s.stakers,
            omega arith,
          ),
        ),
      )

-- A staker who has an entry in sound books, whose unstaking and unstaked totals together fit 128
-- bits, can withdraw all that is free in the period, and any part of it: the handler succeeds, sends
-- just that much xASTRO, takes it off the total and leaves the rest of it to the staker. More is
-- refused.
pub withdraw_unstaked_lem :
    (c : Cosmwasm)
    → IsDocumented c
    → (d : Deps) (info : MessageInfo) (amount : Option ℕ) (s : Store) (r : StakerInfo) → IsSound s
    → lookup info.sender s.stakers ≡ some r
    → s.state.total_unstaking_amount + s.state.total_unstaked_amount < u128_mod
    → PaysUpTo d info amount s r c (free s.state.unstaking_period r)
withdraw_unstaked_lem = at_standard _ withdraw-standard
