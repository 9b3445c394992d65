-- ===== src/AstroportFarm/Value.antt =====
-- What a bond and an unbond do to the value of the shares of all.
use baz_core.Common.{ℕ, ◌+◌, ◌*◌, ◌≤◌, ◌<◌, ◌≡◌, ◌≢◌, List, ok, arith, refl}
use baz_core.Common.Arith.{mul_le, le_of_mul_le}
use baz_core.Common.Map.{lookup, lookup-insert_ne}
use baz_core.Cosmwasm.{Cosmwasm, IsDocumented}
use baz_core.Cosmwasm.Standard.{standard, at_standard}
use baz_core.Host.{Addr, Env, MessageInfo}
use baz_core.Helper.Rounding.{multiply_ratio_and_ceil-standard}
use baz_core.AstroportFarm.Defs.{Store}
use baz_core.AstroportFarm.Bond.{Deps, Message, bond_internal, unbond}
use baz_core.AstroportFarm.Supply.{
  entry, share, bond_reward-share, unbond_reward-share, ensure-share,
}
use baz_core.AstroportFarm.Shares.{entry-some, entry-insert}
use baz_core.AstroportFarm.Exchange.{unbond-Unbonds, bond_internal-Bonds}
use baz_core.AstroportFarm.Price.{
  bond_share_standard, calc_bond_amount-standard, user_balance_standard,
}

-- The shares burnt are worth at least the amount that is paid.
burnt_enough :
    (lp total r amount user burnt : ℕ)
    → 0 < user
    → user * total ≤ lp * r
    → r * amount ≤ burnt * user
    → amount * total ≤ lp * burnt
burnt_enough lp total r amount user burnt pos a b =
    le_of_mul_le (amount * total) (lp * burnt) user pos (
      omega
        (arith, mul_le (user * total) (lp * r) amount a, mul_le (r * amount) (burnt * user) lp b))

price_kept :
    (lp total left amount user burnt r worth : ℕ)
    → left + burnt ≡ total
    → 0 < user
    → user ≤ worth
    → worth * total ≤ lp * r
    → r * amount ≤ burnt * user
    → lp * left + amount * total ≤ lp * total
price_kept lp total left amount user burnt r worth e pos le value up =
    let split : lp * (left + burnt) ≡ lp * total = rw e refl in
    omega (
      arith,
      split,
      burnt_enough lp total r amount user burnt pos
          (omega (arith, value, mul_le user worth total le)) up,
    )

unbond_value_standard :
    (d : Deps) (env : Env) (info : MessageInfo) (amount lp : ℕ) (s s' : Store) (ms : List Message)
    → d.query_deposit s.config.staking_contract s.config.liquidity_token env.contract ≡ ok lp
    → unbond standard d env info amount s ≡ ok (s', ms)
    → (lp * s'.state.total_bond_share + amount * s.state.total_bond_share
        ≤ lp * s.state.total_bond_share)
      × (share (entry info.sender s'.reward) + s.state.total_bond_share
          ≡ share (entry info.sender s.reward) + s'.state.total_bond_share)
      × ((k : Addr) → k ≢ info.sender → lookup k s'.reward ≡ lookup k s.reward)
unbond_value_standard d env info amount lp s s' ms q h =
    let u = unbond-Unbonds d env info amount s h in
    let (worth, e, le, _, _) =
      user_balance_standard u.r s.state u.lp_balance env.time u.user_balance u.measured in
    let (pos, up, _) =
      multiply_ratio_and_ceil-standard u.r.bond_share amount u.user_balance u.rounded in
    let (sh, _) = unbond_reward-share u.r u.bond_share u.released in
    let same : u.lp_balance ≡ lp = ground (arith, q, u.queried) in
    let value = calc_bond_amount-standard s.state u.lp_balance u.r.bond_share e in
    rw u.result (
      price_kept lp s.state.total_bond_share u.total amount u.user_balance u.bond_share
          u.r.bond_share worth u.paid pos le (rw (← same) value) up,
      rw (entry-insert info.sender u.r' s.reward, entry-some info.sender s.reward u.loaded)
          (omega (arith, sh, u.paid)),
      λ k n. lookup-insert_ne k info.sender u.r' s.reward n,
    )

-- Where an unbond of `amount` LP tokens succeeds while the farm has `lp` of them staked: what a
-- share is worth does not fall, the sender's shares fall by what the total falls, and no other
-- account's entry changes.
pub unbond_value :
    (c : Cosmwasm)
    → IsDocumented c
    → (d : Deps) (env : Env) (info : MessageInfo) (amount lp : ℕ) (s s' : Store) (ms : List Message)
    → d.query_deposit s.config.staking_contract s.config.liquidity_token env.contract ≡ ok lp
    → unbond c d env info amount s ≡ ok (s', ms)
    → (lp * s'.state.total_bond_share + amount * s.state.total_bond_share
        ≤ lp * s.state.total_bond_share)
      × (share (entry info.sender s'.reward) + s.state.total_bond_share
          ≡ share (entry info.sender s.reward) + s'.state.total_bond_share)
      × ((k : Addr) → k ≢ info.sender → lookup k s'.reward ≡ lookup k s.reward)
unbond_value = at_standard _ unbond_value_standard

bond_value_standard :
    (d : Deps) (env : Env) (k : Addr) (amount lp : ℕ) (s s' : Store) (ms : List Message)
    → d.query_deposit s.config.staking_contract s.config.liquidity_token env.contract ≡ ok lp
    → s.state.total_bond_share ≢ 0
    → lp ≢ 0
    → bond_internal standard d env k amount s ≡ ok (s', ms)
    → (lp * s'.state.total_bond_share ≤ (lp + amount) * s.state.total_bond_share)
      × (share (entry k s'.reward) + s.state.total_bond_share
          ≡ share (entry k s.reward) + s'.state.total_bond_share)
      × ((j : Addr) → j ≢ k → lookup j s'.reward ≡ lookup j s.reward)
bond_value_standard d env k amount lp s s' ms q t l h =
    let u = bond_internal-Bonds d env k amount s h in
    let same : u.lp_balance ≡ lp = ground (arith, q, u.queried) in
    let low = bond_share_standard s.state amount lp u.bond_share (rw (← same) u.priced) t l in
    let (sh, _, _) =
      bond_reward-share u.ensured u.bond_share u.deposit_amount env.time u.pool_info u.credited in
    let (f, _, _, _) = ensure-share (entry k s.reward) s.pool_info u.ready in
    let sum : lp * u.total ≡ lp * (s.state.total_bond_share + u.bond_share) = rw u.paid refl in
    rw u.result (
      omega (arith, low, sum),
      rw (entry-insert k u.r' s.reward) (omega (arith, sh, f, u.paid)),
      λ j n. lookup-insert_ne j k u.r' s.reward n,
    )

-- Where a bond of `amount` LP tokens succeeds while shares stand and the farm has `lp` tokens
-- staked: what a share is worth, with the new tokens staked, does not fall, the account's shares
-- rise by what the total rises, and no other account's entry changes.
pub bond_value :
    (c : Cosmwasm)
    → IsDocumented c
    → (d : Deps) (env : Env) (k : Addr) (amount lp : ℕ) (s s' : Store) (ms : List Message)
    → d.query_deposit s.config.staking_contract s.config.liquidity_token env.contract ≡ ok lp
    → s.state.total_bond_share ≢ 0
    → lp ≢ 0
    → bond_internal c d env k amount s ≡ ok (s', ms)
    → (lp * s'.state.total_bond_share ≤ (lp + amount) * s.state.total_bond_share)
      × (share (entry k s'.reward) + s.state.total_bond_share
          ≡ share (entry k s.reward) + s'.state.total_bond_share)
      × ((j : Addr) → j ≢ k → lookup j s'.reward ≡ lookup j s.reward)
bond_value = at_standard _ bond_value_standard
