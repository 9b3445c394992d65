-- ===== src/AstroportFarm/Withdrawal.antt =====
-- How an unbond ends.
use baz_core.Common.{
  ℕ, ◌+◌, ◌*◌, ◌-◌, ◌/◌, ◌≤◌, ◌<◌, ◌≡◌, ◌≢◌, some, List, [], ◌∷◌, ok, err, arith, refl, subst, sym,
  zero, suc, none, Option, ltb, ◌&&◌, ◌==◌, Bool-cases, Option-cases, ◌⊎◌, inl, inr,
}
use baz_core.Common.Words.{u128_mod}
use baz_core.Common.Arith.{div-le, mul_le_mul}
use baz_core.Common.Map.{lookup, insert, sum_by, at_key, at_key-le-sum_by}
use baz_core.Cosmwasm.{Cosmwasm, IsDocumented, not_found}
use baz_core.Cosmwasm.Standard.{standard, standard-IsDocumented, at_standard}
use baz_core.Host.{Addr, Env, MessageInfo}
use baz_core.Assets.{transfer}
use baz_core.Helper.Rounding.{multiply_ratio_and_ceil_lem}
use baz_core.AstroportFarm.Defs.{
  State, RewardInfo, Store, ratios, unbond_reward, calc_bond_amount, calc_user_balance,
  unbond_exceed_balance, std, day,
}
use baz_core.AstroportFarm.Bond.{Deps, Message, unbond, withdraw, asset_msg}
use baz_core.AstroportFarm.Supply.{IsSound, share}
use baz_core.AstroportFarm.Price.{user_balance_standard}

-- The amounts of a list fit 128 bits.
abbrev pub AreFit : List ℕ → Type 0
AreFit [] = Unit
AreFit (n ∷ ns) = (n < u128_mod) × AreFit ns

part_le : (a n m : ℕ) → 0 < m → n ≤ m → a * n / m ≤ a
part_le a n m pos h = div-le a (a * n) m pos (mul_le_mul a a n m (omega arith) h)

ratios-ok :
    (costs : List ℕ) (n m : ℕ)
    → 0 < m
    → n ≤ m
    → AreFit costs
    → (l : List ℕ) × (ratios standard costs n m ≡ ok l)
unfolding ratios
ratios-ok [] n m pos h f = ([], refl)
ratios-ok (a ∷ costs) n m pos h f =
    let (l, e) = ratios-ok costs n m pos h f.1 in (a * n / m ∷ l, ground (arith, part_le a n m))

unbond_reward-ok :
    (r : RewardInfo) (s : ℕ)
    → s ≤ r.bond_share
    → 0 < r.bond_share
    → r.bond_share + r.transfer_share < u128_mod
    → r.deposit_amount < u128_mod
    → AreFit r.deposit_costs
    → (r' : RewardInfo) × (unbond_reward standard r s ≡ ok r')
unfolding unbond_reward
unbond_reward-ok r s le pos b a f =
    let old = r.bond_share + r.transfer_share in
    let new = r.bond_share - s + r.transfer_share in
    let (l, e) = ratios-ok r.deposit_costs new old (omega (arith, pos)) (omega arith) f in
    (
      record {
        bond_share = r.bond_share - s;
        deposit_amount = r.deposit_amount * new / old;
        deposit_time = r.deposit_time;
        transfer_share = r.transfer_share;
        deposit_costs = l;
      },
      ground (arith, part_le r.deposit_amount new old),
    )

share_pos :
    (s : State) (lp share worth : ℕ)
    → calc_bond_amount standard s lp share ≡ ok worth
    → 0 < worth
    → 0 < share
unfolding calc_bond_amount
share_pos s lp zero worth h pos = ground arith
share_pos s lp (suc n) worth h pos = omega arith

-- What the amounts of an entry are in a running farm: the deposit is not in the future, and the
-- amounts are of 128 bits, the shares with those from transfers too.
pub record IsCurrent (r : RewardInfo) (time : ℕ) : Type 0 where
  pub in_time : r.deposit_time ≤ time
  pub shares_fit : r.bond_share + r.transfer_share < u128_mod
  pub amount_fit : r.deposit_amount < u128_mod
  pub costs_fit : AreFit r.deposit_costs

-- The shares of a user are worth at most all that is staked.
worth-ok :
    (s : State) (lp share : ℕ)
    → share ≤ s.total_bond_share
    → lp < u128_mod
    → (worth : ℕ) × (calc_bond_amount standard s lp share ≡ ok worth) × (worth ≤ lp)
unfolding calc_bond_amount
worth-ok s lp share h b = elim (Bool-cases (s.total_bond_share == 0)) [
  | inl t ↦ (0, ground arith, omega arith)
  | inr t ↦
      let le = part_le lp share s.total_bond_share (ground arith) h in
      (lp * share / s.total_bond_share, ground (arith, le), le)
]

balance-ok :
    (r : RewardInfo) (s : State) (lp time : ℕ)
    → r.bond_share ≤ s.total_bond_share
    → lp < u128_mod
    → r.deposit_time ≤ time
    → (balance : ℕ) × (calc_user_balance standard r s lp time ≡ ok balance) × (balance < u128_mod)
unfolding calc_user_balance
balance-ok r s lp time h b t =
    let (worth, e, le) = worth-ok s lp r.bond_share h b in
    elim (Bool-cases (ltb (time - r.deposit_time) day && ltb r.deposit_amount worth)) [
      | inr late ↦ (worth, ground arith, omega (arith, le, b))
      | inl early ↦
          let q =
            part_le (worth - r.deposit_amount) (time - r.deposit_time) day (omega arith)
              (ground arith) in
          (
            r.deposit_amount + (worth - r.deposit_amount) * (time - r.deposit_time) / day,
            ground (arith, q),
            ground (arith, q),
          )
    ]

module _ (c : Cosmwasm) (d : Deps) (env : Env) (info : MessageInfo) (amount : ℕ) (s : Store) where
  -- The messages that pay the sender.
  abbrev pub pays : List Message
  pays =
      withdraw s.config.staking_contract s.config.liquidity_token amount
      ∷ asset_msg (transfer s.config.liquidity_token info.sender amount)
      ∷ []

  -- How an unbond ends, by the sender's entry and what is staked.
  abbrev pub Ends : ℕ → Option RewardInfo → Type 0
  Ends lp none = unbond c d env info amount s ≡ err (std not_found)
  Ends lp (some r) =
      (balance : ℕ) × (calc_user_balance c r s.state lp env.time ≡ ok balance)
      × (((balance < amount) × (unbond c d env info amount s ≡ err unbond_exceed_balance))
          ⊎ ((amount ≤ balance)
              × ((x : Store × List Message) × (unbond c d env info amount s ≡ ok x)
                  × (x.1 ≡ pays))))

-- The first steps of an unbond.
refused :
    (d : Deps) (env : Env) (info : MessageInfo) (amount lp balance : ℕ) (s : Store) (r : RewardInfo)
    → d.query_deposit s.config.staking_contract s.config.liquidity_token env.contract ≡ ok lp
    → lookup info.sender s.reward ≡ some r
    → calc_user_balance standard r s.state lp env.time ≡ ok balance
    → amount ≢ 0
    → balance < amount
    → unbond standard d env info amount s ≡ err unbond_exceed_balance
unfolding unbond
refused d env info amount lp balance s r q l b z more = ground arith

own_le :
    (s : Store) (k : Addr) (r : RewardInfo)
    → IsSound s
    → lookup k s.reward ≡ some r
    → r.bond_share ≤ s.state.total_bond_share
own_le s k r v l =
    let whole : at_key share (some r) ≤ sum_by share s.reward =
      subst (λ o. at_key share o ≤ sum_by share s.reward) l (at_key-le-sum_by share k s.reward) in
    omega (arith, whole, v.total)

paid :
    (d : Deps) (env : Env) (info : MessageInfo) (amount lp balance : ℕ) (s : Store) (r : RewardInfo)
    → IsSound s
    → d.query_deposit s.config.staking_contract s.config.liquidity_token env.contract ≡ ok lp
    → lookup info.sender s.reward ≡ some r
    → IsCurrent r env.time
    → calc_user_balance standard r s.state lp env.time ≡ ok balance
    → balance < u128_mod
    → amount ≢ 0
    → amount ≤ balance
    → (x : Store × List Message) × (unbond standard d env info amount s ≡ ok x)
      × (x.1 ≡ pays standard d env info amount s)
unfolding unbond
paid d env info amount lp balance s r v q l cur b fb z enough =
    let (worth, e, le, _, _) = user_balance_standard r s.state lp env.time balance b in
    let pos = share_pos s.state lp r.bond_share worth e (omega (arith, le, enough, z)) in
    let (burnt, eb, _, _, small) =
      multiply_ratio_and_ceil_lem standard standard-IsDocumented r.bond_share amount balance
        (omega (arith, cur.shares_fit)) fb (omega (arith, enough, z)) enough in
    let (r', er) = unbond_reward-ok r burnt small pos cur.shares_fit cur.amount_fit cur.costs_fit in
    let own = own_le s info.sender r v l in
    let less : burnt ≤ s.state.total_bond_share = omega (arith, small, own) in
    (
      (
        record s {
          state = record s.state { total_bond_share = s.state.total_bond_share - burnt };
          reward = insert info.sender r' s.reward;
        },
        pays standard d env info amount s,
      ),
      ground arith,
      refl,
    )

no_entry :
    (d : Deps) (env : Env) (info : MessageInfo) (amount lp : ℕ) (s : Store)
    → d.query_deposit s.config.staking_contract s.config.liquidity_token env.contract ≡ ok lp
    → lookup info.sender s.reward ≡ none
    → amount ≢ 0
    → unbond standard d env info amount s ≡ err (std not_found)
unfolding unbond
no_entry d env info amount lp s q l z = ground arith

unbond-standard :
    (d : Deps) (env : Env) (info : MessageInfo) (amount lp : ℕ) (s : Store)
    → IsSound s
    → d.query_deposit s.config.staking_contract s.config.liquidity_token env.contract ≡ ok lp
    → lp < u128_mod
    → ((r : RewardInfo) → lookup info.sender s.reward ≡ some r → IsCurrent r env.time)
    → amount ≢ 0
    → Ends standard d env info amount s lp (lookup info.sender s.reward)
unbond-standard d env info amount lp s v q b cur z =
    elim (Option-cases (lookup info.sender s.reward)) [
      | inl l ↦ rw l (no_entry d env info amount lp s q l z)
      | inr (r, l) ↦
          let k = cur r l in
          let (balance, e, fb) =
            balance-ok r s.state lp env.time (own_le s info.sender r v l) b k.in_time in
          subst (Ends standard d env info amount s lp) (sym l) (
            balance,
            e,
            elim (Bool-cases (ltb balance amount)) [
              | inl t ↦
                  inl
                    (ground arith, refused d env info amount lp balance s r q l e z (ground arith))
              | inr t ↦ inr (
                ground arith,
                paid d env info amount lp balance s r v q l k e fb z (ground arith),
              )
            ],
          )
    ]

-- An unbond of a positive amount, with a sound supply, where the query of the staked amount answers
-- with 128 bits, and the sender's entry, if there is one, has amounts of 128 bits, its shares taken
-- together, and a deposit that is not in the future. A sender without an entry is refused as not
-- found. Otherwise the sender's balance is computed, without an overflow; an amount above it is
-- refused as `unbond_exceed_balance`, and no smaller one fails: the unbond goes through, without an
-- overflow or a division by zero, and withdraws and pays the amount.
pub unbond_lem :
    (c : Cosmwasm)
    → IsDocumented c
    → (d : Deps) (env : Env) (info : MessageInfo) (amount lp : ℕ) (s : Store) → IsSound s
    → d.query_deposit s.config.staking_contract s.config.liquidity_token env.contract ≡ ok lp
    → lp < u128_mod
    → ((r : RewardInfo) → lookup info.sender s.reward ≡ some r → IsCurrent r env.time)
    → amount ≢ 0
    → Ends c d env info amount s lp (lookup info.sender s.reward)
unbond_lem = at_standard _ unbond-standard
