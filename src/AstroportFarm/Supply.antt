-- ===== src/AstroportFarm/Supply.antt =====
-- The supply of shares: the total is the sum of the stakers' `bond_share`s.
use baz_core.Common.{ℕ, ◌+◌, ◌≤◌, ◌≡◌, Option, ok, arith, inl, inr, unwrap_or, Option-cases}
use baz_core.Common.Map.{Map, IsMap, lookup, insert, sum_by, at_key, sum_by-insert, lookup-insert}
use baz_core.Cosmwasm.Standard.{standard}
use baz_core.Host.{Addr}
use baz_core.Assets.{PoolResponse}
use baz_core.AstroportFarm.Defs.{
  RewardInfo, Store, default_reward_info, ensure_deposit_costs, bond_reward, unbond_reward,
}
use baz_core.AstroportFarm.Bond.{Deps}
use baz_core.AstroportFarm.Token.{move_share}

abbrev pub share : RewardInfo → ℕ
share r = r.bond_share

pub record IsSound (s : Store) : Type 0 where
  pub keys : IsMap s.reward
  pub total : s.state.total_bond_share ≡ sum_by share s.reward

-- What a staker's entry holds, where there is none the default.
abbrev pub entry : Addr → Map RewardInfo → RewardInfo
entry k m = unwrap_or (lookup k m) default_reward_info

pub share-entry : (k : Addr) (m : Map RewardInfo) → at_key share (lookup k m) ≡ share (entry k m)
share-entry k m = elim (Option-cases (lookup k m)) [ inl e ↦ rw e | inr (r, e) ↦ rw e ]

-- The shares that the operations on one entry move.
pub bond_reward-share :
    (r : RewardInfo) (s a t : ℕ) (p : PoolResponse) {r' : RewardInfo}
    → bond_reward standard r s a t p ≡ ok r'
    → (share r' ≡ share r + s)
      × (r'.deposit_amount ≡ r.deposit_amount + a)
      × (r'.transfer_share ≡ r.transfer_share)
unfolding bond_reward
bond_reward-share r s a t p h = ground arith

pub unbond_reward-share :
    (r : RewardInfo) (s : ℕ) {r' : RewardInfo}
    → unbond_reward standard r s ≡ ok r'
    → (share r' + s ≡ share r) × (r'.transfer_share ≡ r.transfer_share)
unfolding unbond_reward
unbond_reward-share r s h = ground arith

pub ensure-share :
    (r : RewardInfo) (stored : Option PoolResponse) {r' : RewardInfo}
    → ensure_deposit_costs standard r stored ≡ ok r'
    → (share r' ≡ share r)
      × (r'.transfer_share ≡ r.transfer_share)
      × (r'.deposit_amount ≡ r.deposit_amount)
      × (r'.deposit_time ≡ r.deposit_time)
unfolding ensure_deposit_costs
ensure-share r stored h = ground arith

-- Both branches of a transfer: the sender's shares stay as lowered before, the receiver gets
-- `amount` more, and what the receiver's `transfer_share` loses is covered by it.
pub record Hands (amount : ℕ) (sender receiver sender' receiver' : RewardInfo) : Type 0 where
  pub sent : share sender' ≡ share sender
  pub kept : sender'.transfer_share ≡ sender.transfer_share
  pub got : share receiver' ≡ share receiver + amount
  pub lowered : receiver'.transfer_share ≤ receiver.transfer_share

pub move_share-Hands :
    (d : Deps) (sender receiver : RewardInfo) (amount : ℕ) (stored : Option PoolResponse)
    {sender' receiver' : RewardInfo}
    → move_share standard d sender receiver amount stored ≡ ok (sender', receiver')
    → Hands amount sender receiver sender' receiver'
unfolding move_share
move_share-Hands d sender receiver amount stored h = grind (arith, bond_reward-share, ensure-share)

-- Saving an entry with the same shares as the one that stands there moves no shares.
pub same_share :
    (j k : Addr) (r : RewardInfo) (m : Map RewardInfo)
    → share r ≡ share (entry k m)
    → share (entry j (insert k r m)) ≡ share (entry j m)
same_share j k r m e = rw (lookup-insert j k r m) (ground arith)

pub sum-insert :
    (k : Addr) (r : RewardInfo) (m : Map RewardInfo)
    → sum_by share (insert k r m) + share (entry k m) ≡ sum_by share m + share r
sum-insert k r m = rw (← share-entry k m) (sum_by-insert share k r m)
