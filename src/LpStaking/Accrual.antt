-- ===== src/LpStaking/Accrual.antt =====
-- What one call of `compute_reward` and `compute_staker_reward` changes.
use baz_core.Common.{
  ℕ, ◌+◌, ◌-◌, ◌*◌, ◌/◌, ◌≤◌, ◌≡◌, ◌≢◌, List, [], ◌∷◌, ok, arith, subst, >>=-eq-ok, ◌==◌, ◌++◌,
  false, NoErr, NoErr-bind, NoErr-ne, NoErr-of_ne,
}
use baz_core.Common.Arith.{div_mono}
use baz_core.Cosmwasm.{Cosmwasm, IsDocumented, decimal_one}
use baz_core.Cosmwasm.Standard.{standard, at_standard}
use baz_core.LpStaking.Defs.{
  Slot, Config, State, RewardInfo, distribute_slot, distribute, compute_reward,
  compute_staker_reward,
}
use baz_core.LpStaking.Rewards.{distribute_slot_degenerate}

-- `compute_reward` moves the clock, keeps the bonded total, and lowers no index.
pub record Advances (time : ℕ) (old new : State) : Type 0 where
  pub clock : new.last_distributed ≡ time
  pub total : new.total_bond_amount ≡ old.total_bond_amount
  pub index : old.global_reward_index ≤ new.global_reward_index

pub compute_reward-Advances :
    (config : Config) (state : State) (time : ℕ) {state' : State}
    → compute_reward standard config state time ≡ ok state'
    → Advances time state state'
unfolding compute_reward
compute_reward-Advances config state time h = ground arith

-- What a staker is credited.
pub record Credits (state : State) (old new : RewardInfo) : Type 0 where
  pub bond : new.bond_amount ≡ old.bond_amount
  pub index : new.reward_index ≡ state.global_reward_index
  pub pending :
      new.pending_reward + old.bond_amount * old.reward_index / decimal_one
      ≡ old.pending_reward + old.bond_amount * state.global_reward_index / decimal_one

pub compute_staker_reward-Credits :
    (state : State) (reward_info : RewardInfo) {reward_info' : RewardInfo}
    → compute_staker_reward standard state reward_info ≡ ok reward_info'
    → Credits state reward_info reward_info'
unfolding compute_staker_reward
compute_staker_reward-Credits state reward_info h = ground arith

no_underflow : (b i g : ℕ) → i ≤ g → b * i / decimal_one ≤ b * g / decimal_one
no_underflow b i g h = div_mono (b * i) (b * g) decimal_one (omega arith) (grind arith)

-- With an index that has not passed the global one, the subtraction in `compute_staker_reward`
-- never fails: the result is a value, or a panic of an overflow, and no error.
pub compute_staker_reward-NoErr :
    (state : State) (reward_info : RewardInfo)
    → reward_info.reward_index ≤ state.global_reward_index
    → NoErr (compute_staker_reward standard state reward_info)
unfolding compute_staker_reward
compute_staker_reward-NoErr state reward_info h = NoErr-of_ne _ λ e k.
    ground (
      arith,
      no_underflow reward_info.bond_amount reward_info.reward_index state.global_reward_index,
    )

-- The difference of two quotients rounded down is the quotient of the difference, or one more.
quotient_gap :
    (b i g : ℕ)
    → i ≤ g
    → (b * (g - i) / decimal_one + b * i / decimal_one ≤ b * g / decimal_one)
      × (b * g / decimal_one ≤ b * (g - i) / decimal_one + b * i / decimal_one + 1)
quotient_gap b i g h = let e : b * g ≡ b * (g - i) + b * i = grind arith in rw e (omega arith)

-- For a staker whose index has not passed the new global index, a reward that is computed is
-- `bond_amount` times the growth of the index, rounded down, or one unit more.
pub accrual :
    (c : Cosmwasm)
    → IsDocumented c
    → (config : Config) (state state' : State) (time : ℕ) (reward_info reward_info' : RewardInfo)
    → reward_info.reward_index ≤ state.global_reward_index
    → compute_reward c config state time ≡ ok state'
    → compute_staker_reward c state' reward_info ≡ ok reward_info'
    → let exact =
        reward_info.bond_amount
        * (state'.global_reward_index - reward_info.reward_index)
        / decimal_one in
      (reward_info.pending_reward + exact ≤ reward_info'.pending_reward)
      × (reward_info'.pending_reward ≤ reward_info.pending_reward + exact + 1)
      × (reward_info'.reward_index ≡ state'.global_reward_index)
      × (state'.last_distributed ≡ time)
accrual = at_standard _ λ config state state' time reward_info reward_info' h r q.
    let a = compute_reward-Advances config state time r in
    let b = compute_staker_reward-Credits state' reward_info q in
    let gap =
      quotient_gap reward_info.bond_amount reward_info.reward_index state'.global_reward_index
        (omega arith) in
    (omega arith, omega arith, b.index, a.clock)

distribute_degenerate :
    (time last : ℕ) (before : List Slot) (s : Slot) (after : List Slot) (acc d : ℕ)
    → s.1 ≤ s.0
    → s.0 ≤ time
    → last ≤ s.1
    → distribute standard time last (before ++ s ∷ after) acc ≢ ok d
unfolding distribute
distribute_degenerate time last [] s after acc d h k o e =
    let (next, first, later) = >>=-eq-ok (distribute_slot standard time last s acc) _ e in
    distribute_slot_degenerate time last s acc next h k o first
distribute_degenerate time last (b ∷ before) s after acc d h k o e =
    let (next, first, later) = >>=-eq-ok (distribute_slot standard time last b acc) _ e in
    distribute_degenerate time last before s after next d h k o later

-- With something bonded, `compute_reward` runs the loop over the whole schedule.
compute_reward-distributes :
    (config : Config) (state : State) (time : ℕ) {state' : State}
    → state.total_bond_amount ≢ 0
    → compute_reward standard config state time ≡ ok state'
    → (d : ℕ) × (distribute standard time state.last_distributed config.distribution_schedule 0
        ≡ ok d)
unfolding compute_reward
compute_reward-distributes config state time n r =
    let bonded : (state.total_bond_amount == 0) ≡ false = ground arith in
    let (d, first, _) =
      >>=-eq-ok (distribute standard time state.last_distributed config.distribution_schedule 0) _
        (rw bonded at r) in
    (d, first)

-- A slot that ends no later than it begins stops `compute_reward` once it has begun, as long as
-- something is bonded and the last distribution is not past its end.
pub compute_reward_degenerate :
    (config : Config) (state state' : State) (time : ℕ) (before after : List Slot) (s : Slot)
    → config.distribution_schedule ≡ before ++ s ∷ after
    → s.1 ≤ s.0
    → s.0 ≤ time
    → state.last_distributed ≤ s.1
    → state.total_bond_amount ≢ 0
    → compute_reward standard config state time ≢ ok state'
compute_reward_degenerate config state state' time before after s e h k o n r =
    let (d, first) = compute_reward-distributes config state time n r in
    distribute_degenerate time state.last_distributed before s after 0 d h k o
      (subst (λ slots. distribute standard time state.last_distributed slots 0 ≡ ok d) e first)

distribute_slot-NoErr :
    (time last : ℕ) (s : Slot) (acc : ℕ) → NoErr (distribute_slot standard time last s acc)
unfolding distribute_slot
distribute_slot-NoErr time last s acc = NoErr-of_ne _ λ e h. ground arith

distribute-NoErr :
    (time last : ℕ) (slots : List Slot) (acc : ℕ) → NoErr (distribute standard time last slots acc)
unfolding distribute
distribute-NoErr time last [] acc = tt
distribute-NoErr time last (s ∷ rest) acc =
    NoErr-bind (distribute_slot standard time last s acc) _ (distribute_slot-NoErr time last s acc)
      λ next _. distribute-NoErr time last rest next

-- `compute_reward` meets no error, it gives a state or panics.
pub compute_reward-NoErr :
    (config : Config) (state : State) (time : ℕ) → NoErr (compute_reward standard config state time)
unfolding compute_reward
compute_reward-NoErr config state time = NoErr-of_ne _ λ e h. ground (
  arith,
  NoErr-ne (distribute standard time state.last_distributed config.distribution_schedule 0) e
      (distribute-NoErr time state.last_distributed config.distribution_schedule 0),
)
