-- ===== src/LpStaking/Ledger.antt =====
-- The books of the staking contract: the bonded total is the sum of what the stakers have bonded,
-- and no staker's index has passed the global one.
use baz_core.Common.{
  ℕ, ◌+◌, ◌≤◌, ◌≡◌, [], ◌∷◌, ok, arith, Bool-cases, Option-cases, inl, inr, ◌==◌, try-eq-ok,
}
use baz_core.Common.Map.{
  Map, IsMap, lookup, insert, remove, sum_by, at_key, sum_by-insert, sum_by-remove, insert-IsMap,
  remove-IsMap,
}
use baz_core.Cosmwasm.Standard.{standard}
use baz_core.Host.{Addr, Env}
use baz_core.LpStaking.Defs.{
  State, RewardInfo, Store, read_reward_info, compute_reward, compute_staker_reward, std,
}
use baz_core.LpStaking.Contract.{save_or_remove, settle}
use baz_core.LpStaking.Accrual.{compute_reward-Advances, compute_staker_reward-Credits}

abbrev pub bonded : RewardInfo → ℕ
bonded r = r.bond_amount

-- No index is above `g`.
abbrev pub IndexLe : ℕ → Map RewardInfo → Type 0
IndexLe g [] = Unit
IndexLe g ((k, r) ∷ m) = (r.reward_index ≤ g) × IndexLe g m

pub record IsSound (s : Store) : Type 0 where
  pub keys : IsMap s.reward_infos
  pub total : s.state.total_bond_amount ≡ sum_by bonded s.reward_infos
  pub indexes : IndexLe s.state.global_reward_index s.reward_infos

IndexLe-mono : (g g' : ℕ) (m : Map RewardInfo) → g ≤ g' → IndexLe g m → IndexLe g' m
IndexLe-mono g g' [] h l = tt
IndexLe-mono g g' (e ∷ m) h l = (omega arith, IndexLe-mono g g' m h l.1)

IndexLe-insert :
    (g k : ℕ) (r : RewardInfo) (m : Map RewardInfo)
    → r.reward_index ≤ g
    → IndexLe g m
    → IndexLe g (insert k r m)
IndexLe-insert g k r [] h l = (h, tt)
IndexLe-insert g k r (e ∷ m) h l = ground (arith, IndexLe-insert g k r m h l.1)

IndexLe-remove : (g k : ℕ) (m : Map RewardInfo) → IndexLe g m → IndexLe g (remove k m)
IndexLe-remove g k [] l = tt
IndexLe-remove g k (e ∷ m) l = ground (arith, IndexLe-remove g k m l.1)

-- A staker that is not stored has index 0.
pub IndexLe-read :
    (g k : ℕ) (m : Map RewardInfo) → IndexLe g m → (read_reward_info m k).reward_index ≤ g
unfolding read_reward_info
IndexLe-read g k [] l = omega arith
IndexLe-read g k (e ∷ m) l = ground (arith, IndexLe-read g k m l.1)

pub bonded-read :
    (k : ℕ) (m : Map RewardInfo) → (read_reward_info m k).bond_amount ≡ at_key bonded (lookup k m)
unfolding read_reward_info
bonded-read k m = elim (Option-cases (lookup k m)) [ inl e ↦ rw e | inr (r, e) ↦ rw e ]

-- What both ways to store a staker do to the books.
pub record Stores (k : ℕ) (r : RewardInfo) (m m' : Map RewardInfo) : Type 0 where
  pub keys : IsMap m → IsMap m'
  pub total :
      sum_by bonded m' + (read_reward_info m k).bond_amount ≡ sum_by bonded m + r.bond_amount
  pub indexes : (g : ℕ) → r.reward_index ≤ g → IndexLe g m → IndexLe g m'

pub insert-Stores : (k : ℕ) (r : RewardInfo) (m : Map RewardInfo) → Stores k r m (insert k r m)
insert-Stores k r m = record {
  keys = insert-IsMap k r m;
  total = rw bonded-read (sum_by-insert bonded k r m);
  indexes = λ g h l. IndexLe-insert g k r m h l;
}

remove-Stores :
    (k : ℕ) (r : RewardInfo) (m : Map RewardInfo) → r.bond_amount ≡ 0 → Stores k r m (remove k m)
remove-Stores k r m z = record {
  keys = remove-IsMap k m;
  total = rw bonded-read (omega (arith, sum_by-remove bonded k m));
  indexes = λ g h l. IndexLe-remove g k m l;
}

pub save_or_remove-Stores :
    (k : ℕ) (r : RewardInfo) (m : Map RewardInfo) → Stores k r m (save_or_remove k r m)
unfolding save_or_remove
save_or_remove-Stores k r m = elim (Bool-cases (r.pending_reward == 0)) [
  | inl p ↦ elim (Bool-cases (r.bond_amount == 0)) [
    | inl z ↦ rw (p, z) (remove-Stores k r m (ground arith))
    | inr n ↦ rw (p, n) (insert-Stores k r m)
  ]
  | inr q ↦ rw q (insert-Stores k r m)
]

-- What `settle` gives back for the store `s` and the staker `k`.
pub record Settles (time k : ℕ) (s : Store) (state : State) (r : RewardInfo) : Type 0 where
  pub clock : state.last_distributed ≡ time
  pub total : state.total_bond_amount ≡ s.state.total_bond_amount
  pub grows : s.state.global_reward_index ≤ state.global_reward_index
  pub bond : r.bond_amount ≡ (read_reward_info s.reward_infos k).bond_amount
  pub index : r.reward_index ≡ state.global_reward_index

pub settle-Settles :
    (env : Env) (k : Addr) (s : Store) {state : State} {r : RewardInfo}
    → settle standard env k s ≡ ok (state, r)
    → Settles env.time k s state r
unfolding settle
settle-Settles env k s h =
    let (state, e1, h1) = try-eq-ok std (compute_reward standard s.config s.state env.time) _ h in
    let (r, e2, h2) =
      try-eq-ok std (compute_staker_reward standard state (read_reward_info s.reward_infos k)) _
        h1 in
    let a = compute_reward-Advances s.config s.state env.time e1 in
    let b = compute_staker_reward-Credits state (read_reward_info s.reward_infos k) e2 in
    ground arith

-- Storing the staker `k` with the matching total keeps the books sound.
pub books :
    (time k : ℕ) (s : Store) (state state' : State) (r r' : RewardInfo) (m' : Map RewardInfo)
    → IsSound s
    → Settles time k s state r
    → Stores k r' s.reward_infos m'
    → state'.total_bond_amount + r.bond_amount ≡ state.total_bond_amount + r'.bond_amount
    → state'.global_reward_index ≡ state.global_reward_index
    → r'.reward_index ≡ r.reward_index
    → IsSound (record s { state = state'; reward_infos = m' })
books time k s state state' r r' m' v t w e g i = record {
  keys = w.keys v.keys;
  total = omega (arith, v.total, t.total, t.bond, w.total);
  indexes = w.indexes state'.global_reward_index (omega (arith, t.index)) (
      IndexLe-mono s.state.global_reward_index state'.global_reward_index s.reward_infos
        (omega (arith, t.grows)) v.indexes);
}
