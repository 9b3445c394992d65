-- ===== src/LpStaking/Runs.antt =====
-- What each handler of the staking contract has done where it succeeds.
use baz_core.Common.{
  ℕ, ◌+◌, ◌-◌, ◌≤◌, ◌≡◌, Option, List, [], ◌∷◌, ok, arith, >>=-eq-ok, unwrap_or, try-eq-ok,
  fail_if-eq-ok,
}
use baz_core.Common.Map.{insert}
use baz_core.Cosmwasm.Standard.{standard}
use baz_core.Host.{Addr, HumanAddr, Api, Env, MessageInfo}
use baz_core.LpStaking.Defs.{
  State, RewardInfo, Store, read_reward_info, increase_bond_amount, decrease_bond_amount, std,
}
use baz_core.LpStaking.Contract.{Message, save_or_remove, settle, unbond, withdraw, bond, transfer}

abbrev pub less_bond : ℕ → State → State
less_bond amount state = record state { total_bond_amount = state.total_bond_amount - amount }

abbrev pub more_bond : ℕ → State → State
more_bond amount state = record state { total_bond_amount = state.total_bond_amount + amount }

module _ (env : Env) (info : MessageInfo) (amount : ℕ) (s : Store) where
  pub record Unbonds (s' : Store) (ms : List Message) : Type 0 where
    pub state : State
    pub r : RewardInfo
    pub settled : settle standard env info.sender s ≡ ok (state, r)
    pub enough : amount ≤ (read_reward_info s.reward_infos info.sender).bond_amount
    pub total : amount ≤ state.total_bond_amount
    pub own : amount ≤ r.bond_amount
    pub result : s' ≡ record s {
      state = less_bond amount state;
      reward_infos =
          save_or_remove info.sender
            (record r { bond_amount = r.bond_amount - amount })
            s.reward_infos;
    }
    pub sent : ms ≡ transfer s.config.staking_token info.sender amount ∷ []

  unbond_after_settle :
      {s' : Store} {ms : List Message} (state : State) (r : RewardInfo)
      → settle standard env info.sender s ≡ ok (state, r)
      → unbond standard env info amount s ≡ ok (s', ms)
      → Unbonds s' ms
  unfolding unbond decrease_bond_amount
  unbond_after_settle state r e h = record {
    state = state;
    r = r;
    settled = e;
    enough = ground arith;
    total = ground arith;
    own = ground arith;
    result = ground arith;
    sent = ground arith;
  }

  pub unbond-Unbonds :
      {s' : Store} {ms : List Message}
      → unbond standard env info amount s ≡ ok (s', ms)
      → Unbonds s' ms
  unfolding unbond
  unbond-Unbonds h =
      let (g, h0) = fail_if-eq-ok _ _ _ h in
      let (x, e, _) = >>=-eq-ok (settle standard env info.sender s) _ h0 in
      unbond_after_settle x.0 x.1 e h

module _ (env : Env) (info : MessageInfo) (baz_amount : Option ℕ) (s : Store) where
  pub record Withdraws (state : State) (r : RewardInfo) (s' : Store) (ms : List Message)
      : Type 0 where
    pub enough : unwrap_or baz_amount r.pending_reward ≤ r.pending_reward
    pub result : s' ≡ record s {
      state = state;
      reward_infos =
          save_or_remove info.sender
            (record r { pending_reward = r.pending_reward - unwrap_or baz_amount r.pending_reward })
            s.reward_infos;
    }
    pub sent :
        ms ≡ transfer s.config.reward_token info.sender (unwrap_or baz_amount r.pending_reward) ∷ []

  pub withdraw_after_settle :
      {s' : Store} {ms : List Message} (state : State) (r : RewardInfo)
      → settle standard env info.sender s ≡ ok (state, r)
      → withdraw standard env info baz_amount s ≡ ok (s', ms)
      → Withdraws state r s' ms
  unfolding withdraw
  withdraw_after_settle state r e h = record {
    enough = ground arith;
    result = ground arith;
    sent = ground arith;
  }

  pub withdraw-Withdraws :
      {s' : Store} {ms : List Message}
      → withdraw standard env info baz_amount s ≡ ok (s', ms)
      → (state : State) × (r : RewardInfo) × (settle standard env info.sender s ≡ ok (state, r))
        × Withdraws state r s' ms
  unfolding withdraw
  withdraw-Withdraws h =
      let (x, e, _) = >>=-eq-ok (settle standard env info.sender s) _ h in
      (x.0, x.1, e, withdraw_after_settle x.0 x.1 e h)

module _ (addr_validate : Api) (env : Env) (sender : HumanAddr) (amount : ℕ) (s : Store) where
  pub record Bonds (s' : Store) (ms : List Message) : Type 0 where
    pub staker : Addr
    pub valid : addr_validate sender ≡ ok staker
    pub state : State
    pub r : RewardInfo
    pub settled : settle standard env staker s ≡ ok (state, r)
    pub result : s' ≡ record s {
      state = more_bond amount state;
      reward_infos =
          insert staker (record r { bond_amount = r.bond_amount + amount }) s.reward_infos;
    }
    pub sent : ms ≡ []

  bond_after_settle :
      {s' : Store} {ms : List Message} (staker : Addr) (state : State) (r : RewardInfo)
      → addr_validate sender ≡ ok staker
      → settle standard env staker s ≡ ok (state, r)
      → bond standard addr_validate env sender amount s ≡ ok (s', ms)
      → Bonds s' ms
  unfolding bond increase_bond_amount
  bond_after_settle staker state r v e h = record {
    staker = staker;
    valid = v;
    state = state;
    r = r;
    settled = e;
    result = ground arith;
    sent = ground arith;
  }

  pub bond-Bonds :
      {s' : Store} {ms : List Message}
      → bond standard addr_validate env sender amount s ≡ ok (s', ms)
      → Bonds s' ms
  unfolding bond
  bond-Bonds h =
      let (staker, v, h1) = try-eq-ok std (addr_validate sender) _ h in
      let (x, e, _) = >>=-eq-ok (settle standard env staker s) _ h1 in
      bond_after_settle staker x.0 x.1 v e h
