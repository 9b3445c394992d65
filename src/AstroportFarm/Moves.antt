-- ===== src/AstroportFarm/Moves.antt =====
-- What a transfer and a burn of shares have done where they succeed.
use baz_core.Common.{ℕ, ◌+◌, ◌≡◌, ◌≢◌, some, ok, arith, try-eq-ok, fail_if-eq-ok, ◌==◌}
use baz_core.Common.Map.{lookup, insert}
use baz_core.Cosmwasm.Standard.{standard}
use baz_core.Host.{Addr, HumanAddr}
use baz_core.AstroportFarm.Defs.{RewardInfo, Store, std, unbond_reward}
use baz_core.Cosmwasm.{load, load-eq-ok}
use baz_core.AstroportFarm.Bond.{Deps}
use baz_core.AstroportFarm.Token.{move_share, transfer_internal, burn_internal}
use baz_core.AstroportFarm.Supply.{entry}

-- The sender after the first step of a transfer.
abbrev pub lowered : RewardInfo → ℕ → ℕ → RewardInfo
lowered sender bond_share transfer_share = record sender {
  bond_share = bond_share;
  transfer_share = transfer_share;
}

module _ (d : Deps) (k : Addr) (recipient : HumanAddr) (amount : ℕ) (s : Store) where
  pub record Transfers (s' : Store) : Type 0 where
    pub positive : amount ≢ 0
    pub sender : RewardInfo
    pub loaded : lookup k s.reward ≡ some sender
    pub low : ℕ
    pub high : ℕ
    pub paid : low + amount ≡ sender.bond_share
    pub raised : high ≡ sender.transfer_share + amount
    pub rcpt : Addr
    pub valid : d.addr_validate recipient ≡ ok rcpt
    pub sender' : RewardInfo
    pub receiver' : RewardInfo
    pub moved :
        move_share standard d
          (lowered sender low high)
          (entry rcpt (insert k (lowered sender low high) s.reward))
          amount
          s.pool_info
        ≡ ok (sender', receiver')
    pub result : s' ≡ record s {
      reward =
          insert rcpt receiver' (insert k sender' (insert k (lowered sender low high) s.reward));
    }

  transfer_after :
      {s' : Store} (sender : RewardInfo) (low high : ℕ) (rcpt : Addr)
      (sender' receiver' : RewardInfo)
      → amount ≢ 0
      → lookup k s.reward ≡ some sender
      → standard.checked_sub sender.bond_share amount ≡ ok low
      → standard.add sender.transfer_share amount ≡ ok high
      → d.addr_validate recipient ≡ ok rcpt
      → move_share standard d
          (lowered sender low high)
          (entry rcpt (insert k (lowered sender low high) s.reward))
          amount
          s.pool_info
        ≡ ok (sender', receiver')
      → transfer_internal standard d k recipient amount s ≡ ok s'
      → Transfers s'
  unfolding transfer_internal
  transfer_after sender low high rcpt sender' receiver' p l b t v m h = record {
    positive = p;
    sender = sender;
    loaded = l;
    low = low;
    high = high;
    paid = ground arith;
    raised = ground arith;
    rcpt = rcpt;
    valid = v;
    sender' = sender';
    receiver' = receiver';
    moved = m;
    result = ground arith;
  }

  transfer_moved :
      {s' : Store} (sender : RewardInfo) (low high : ℕ) (rcpt : Addr)
      → amount ≢ 0
      → lookup k s.reward ≡ some sender
      → standard.checked_sub sender.bond_share amount ≡ ok low
      → standard.add sender.transfer_share amount ≡ ok high
      → d.addr_validate recipient ≡ ok rcpt
      → transfer_internal standard d k recipient amount s ≡ ok s'
      → Transfers s'
  unfolding transfer_internal
  transfer_moved {s'} sender low high rcpt p l b t v h =
      let (x, m, _) =
        try-eq-ok std
          (move_share standard d (lowered sender low high)
            (entry rcpt (insert k (lowered sender low high) s.reward)) amount s.pool_info)
          (λ x. ok (record s {
            reward = insert rcpt x.1 (insert k x.0 (insert k (lowered sender low high) s.reward));
          }))
          {end = s'} (ground arith) in
      transfer_after sender low high rcpt x.0 x.1 p l b t v m h

  pub transfer_internal-Transfers :
      {s' : Store} → transfer_internal standard d k recipient amount s ≡ ok s' → Transfers s'
  unfolding transfer_internal
  transfer_internal-Transfers h =
      let (z, h0) = fail_if-eq-ok _ _ _ h in
      let (sender, e1, h1) = try-eq-ok std (load (lookup k s.reward)) _ h0 in
      let (low, e2, h2) = try-eq-ok std (standard.checked_sub sender.bond_share amount) _ h1 in
      let (high, e3, h3) = try-eq-ok std (standard.add sender.transfer_share amount) _ h2 in
      let (rcpt, e4, h4) = try-eq-ok std (d.addr_validate recipient) _ h3 in
      transfer_moved sender low high rcpt (ground arith) (load-eq-ok _ e1) e2 e3 e4 h

-- Shares that leave the supply from one entry, by a burn or an unbond.
pub record Burns (k : Addr) (amount : ℕ) (s s' : Store) : Type 0 where
  pub r : RewardInfo
  pub loaded : lookup k s.reward ≡ some r
  pub r' : RewardInfo
  pub released : unbond_reward standard r amount ≡ ok r'
  pub total : ℕ
  pub paid : total + amount ≡ s.state.total_bond_share
  pub result : s' ≡ record s {
    state = record s.state { total_bond_share = total };
    reward = insert k r' s.reward;
  }

burn_after :
    (d : Deps) (k : Addr) (amount : ℕ) (s : Store) {s' : Store} (r r' : RewardInfo) (total : ℕ)
    → amount ≢ 0
    → lookup k s.reward ≡ some r
    → standard.checked_sub s.state.total_bond_share amount ≡ ok total
    → unbond_reward standard r amount ≡ ok r'
    → burn_internal standard d k amount s ≡ ok s'
    → Burns k amount s s'
unfolding burn_internal
burn_after d k amount s r r' total z l t b h = record {
  r = r;
  loaded = l;
  r' = r';
  released = b;
  total = total;
  paid = ground arith;
  result = ground arith;
}

pub burn_internal-Burns :
    (d : Deps) (k : Addr) (amount : ℕ) (s : Store) {s' : Store}
    → burn_internal standard d k amount s ≡ ok s'
    → Burns k amount s s'
unfolding burn_internal
burn_internal-Burns d k amount s h =
    let (z, h0) = fail_if-eq-ok (amount == 0) _ _ h in
    let (r, e1, h1) = try-eq-ok std (load (lookup k s.reward)) _ h0 in
    let (total, e2, h2) =
      try-eq-ok std (standard.checked_sub s.state.total_bond_share amount) _ h1 in
    let (r', e3, h3) = try-eq-ok std (unbond_reward standard r amount) _ h2 in
    burn_after d k amount s r r' total (ground arith) (load-eq-ok _ e1) e2 e3 h
