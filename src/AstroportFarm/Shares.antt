-- ===== src/AstroportFarm/Shares.antt =====
-- The total of the shares stays the sum of the entries' shares through every message.
use baz_core.Common.{ℕ, ◌+◌, ◌≡◌, some, List, ok, arith, refl, subst, sym}
use baz_core.Common.Map.{Map, lookup, insert, sum_by, lookup-insert, insert-IsMap}
use baz_core.Cosmwasm.Standard.{standard}
use baz_core.Host.{Addr, HumanAddr, Env, MessageInfo}
use baz_core.AstroportFarm.Defs.{RewardInfo, Store}
use baz_core.AstroportFarm.Bond.{Deps, Message, bond_internal, unbond}
use baz_core.AstroportFarm.Token.{transfer_internal}
use baz_core.AstroportFarm.Supply.{
  IsSound, share, entry, move_share-Hands, same_share, sum-insert, unbond_reward-share,
  bond_reward-share, ensure-share,
}
use baz_core.AstroportFarm.Moves.{transfer_internal-Transfers, lowered, Burns}
use baz_core.AstroportFarm.Exchange.{unbond-Unbonds, bond_internal-Bonds}

pub entry-some :
    (k : Addr) (m : Map RewardInfo) {r : RewardInfo} → lookup k m ≡ some r → entry k m ≡ r
entry-some k m e = rw e refl

pub entry-insert : (k : Addr) (r : RewardInfo) (m : Map RewardInfo) → entry k (insert k r m) ≡ r
entry-insert k r m = rw (lookup-insert k k r m) (ground arith)

sum-transfer :
    (k j : Addr) (m : Map RewardInfo) (low sender' receiver' : RewardInfo) (amount : ℕ)
    → share low + amount ≡ share (entry k m)
    → share sender' ≡ share low
    → share receiver' ≡ share (entry j (insert k low m)) + amount
    → sum_by share (insert j receiver' (insert k sender' (insert k low m))) ≡ sum_by share m
sum-transfer k j m low sender' receiver' amount paid kept got =
    let m1 = insert k low m in
    let at_k : share (entry k m1) ≡ share low = rw (entry-insert k low m) refl in
    omega (
      arith,
      paid,
      kept,
      got,
      at_k,
      sum-insert k low m,
      sum-insert k sender' m1,
      sum-insert j receiver' (insert k sender' m1),
      same_share j k sender' m1 (omega (arith, kept, at_k)),
    )

-- A bond, a burn and an unbond change one entry and the total alike.
one_entry :
    (k : Addr) (s : Store) (r : RewardInfo) (total : ℕ)
    → IsSound s
    → total + share (entry k s.reward) ≡ s.state.total_bond_share + share r
    → IsSound (record s {
      state = record s.state { total_bond_share = total };
      reward = insert k r s.reward;
    })
one_entry k s r total v e = record {
  keys = insert-IsMap k r s.reward v.keys;
  total = omega (arith, e, v.total, sum-insert k r s.reward);
}

pub transfer_internal-IsSound :
    (d : Deps) (k : Addr) (recipient : HumanAddr) (amount : ℕ) (s : Store) {s' : Store}
    → IsSound s
    → transfer_internal standard d k recipient amount s ≡ ok s'
    → IsSound s'
transfer_internal-IsSound d k recipient amount s v h =
    let u = transfer_internal-Transfers d k recipient amount s h in
    let low = lowered u.sender u.low u.high in
    let moved = move_share-Hands d low _ amount s.pool_info u.moved in
    let m1 = insert k low s.reward in
    subst IsSound (sym u.result) (record {
      keys =
          insert-IsMap u.rcpt u.receiver' (insert k u.sender' m1)
            (insert-IsMap k u.sender' m1 (insert-IsMap k low s.reward v.keys));
      total = omega (
        arith,
        v.total,
        sum-transfer k u.rcpt s.reward low u.sender' u.receiver' amount
            (rw (entry-some k s.reward u.loaded) u.paid) moved.sent moved.got,
      );
    })

pub Burns-IsSound :
    (k : Addr) (amount : ℕ) (s : Store) {s' : Store} → IsSound s → Burns k amount s s' → IsSound s'
Burns-IsSound k amount s v u =
    let (e, _) = unbond_reward-share u.r amount u.released in
    subst IsSound (sym u.result) (
      one_entry k s u.r' u.total v (rw (entry-some k s.reward u.loaded) (omega (arith, e, u.paid))))

pub unbond-IsSound :
    (d : Deps) (env : Env) (info : MessageInfo) (amount : ℕ) (s : Store) {s' : Store}
    {ms : List Message}
    → IsSound s
    → unbond standard d env info amount s ≡ ok (s', ms)
    → IsSound s'
unbond-IsSound d env info amount s v h =
    let u = unbond-Unbonds d env info amount s h in
    let (e, _) = unbond_reward-share u.r u.bond_share u.released in
    subst IsSound (sym u.result) (
      one_entry info.sender s u.r' u.total v
        (rw (entry-some info.sender s.reward u.loaded) (omega (arith, e, u.paid))))

pub bond_internal-IsSound :
    (d : Deps) (env : Env) (k : Addr) (amount : ℕ) (s : Store) {s' : Store} {ms : List Message}
    → IsSound s
    → bond_internal standard d env k amount s ≡ ok (s', ms)
    → IsSound s'
bond_internal-IsSound d env k amount s v h =
    let u = bond_internal-Bonds d env k amount s h in
    let (e, _, _) =
      bond_reward-share u.ensured u.bond_share u.deposit_amount env.time u.pool_info u.credited in
    let (f, _, _, _) = ensure-share (entry k s.reward) s.pool_info u.ready in
    subst IsSound (sym u.result) (one_entry k s u.r' u.total v (omega (arith, e, f, u.paid)))
