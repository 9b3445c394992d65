-- ===== src/AstroportFarm/Holders.antt =====
-- The farm's token: what a transfer does to the two holders, and what an allowance allows.
use baz_core.Common.{ℕ, ◌+◌, ◌≤◌, ◌<◌, ◌≡◌, ◌≢◌, ok, arith, refl, sym, ap}
use baz_core.Common.Map.{Map, lookup, insert, lookup-insert_ne}
use baz_core.Cosmwasm.{Cosmwasm, IsDocumented}
use baz_core.Cosmwasm.Standard.{standard, at_standard}
use baz_core.Host.{Addr, HumanAddr}
use baz_core.AstroportFarm.Defs.{RewardInfo, Store}
use baz_core.AstroportFarm.Bond.{Deps}
use baz_core.AstroportFarm.Token.{transfer_internal}
use baz_core.AstroportFarm.Supply.{entry, share, move_share-Hands}
use baz_core.AstroportFarm.Shares.{entry-some, entry-insert}
use baz_core.AstroportFarm.Moves.{transfer_internal-Transfers, lowered}

entry-insert_ne :
    (j k : Addr) (r : RewardInfo) (m : Map RewardInfo) → j ≢ k → entry j (insert k r m) ≡ entry j m
entry-insert_ne j k r m n = rw (lookup-insert_ne j k r m n) refl

entry-insert_eq :
    (j k : Addr) (r : RewardInfo) (m : Map RewardInfo) → j ≡ k → entry j (insert k r m) ≡ r
entry-insert_eq j k r m e = rw e (entry-insert k r m)

transfer_moves_standard :
    (d : Deps) (k j : Addr) (recipient : HumanAddr) (amount : ℕ) (s s' : Store)
    → d.addr_validate recipient ≡ ok j
    → transfer_internal standard d k recipient amount s ≡ ok s'
    → (0 < amount)
      × (amount ≤ share (entry k s.reward))
      × (k ≢ j → share (entry k s'.reward) + amount ≡ share (entry k s.reward))
      × (k ≢ j → share (entry j s'.reward) ≡ share (entry j s.reward) + amount)
      × (k ≡ j → share (entry k s'.reward) ≡ share (entry k s.reward))
      × ((i : Addr) → i ≢ k → i ≢ j → lookup i s'.reward ≡ lookup i s.reward)
      × (s'.state ≡ s.state)
transfer_moves_standard d k j recipient amount s s' v h =
    let u = transfer_internal-Transfers d k recipient amount s h in
    let low = lowered u.sender u.low u.high in
    let moved = move_share-Hands d low _ amount s.pool_info u.moved in
    let same : u.rcpt ≡ j = ground (arith, v, u.valid) in
    let own : entry k s.reward ≡ u.sender = entry-some k s.reward u.loaded in
    let m1 = insert k low s.reward in
    let m2 = insert k u.sender' m1 in
    let pos : 0 < amount = ground (arith, u.positive) in
    rw (u.result, own, ← same)
      (
        pos,
        omega (arith, u.paid),
        λ n.
            rw (entry-insert_ne k u.rcpt u.receiver' m2 n, entry-insert k u.sender' m1)
              (omega (arith, u.paid, moved.sent)),
        λ n. rw (entry-insert u.rcpt u.receiver' m2) (
            omega (
              arith,
              moved.got,
              ap share (entry-insert_ne u.rcpt k low s.reward (λ e. n (sym e))),
            )),
        λ e. rw (entry-insert_eq k u.rcpt u.receiver' m2 e) (
            omega
              (arith, moved.got, u.paid, ap share (entry-insert_eq u.rcpt k low s.reward (sym e)))),
        λ i n o.
            rw
              (
                lookup-insert_ne i u.rcpt u.receiver' m2 o,
                lookup-insert_ne i k u.sender' m1 n,
                lookup-insert_ne i k low s.reward n,
              )
              refl,
        refl,
      )

-- Where a transfer succeeds, it is of a positive amount that the sender has; the sender has it less
-- and the recipient more, unless they are the same account, whose shares stay; no other account's
-- entry and not the total changes.
pub transfer_moves :
    (c : Cosmwasm)
    → IsDocumented c
    → (d : Deps) (k j : Addr) (recipient : HumanAddr) (amount : ℕ) (s s' : Store)
    → d.addr_validate recipient ≡ ok j
    → transfer_internal c d k recipient amount s ≡ ok s'
    → (0 < amount)
      × (amount ≤ share (entry k s.reward))
      × (k ≢ j → share (entry k s'.reward) + amount ≡ share (entry k s.reward))
      × (k ≢ j → share (entry j s'.reward) ≡ share (entry j s.reward) + amount)
      × (k ≡ j → share (entry k s'.reward) ≡ share (entry k s.reward))
      × ((i : Addr) → i ≢ k → i ≢ j → lookup i s'.reward ≡ lookup i s.reward)
      × (s'.state ≡ s.state)
transfer_moves = at_standard _ transfer_moves_standard
