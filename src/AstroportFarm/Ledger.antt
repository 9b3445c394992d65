-- ===== src/AstroportFarm/Ledger.antt =====
-- contracts/astroport_farm as a token: a ledger of balances and a supply, and what the handlers that
-- move shares do to it.
use baz_core.Common.{ℕ, ◌+◌, ◌≤◌, ◌≡◌, ◌==◌, if◌then◌else◌, List, ok, arith, refl, >>=-eq-ok}
use baz_core.Common.Map.{Map, insert, lookup-insert}
use baz_core.Cosmwasm.Standard.{standard}
use baz_core.Host.{Addr, HumanAddr, Env, MessageInfo}
use baz_core.AstroportFarm.Defs.{RewardInfo, Store}
use baz_core.AstroportFarm.Bond.{Deps, Message, bond_internal, unbond}
use baz_core.AstroportFarm.Token.{transfer_internal, deduct_allowance, deduct_from}
use baz_core.AstroportFarm.Supply.{
  share, entry, move_share-Hands, unbond_reward-share, bond_reward-share, ensure-share,
}
use baz_core.AstroportFarm.Shares.{entry-some}
use baz_core.AstroportFarm.Moves.{transfer_internal-Transfers, lowered, Burns}
use baz_core.AstroportFarm.Exchange.{unbond-Unbonds, bond_internal-Bonds}

-- The ledger.
pub record Ledger : Type 0 where
  pub supply : ℕ
  pub balance : Addr → ℕ

-- What the farm's store says of the ledger.
abbrev pub ledger : Store → Ledger
ledger s = record { supply = s.state.total_bond_share; balance = λ i. share (entry i s.reward) }

-- `amount` at the account `k`, nothing elsewhere
abbrev pub at_account : Addr → ℕ → Addr → ℕ
at_account k amount i = if i == k then amount else 0

-- The operations of the ledger.
pub record Mints (k : Addr) (amount : ℕ) (a b : Ledger) : Type 0 where
  pub supplied : b.supply ≡ a.supply + amount
  pub balances : (i : Addr) → b.balance i ≡ a.balance i + at_account k amount i

pub record Destroys (k : Addr) (amount : ℕ) (a b : Ledger) : Type 0 where
  pub supplied : b.supply + amount ≡ a.supply
  pub balances : (i : Addr) → b.balance i + at_account k amount i ≡ a.balance i

pub record Moves (k j : Addr) (amount : ℕ) (a b : Ledger) : Type 0 where
  pub supplied : b.supply ≡ a.supply
  pub covered : amount ≤ a.balance k
  pub balances :
      (i : Addr) → b.balance i + at_account k amount i ≡ a.balance i + at_account j amount i

share-insert :
    (i k : Addr) (r : RewardInfo) (m : Map RewardInfo)
    → share (entry i (insert k r m)) ≡ (if i == k then share r else share (entry i m))
share-insert i k r m = rw (lookup-insert i k r m) (ground arith)

pub transfer-Moves :
    (d : Deps) (k : Addr) (recipient : HumanAddr) (amount : ℕ) (s s' : Store)
    → transfer_internal standard d k recipient amount s ≡ ok s'
    → (j : Addr) × (d.addr_validate recipient ≡ ok j) × Moves k j amount (ledger s) (ledger s')
transfer-Moves d k recipient amount s s' h =
    let u = transfer_internal-Transfers d k recipient amount s h in
    let low = lowered u.sender u.low u.high in
    let moved = move_share-Hands d low _ amount s.pool_info u.moved in
    let own : entry k s.reward ≡ u.sender = entry-some k s.reward u.loaded in
    let m1 = insert k low s.reward in
    let m2 = insert k u.sender' m1 in
    let p = u.paid in
    let got = moved.got in
    let sent = moved.sent in
    let e0 = share-insert u.rcpt k low s.reward in
    (
      u.rcpt,
      u.valid,
      rw u.result (record {
        supplied = refl;
        covered = rw own (omega arith);
        balances = λ i.
            let e1 = share-insert i u.rcpt u.receiver' m2 in
            let e2 = share-insert i k u.sender' m1 in
            let e3 = share-insert i k low s.reward in ground arith;
      }),
    )

pub burn-Destroys :
    (k : Addr) (amount : ℕ) (s s' : Store)
    → Burns k amount s s'
    → Destroys k amount (ledger s) (ledger s')
burn-Destroys k amount s s' u =
    let own : entry k s.reward ≡ u.r = entry-some k s.reward u.loaded in
    let (e, _) = unbond_reward-share u.r amount u.released in
    let p = u.paid in
    rw u.result (record {
      supplied = p;
      balances = λ i. let f = share-insert i k u.r' s.reward in ground arith;
    })

-- An unbond takes some number of shares from the sender.
pub unbond-Destroys :
    (d : Deps) (env : Env) (info : MessageInfo) (amount : ℕ) (s s' : Store) (ms : List Message)
    → unbond standard d env info amount s ≡ ok (s', ms)
    → (n : ℕ) × Destroys info.sender n (ledger s) (ledger s')
unbond-Destroys d env info amount s s' ms h =
    let u = unbond-Unbonds d env info amount s h in
    (
      u.bond_share,
      burn-Destroys info.sender u.bond_share s s' (record {
        r = u.r;
        loaded = u.loaded;
        r' = u.r';
        released = u.released;
        total = u.total;
        paid = u.paid;
        result = u.result;
      }),
    )

pub bond-Mints :
    (d : Deps) (env : Env) (k : Addr) (amount : ℕ) (s s' : Store) (ms : List Message)
    → bond_internal standard d env k amount s ≡ ok (s', ms)
    → (n : ℕ) × Mints k n (ledger s) (ledger s')
bond-Mints d env k amount s s' ms h =
    let u = bond_internal-Bonds d env k amount s h in
    let (e, _, _) =
      bond_reward-share u.ensured u.bond_share u.deposit_amount env.time u.pool_info u.credited in
    let (f, _, _, _) = ensure-share (entry k s.reward) s.pool_info u.ready in
    let p = u.paid in
    (
      u.bond_share,
      rw u.result (record {
        supplied = p;
        balances = λ i. let g = share-insert i k u.r' s.reward in ground arith;
      }),
    )

pub ledger-eq : (s t : Store) → t.state ≡ s.state → t.reward ≡ s.reward → ledger t ≡ ledger s
ledger-eq s t e f =
    λ i. record { supply = (e i).total_bond_share; balance = λ k. share (entry k (f i)) }

pub deduct_allowance-ledger :
    (d : Deps) (owner spender : Addr) (env : Env) (amount : ℕ) (s t : Store)
    → deduct_allowance standard d owner spender env amount s ≡ ok t
    → ledger t ≡ ledger s
unfolding deduct_allowance
deduct_allowance-ledger d owner spender env amount s t h =
    let (a, e, f) =
      >>=-eq-ok (deduct_from standard d (s.allowances owner spender) env amount) _ h in
    ledger-eq s t (ground arith) (ground arith)
