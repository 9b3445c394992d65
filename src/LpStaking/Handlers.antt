-- ===== src/LpStaking/Handlers.antt =====
-- What bonding, unbonding and withdrawing do to the staker, to the others, and where they fail.
use baz_core.Common.{
  ℕ, ◌+◌, ◌-◌, ◌≤◌, ◌<◌, ◌≡◌, ◌≢◌, Option, List, [], ◌∷◌, ◌++◌, ok, err, arith, false, try-eq-ok,
  unwrap_or, ◌∙◌, ltb, NoErr, NoErr-bind, NoErr-ne, NoErr-of_ne, NoErr-map_err, map_err-eq-ok,
}
use baz_core.Common.Map.{
  Map, IsMap, lookup, insert, at_key-le-sum_by, lookup-insert_self, lookup-insert_ne,
  lookup-remove_self, lookup-remove_ne,
}
use baz_core.Cosmwasm.{Cosmwasm, IsDocumented}
use baz_core.Cosmwasm.Standard.{standard, at_standard}
use baz_core.Host.{Addr, HumanAddr, Api, Env, MessageInfo}
use baz_core.LpStaking.Defs.{
  State, RewardInfo, Store, ContractError, std, Slot, read_reward_info, compute_reward,
  decrease_bond_amount, unbond_exceed_balance,
}
use baz_core.LpStaking.Contract.{Message, transfer, save_or_remove, settle, unbond, withdraw, bond}
use baz_core.LpStaking.Accrual.{
  compute_staker_reward-NoErr, compute_reward_degenerate, compute_reward-NoErr,
  compute_reward-Advances,
}
use baz_core.LpStaking.Ledger.{IsSound, settle-Settles, bonded, bonded-read, IndexLe-read}
use baz_core.LpStaking.Books.{bond-IsSound}
use baz_core.LpStaking.Runs.{unbond-Unbonds, withdraw_after_settle, withdraw-Withdraws, bond-Bonds}

-- What is read back for the staker that was stored, and for another one.
read-insert : (k : ℕ) (r : RewardInfo) (m : Map RewardInfo) → read_reward_info (insert k r m) k ≡ r
unfolding read_reward_info
read-insert k r m = rw (lookup-insert_self k r m)

read-save_or_remove :
    (k : ℕ) (r : RewardInfo) (m : Map RewardInfo)
    → IsMap m
    → let stored = read_reward_info (save_or_remove k r m) k in
      (stored.bond_amount ≡ r.bond_amount) × (stored.pending_reward ≡ r.pending_reward)
unfolding read_reward_info save_or_remove
read-save_or_remove k r m h = ground (arith, lookup-remove_self k m h, lookup-insert_self k r m)

lookup-save_or_remove_ne :
    (j k : ℕ) (r : RewardInfo) (m : Map RewardInfo)
    → j ≢ k
    → lookup j (save_or_remove k r m) ≡ lookup j m
unfolding save_or_remove
lookup-save_or_remove_ne j k r m h =
    ground (arith, lookup-remove_ne j k m h, lookup-insert_ne j k r m h)

settle-NoErr : (env : Env) (k : Addr) (s : Store) → IsSound s → NoErr (settle standard env k s)
unfolding settle
settle-NoErr env k s v =
    NoErr-bind _ _
      (NoErr-map_err std (compute_reward standard s.config s.state env.time)
        (compute_reward-NoErr s.config s.state env.time))
      λ state e.
        NoErr-bind _ _
          (NoErr-map_err std _ (
            compute_staker_reward-NoErr state (read_reward_info s.reward_infos k) (
              let a =
                compute_reward-Advances s.config s.state env.time
                  (map_err-eq-ok std (compute_reward standard s.config s.state env.time) e) in
              omega (
                arith,
                a.index,
                IndexLe-read s.state.global_reward_index k s.reward_infos v.indexes,
              ))))
          (λ r _. tt)

bonded-le-total :
    (k : Addr) (s : Store)
    → IsSound s
    → (read_reward_info s.reward_infos k).bond_amount ≤ s.state.total_bond_amount
bonded-le-total k s v =
    rw (bonded-read k s.reward_infos, v.total) (at_key-le-sum_by bonded k s.reward_infos)

unbond-NoErr :
    (env : Env) (info : MessageInfo) (amount : ℕ) (s : Store)
    → IsSound s
    → amount ≤ (read_reward_info s.reward_infos info.sender).bond_amount
    → NoErr (unbond standard env info amount s)
unfolding unbond decrease_bond_amount
unbond-NoErr env info amount s v h =
    let enough : ltb (read_reward_info s.reward_infos info.sender).bond_amount amount ≡ false =
      ground arith in
    rw enough (
      NoErr-bind (settle standard env info.sender s) _ (settle-NoErr env info.sender s v) λ x e.
        let t = settle-Settles env info.sender s e in
        let small = bonded-le-total info.sender s v in
        NoErr-bind _ _
          (NoErr-map_err std (decrease_bond_amount standard x.0 x.1 amount)
            (NoErr-of_ne _ λ f k. ground (arith, t.total, t.bond)))
          (λ y _. tt))

-- With sound books, `unbond` refuses exactly the amounts above the sender's bond, with
-- `unbond_exceed_balance`; no other amount meets an error.
pub unbond_refuses :
    (c : Cosmwasm)
    → IsDocumented c
    → (env : Env) (info : MessageInfo) (amount : ℕ) (s : Store) → IsSound s
    → let balance = (read_reward_info s.reward_infos info.sender).bond_amount in
      (balance < amount → unbond c env info amount s ≡ err unbond_exceed_balance)
      × (amount ≤ balance → (e : ContractError) → unbond c env info amount s ≢ err e)
unbond_refuses = at_standard _ λ env info amount s v. (
  λ h. unfold unbond in ground arith,
  λ h e. NoErr-ne (unbond standard env info amount s) e (unbond-NoErr env info amount s v h),
)

-- A withdrawal with no amount given pays the whole pending reward, one with an amount pays that;
-- what is left stays pending, the bond and the bonded total are kept, and no other staker's entry
-- is touched.
pub withdraw_pays :
    (c : Cosmwasm)
    → IsDocumented c
    → (env : Env) (info : MessageInfo) (baz_amount : Option ℕ) (s s' : Store) (ms : List Message)
      (state : State) (r : RewardInfo)
    → IsSound s
    → settle c env info.sender s ≡ ok (state, r)
    → withdraw c env info baz_amount s ≡ ok (s', ms)
    → let paid = unwrap_or baz_amount r.pending_reward in
      let after = read_reward_info s'.reward_infos info.sender in
      (ms ≡ transfer s.config.reward_token info.sender paid ∷ [])
      × (after.pending_reward + paid ≡ r.pending_reward)
      × (after.bond_amount ≡ (read_reward_info s.reward_infos info.sender).bond_amount)
      × (s'.state.total_bond_amount ≡ s.state.total_bond_amount)
      × ((j : Addr) → j ≢ info.sender → lookup j s'.reward_infos ≡ lookup j s.reward_infos)
withdraw_pays = at_standard _ λ env info baz_amount s s' ms state r v e h.
    let u = withdraw_after_settle env info baz_amount s state r e h in
    let t = settle-Settles env info.sender s e in
    let r' = record r {
      pending_reward = r.pending_reward - unwrap_or baz_amount r.pending_reward;
    } in
    let q = read-save_or_remove info.sender r' s.reward_infos v.keys in
    (
      u.sent,
      rw u.result (omega (arith, q.1, u.enough)),
      rw u.result (q.0 ∙ t.bond),
      rw u.result t.total,
      λ j ne. rw u.result (lookup-save_or_remove_ne j info.sender r' s.reward_infos ne),
    )

-- What a handler does to the bonds where it takes the store `s` to `t` for the staker `k`.
record Moves (k : Addr) (s t : Store) (old new : ℕ) : Type 0 where
  config : t.config ≡ s.config
  total : t.state.total_bond_amount + old ≡ s.state.total_bond_amount + new
  own :
      (read_reward_info t.reward_infos k).bond_amount + old
      ≡ (read_reward_info s.reward_infos k).bond_amount + new
  others : (j : Addr) → j ≢ k → lookup j t.reward_infos ≡ lookup j s.reward_infos

bond-Moves :
    (api : Api) (env : Env) (sender : HumanAddr) (k : Addr) (amount : ℕ) (s t : Store)
    (ms : List Message)
    → api sender ≡ ok k
    → bond standard api env sender amount s ≡ ok (t, ms)
    → Moves k s t 0 amount
bond-Moves api env sender k amount s t ms valid h =
    let a = bond-Bonds api env sender amount s h in
    let same : a.staker ≡ k = ground arith in
    let z = settle-Settles env a.staker s a.settled in
    let r' = record a.r { bond_amount = a.r.bond_amount + amount } in
    rw (← same) (record {
      config = rw a.result;
      total = rw a.result (omega (arith, z.total));
      own = rw (a.result, read-insert a.staker r' s.reward_infos) (omega (arith, z.bond));
      others = λ j ne. rw a.result (lookup-insert_ne j a.staker r' s.reward_infos ne);
    })

unbond-Moves :
    (env : Env) (info : MessageInfo) (amount : ℕ) (s t : Store) (ms : List Message)
    → IsMap s.reward_infos
    → unbond standard env info amount s ≡ ok (t, ms)
    → Moves info.sender s t amount 0
unbond-Moves env info amount s t ms keys h =
    let a = unbond-Unbonds env info amount s h in
    let z = settle-Settles env info.sender s a.settled in
    let r' = record a.r { bond_amount = a.r.bond_amount - amount } in
    let q = read-save_or_remove info.sender r' s.reward_infos keys in
    record {
      config = rw a.result;
      total = rw a.result (omega (arith, z.total, a.total));
      own = rw a.result (omega (arith, q.0, z.bond, a.own));
      others = λ j ne. rw a.result (lookup-save_or_remove_ne j info.sender r' s.reward_infos ne);
    }

-- A bond that is followed by an unbond of the same amount by the same staker returns the tokens,
-- and leaves the bonded total, the staker's bond and the entries of all others as they were.
pub bond-unbond :
    (c : Cosmwasm)
    → IsDocumented c
    → (api : Api) (env env' : Env) (sender : HumanAddr) (info : MessageInfo) (amount : ℕ)
      (s t u : Store) (ms ns : List Message)
    → IsSound s
    → api sender ≡ ok info.sender
    → bond c api env sender amount s ≡ ok (t, ms)
    → unbond c env' info amount t ≡ ok (u, ns)
    → (ns ≡ transfer s.config.staking_token info.sender amount ∷ [])
      × (u.state.total_bond_amount ≡ s.state.total_bond_amount)
      × ((read_reward_info u.reward_infos info.sender).bond_amount
          ≡ (read_reward_info s.reward_infos info.sender).bond_amount)
      × ((j : Addr) → j ≢ info.sender → lookup j u.reward_infos ≡ lookup j s.reward_infos)
bond-unbond = at_standard _ λ api env env' sender info amount s t u ms ns v valid h k.
    let a = bond-Moves api env sender info.sender amount s t ms valid h in
    let w = bond-IsSound api env sender amount s v h in
    let b = unbond-Moves env' info amount t u ns w.keys k in
    (
      rw (← a.config) (unbond-Unbonds env' info amount t k).sent,
      omega (arith, a.total, b.total),
      omega (arith, a.own, b.own),
      λ j ne. b.others j ne ∙ a.others j ne,
    )

settle_blocked :
    (env : Env) (k : Addr) (s : Store) (before after : List Slot) (slot : Slot)
    (x : State × RewardInfo)
    → s.config.distribution_schedule ≡ before ++ slot ∷ after
    → slot.1 ≤ slot.0
    → slot.0 ≤ env.time
    → s.state.last_distributed ≤ slot.1
    → s.state.total_bond_amount ≢ 0
    → settle standard env k s ≢ ok x
unfolding settle
settle_blocked env k s before after slot x e h o l n r =
    let (state, first, _) = try-eq-ok std (compute_reward standard s.config s.state env.time) _ r in
    compute_reward_degenerate s.config s.state state env.time before after slot e h o l n first

-- A slot that ends no later than it begins, once it has begun, stops the contract: while something
-- is bonded and the last distribution is not past the slot's end, no bond, no unbond and no
-- withdrawal of anybody succeeds.
pub degenerate_slot_blocks :
    (c : Cosmwasm)
    → IsDocumented c
    → (api : Api) (env : Env) (info : MessageInfo) (sender : HumanAddr) (amount : ℕ)
      (baz_amount : Option ℕ) (s s' : Store) (ms : List Message) (before after : List Slot)
      (slot : Slot)
    → s.config.distribution_schedule ≡ before ++ slot ∷ after
    → slot.1 ≤ slot.0
    → slot.0 ≤ env.time
    → s.state.last_distributed ≤ slot.1
    → s.state.total_bond_amount ≢ 0
    → (bond c api env sender amount s ≢ ok (s', ms))
      × (unbond c env info amount s ≢ ok (s', ms))
      × (withdraw c env info baz_amount s ≢ ok (s', ms))
degenerate_slot_blocks =
    at_standard _ λ api env info sender amount baz_amount s s' ms before after slot e h k' o n.
      let stuck = λ (k : Addr) (x : State × RewardInfo).
        settle_blocked env k s before after slot x e h k' o n in
      (
        λ z.
            let a = bond-Bonds api env sender amount s z in stuck a.staker (a.state, a.r) a.settled,
        λ z.
            let a = unbond-Unbonds env info amount s z in
            stuck info.sender (a.state, a.r) a.settled,
        λ z.
            let (state, r, q, _) = withdraw-Withdraws env info baz_amount s z in
            stuck info.sender (state, r) q,
      )
