-- ===== src/GeneratorProxy/Reachable.antt =====
-- contracts/generator_proxy: what holds of the staking after any run of messages.
use baz_core.Common.{
  ap, ◌≡◌, not, ◌==◌, Option-cases, inl, inr, List, ok, arith, refl, ℕ, try-eq-ok, fail_if-eq-ok,
}
use baz_core.Common.Map.{Map, lookup, insert}
use baz_core.Cosmwasm.{Cosmwasm, IsDocumented, load, checked}
use baz_core.Cosmwasm.Standard.{standard, at_standard}
use baz_core.Host.{Env, MessageInfo}
use baz_core.Ownership.{claim_ownership}
use baz_core.GeneratorProxy.Defs.{RewardInfo, Store, Message, Deps, std, overflow}
use baz_core.GeneratorProxy.Governance.{query_last_claim_period}
use baz_core.GeneratorProxy.Staking.{reconcile_staker_income, callback_after_staking_claimed}
use baz_core.GeneratorProxy.Operation.{
  InstantiateMsg, instantiate, ExecuteMsg, execute, receive_stake, handle_staking_claimed,
  execute_update_config, execute_update_parameters, execute_controller_vote, execute_send_income,
  receive_stake_msg, after_staking_claimed_msg, update_config_msg, update_parameters_msg,
  controller_vote_msg, send_income_msg, propose_new_owner_msg, drop_ownership_proposal_msg,
  claim_ownership_msg, relock_msg, request_unstake_msg, withdraw_unstaked_msg, claim_income_msg,
}
use baz_core.GeneratorProxy.Ledger.{IsSound}
use baz_core.GeneratorProxy.Books.{Keeps, income-Keeps, IsSound-after}
use baz_core.GeneratorProxy.Kept.{
  stake-IsSound-standard, relock-IsSound-standard, request-IsSound-standard,
  withdraw-IsSound-standard, claim-IsSound-standard,
}

-- A change that leaves the amounts alone.
same-IsSound : (s t : Store) → IsSound s → Keeps s.state t.state → t.stakers ≡ s.stakers → IsSound t
same-IsSound s t v k e =
    let v1 = v.shares in
    let v2 = v.requests in
    let v3 = v.covered in
    let k1 = k.total in
    let k2 = k.unstaking in
    let k3 = k.unstaked in
    let k4 = k.period in
    record {
      keys = rw e v.keys;
      shares = rw e (omega arith);
      requests = rw e (omega arith);
      covered = rw (e, k4, k3) v3;
    }

-- A change of neither the state nor the stakers.
quiet-IsSound :
    (s t : Store) → IsSound s → (t.state ≡ s.state) × (t.stakers ≡ s.stakers) → IsSound t
quiet-IsSound s t v (e, f) =
    same-IsSound s t v
      (record {
        total = ap (λ x. x.total_bond_share) e;
        unstaking = ap (λ x. x.total_unstaking_amount) e;
        unstaked = ap (λ x. x.total_unstaked_amount) e;
        period = ap (λ x. x.unstaking_period) e;
      })
      f

module _ (d : Deps) (s s' : Store) (ms : List Message) (v : IsSound s) where
  claimed-IsSound :
      (env : Env) (prev_balance : ℕ)
      → callback_after_staking_claimed standard d env prev_balance s ≡ ok (s', ms)
      → IsSound s'
  unfolding callback_after_staking_claimed
  claimed-IsSound env prev_balance h =
      let (a, _, h1) = try-eq-ok std (load (lookup s.config.astro_token s.reward_infos)) _ h in
      let (p, _, h2) =
        try-eq-ok std (query_last_claim_period d s.config.astro_gov env.contract) _ h1 in
      let (b, _, h3) =
        try-eq-ok std (d.query_token_balance s.config.astro_token env.contract) _ h2 in
      let (n, _, h4) = try-eq-ok (λ _. overflow) (checked b prev_balance) _ h3 in
      let (i, _, h5) = try-eq-ok std (standard.add a.staker_income n) _ h4 in
      let (r, _, h6) = try-eq-ok std (standard.add a.reconciled_amount n) _ h5 in
      let reward = record a { staker_income = i; reconciled_amount = r } in
      let st = record s.state { next_claim_period = p } in
      let (y, e, h7) = try-eq-ok std (reconcile_staker_income standard reward st) _ h6 in
      let k = income-Keeps reward st e in
      IsSound-after
        (same-IsSound s
          (record s { state = y.1; reward_infos = insert s.config.astro_token y.0 s.reward_infos })
          v
          (record {
            total = k.total;
            unstaking = k.unstaking;
            unstaked = k.unstaked;
            period = k.period;
          })
          refl)
        h7

  ownership_quiet :
      (env : Env) (info : MessageInfo)
      → execute standard d env info claim_ownership_msg s ≡ ok (s', ms)
      → (s'.state ≡ s.state) × (s'.stakers ≡ s.stakers)
  unfolding execute claim_ownership
  ownership_quiet env info h = elim (Option-cases s.proposal) [
    | inl e ↦ ground arith
    | inr (p, e) ↦ ground arith
  ]

  execute-IsSound-standard :
      (env : Env) (info : MessageInfo) (msg : ExecuteMsg)
      → execute standard d env info msg s ≡ ok (s', ms)
      → IsSound s'
  unfolding execute receive_stake handle_staking_claimed execute_update_config
      execute_update_parameters execute_controller_vote execute_send_income
  execute-IsSound-standard env info (receive_stake_msg sender amount) h =
      let (k, _, h1) = try-eq-ok std (d.addr_validate sender) _ h in
      stake-IsSound-standard d s s' ms v env info k amount h1
  execute-IsSound-standard env info (after_staking_claimed_msg prev_balance) h =
      let (_, h1) = fail_if-eq-ok (not (info.sender == env.contract)) _ _ h in
      claimed-IsSound env prev_balance h1
  execute-IsSound-standard env info (update_config_msg _ _) h = quiet-IsSound s s' v (ground arith)
  execute-IsSound-standard env info (update_parameters_msg _ _) h =
      quiet-IsSound s s' v (ground arith)
  execute-IsSound-standard env info (controller_vote_msg _) h = quiet-IsSound s s' v (ground arith)
  execute-IsSound-standard env info send_income_msg h = quiet-IsSound s s' v (ground arith)
  execute-IsSound-standard env info (propose_new_owner_msg _ _) h =
      quiet-IsSound s s' v (ground arith)
  execute-IsSound-standard env info drop_ownership_proposal_msg h =
      quiet-IsSound s s' v (ground arith)
  execute-IsSound-standard env info claim_ownership_msg h =
      quiet-IsSound s s' v (ownership_quiet env info h)
  execute-IsSound-standard env info relock_msg h = relock-IsSound-standard d s s' ms v env info h
  execute-IsSound-standard env info (request_unstake_msg amount) h =
      request-IsSound-standard d s s' ms v env info amount h
  execute-IsSound-standard env info (withdraw_unstaked_msg amount) h =
      withdraw-IsSound-standard d s s' ms v info amount h
  execute-IsSound-standard env info claim_income_msg h = claim-IsSound-standard d s s' ms v info h

-- What one message keeps.
execute-IsSound :
    (c : Cosmwasm)
    → IsDocumented c
    → (d : Deps) (s s' : Store) (ms : List Message) → IsSound s
    → (env : Env) (info : MessageInfo) (msg : ExecuteMsg) → execute c d env info msg s ≡ ok (s', ms)
    → IsSound s'
execute-IsSound = at_standard _ execute-IsSound-standard

-- The stores that messages lead to. Between them the messages to the pools change the rewards, in
-- whatever way; at each message the other contracts answer anew.
pub data Reach (c : Cosmwasm) (s : Store) : Store → Type 0 where
  start : Reach c s s
  message :
      {t u : Store} (d : Deps) (env : Env) (info : MessageInfo) (msg : ExecuteMsg)
      (ms : List Message)
      → Reach c s t
      → execute c d env info msg t ≡ ok (u, ms)
      → Reach c s u
  pools :
      {t : Store} (rewards : Map RewardInfo)
      → Reach c s t
      → Reach c s (record t { reward_infos = rewards })

Reach-IsSound :
    (c : Cosmwasm) → IsDocumented c → {s t : Store} → IsSound s → Reach c s t → IsSound t
Reach-IsSound c e v start = v
Reach-IsSound c e v (message {t = t} {u = u} d env info msg ms r h) =
    execute-IsSound c e d t u ms (Reach-IsSound c e v r) env info msg h
Reach-IsSound c e v (pools {t = t} rewards r) =
    quiet-IsSound t (record t { reward_infos = rewards }) (Reach-IsSound c e v r) (refl, refl)

new-IsSound :
    (d : Deps) (env : Env) (msg : InstantiateMsg) (s : Store)
    → instantiate d env msg ≡ ok s
    → IsSound s
unfolding instantiate
new-IsSound d env msg s h = ground arith

-- From its instantiation on, whatever messages come, however the messages to the pools change the
-- rewards and whatever the other contracts answer: the total of the shares is the sum of the
-- stakers' shares, what is unstaking and unstaked in all is the sum of what the stakers have asked
-- back, what they may withdraw in the period is covered by the unstaked total, and no staker has two
-- entries.
pub reachable_stakes :
    (c : Cosmwasm)
    → IsDocumented c
    → (d : Deps) (env : Env) (msg : InstantiateMsg) (s t : Store) → instantiate d env msg ≡ ok s
    → Reach c s t
    → IsSound t
reachable_stakes c e d env msg s t h r = Reach-IsSound c e (new-IsSound d env msg s h) r
