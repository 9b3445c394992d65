-- ===== src/AstroportFarm/Guards.antt =====
-- Who may send which message to the farm, and what a message may do to its terms.
use baz_core.Common.{
  ◌≤◌, ◌≡◌, some, List, ok, arith, unwrap_or, not, ◌==◌, Option-cases, inl, inr, try-eq-ok,
  fail_if-eq-ok,
}
use baz_core.Cosmwasm.{Cosmwasm, IsDocumented}
use baz_core.Cosmwasm.Standard.{standard, at_standard}
use baz_core.Host.{Env, MessageInfo}
use baz_core.AstroportFarm.Defs.{Store, std}
use baz_core.AstroportFarm.Bond.{Deps, Message, bond}
use baz_core.AstroportFarm.Compound.{compound}
use baz_core.AstroportFarm.Contract.{
  bond_hook, unreadable, ExecuteMsg, receive_cw20, handle_callback, update_config, execute, receive,
  update_config_msg, unbond_msg, compound_msg, bond_assets_msg, propose_new_owner_msg,
  drop_ownership_proposal_msg, claim_ownership_msg, callback_msg, transfer_msg, burn_msg, send_msg,
  increase_allowance_msg, decrease_allowance_msg, transfer_from_msg, send_from_msg, burn_from_msg,
  mint_msg, update_marketing_msg, upload_logo_msg,
}
use baz_core.Ownership.{
  OwnershipProposal, propose_new_owner, drop_ownership_proposal, claim_ownership,
}

-- The proposal that a claim needs.
pub record Claimable (env : Env) (info : MessageInfo) (s : Store) : Type 0 where
  pub proposal : OwnershipProposal
  pub stored : s.proposal ≡ some proposal
  pub by_proposed : info.sender ≡ proposal.owner
  pub in_time : env.time ≤ proposal.ttl

-- What a message needs of its sender.
abbrev pub Allowed : Env → MessageInfo → Store → ExecuteMsg → Type 0
Allowed env info s (receive _ _ (bond_hook _)) = info.sender ≡ s.config.liquidity_token
Allowed env info s (receive _ _ unreadable) = ⊥
Allowed env info s (update_config_msg _ _ _ _) = info.sender ≡ s.config.owner
Allowed env info s (compound_msg _ _) = info.sender ≡ s.config.controller
Allowed env info s (propose_new_owner_msg _ _) = info.sender ≡ s.config.owner
Allowed env info s drop_ownership_proposal_msg = info.sender ≡ s.config.owner
Allowed env info s claim_ownership_msg = Claimable env info s
Allowed env info s (callback_msg _) = info.sender ≡ env.contract
Allowed env info s mint_msg = ⊥
Allowed env info s update_marketing_msg = ⊥
Allowed env info s upload_logo_msg = ⊥
Allowed env info s _ = Unit

module _ (d : Deps) (env : Env) (info : MessageInfo) (s s' : Store) (ms : List Message) where
  claimable : execute standard d env info claim_ownership_msg s ≡ ok (s', ms) → Claimable env info s
  unfolding execute claim_ownership
  claimable h = elim (Option-cases s.proposal) [
    | inl e ↦ ground arith
    | inr (p, e) ↦ record {
      proposal = p;
      stored = e;
      by_proposed = ground arith;
      in_time = ground arith;
    }
  ]

  Allowed-standard :
      (msg : ExecuteMsg) → execute standard d env info msg s ≡ ok (s', ms) → Allowed env info s msg
  unfolding execute receive_cw20 bond update_config compound propose_new_owner
      drop_ownership_proposal handle_callback
  Allowed-standard (receive sender amount (bond_hook a)) h =
      let (k, _, h1) = try-eq-ok std (d.addr_validate (unwrap_or a sender)) _ h in
      let (t, _) = fail_if-eq-ok (not (s.config.liquidity_token == info.sender)) _ _ h1 in
      ground arith
  Allowed-standard (receive sender amount unreadable) h = ground arith
  Allowed-standard (update_config_msg _ _ _ _) h =
      let (t, _) = fail_if-eq-ok (not (info.sender == s.config.owner)) _ _ h in ground arith
  Allowed-standard (compound_msg _ _) h =
      let (t, _) = fail_if-eq-ok (not (info.sender == s.config.controller)) _ _ h in ground arith
  Allowed-standard (propose_new_owner_msg _ _) h = ground arith
  Allowed-standard drop_ownership_proposal_msg h = ground arith
  Allowed-standard claim_ownership_msg h = claimable h
  Allowed-standard (callback_msg _) h =
      let (t, _) = fail_if-eq-ok (not (info.sender == env.contract)) _ _ h in ground arith
  Allowed-standard mint_msg h = ground arith
  Allowed-standard update_marketing_msg h = ground arith
  Allowed-standard upload_logo_msg h = ground arith
  Allowed-standard (unbond_msg _) h = tt
  Allowed-standard (bond_assets_msg _ _ _ _) h = tt
  Allowed-standard (transfer_msg _ _) h = tt
  Allowed-standard (burn_msg _) h = tt
  Allowed-standard (send_msg _ _ _) h = tt
  Allowed-standard (increase_allowance_msg _ _ _) h = tt
  Allowed-standard (decrease_allowance_msg _ _ _) h = tt
  Allowed-standard (transfer_from_msg _ _ _) h = tt
  Allowed-standard (send_from_msg _ _ _ _) h = tt
  Allowed-standard (burn_from_msg _ _) h = tt

-- A message that succeeds comes from the sender that it needs: a bond from the LP token, a change
-- of the configuration and a proposal from the owner, a compounding from the controller, a callback
-- from the farm itself, a claim from the proposed owner before the proposal expires; the messages
-- to mint and on the token's marketing never succeed.
pub allowed :
    (c : Cosmwasm)
    → IsDocumented c
    → (d : Deps) (env : Env) (info : MessageInfo) (s s' : Store) (ms : List Message)
      (msg : ExecuteMsg)
    → execute c d env info msg s ≡ ok (s', ms)
    → Allowed env info s msg
allowed = at_standard _ Allowed-standard
