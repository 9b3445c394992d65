-- ===== src/LpStaking/Access.antt =====
-- Who may change the configuration, and how the owner is replaced.
use baz_core.Common.{
  ◌≤◌, ◌≡◌, ◌≢◌, ◌⊎◌, none, some, List, ok, arith, refl, sym, ap, ◌∙◌, inl, inr, Option-cases,
}
use baz_core.Cosmwasm.{Cosmwasm}
use baz_core.Host.{Addr, Api, Env, MessageInfo}
use baz_core.Ownership.{
  OwnershipProposal, propose_new_owner, drop_ownership_proposal, claim_ownership,
}
use baz_core.LpStaking.Defs.{Config, Store}
use baz_core.LpStaking.Contract.{
  Message, ExecuteMsg, execute, receive_cw20, bond, unbond, withdraw, update_config,
  replace_schedule, receive, unbond_msg, withdraw_msg, update_config_msg, propose_new_owner_msg,
  drop_ownership_proposal_msg, claim_ownership_msg, bond_hook, unreadable,
}

-- A claim that succeeds: the sender is the proposed owner, in time, and takes over.
pub record Claims (env : Env) (info : MessageInfo) (s s' : Store) : Type 0 where
  pub proposal : OwnershipProposal
  pub stored : s.proposal ≡ some proposal
  pub by_proposed : info.sender ≡ proposal.owner
  pub in_time : env.time ≤ proposal.ttl
  pub taken : s'.config ≡ record s.config { owner = info.sender }
  pub spent : s'.proposal ≡ none

-- The configuration and the proposal stay as they are.
abbrev Keeps : Store → Store → Type 0
Keeps s s' = (s'.config ≡ s.config) × (s'.proposal ≡ s.proposal)

module _ (c : Cosmwasm) (api : Api) (env : Env) (info : MessageInfo) (s s' : Store)
    (ms : List Message) where
  claims : execute c api env info claim_ownership_msg s ≡ ok (s', ms) → Claims env info s s'
  unfolding execute claim_ownership
  claims h = elim (Option-cases s.proposal) [
    | inl e ↦ ground arith
    | inr (p, e) ↦ record {
      proposal = p;
      stored = e;
      by_proposed = ground arith;
      in_time = ground arith;
      taken = ground arith;
      spent = ground arith;
    }
  ]

  keeps :
      (msg : ExecuteMsg)
      → info.sender ≢ s.config.owner
      → execute c api env info msg s ≡ ok (s', ms)
      → Keeps s s' ⊎ Claims env info s s'
  unfolding execute receive_cw20 bond unbond withdraw update_config propose_new_owner
      drop_ownership_proposal
  keeps (receive sender amount (bond_hook a)) ne h = inl (ground arith)
  keeps (receive sender amount unreadable) ne h = cc
  keeps (unbond_msg amount) ne h = inl (ground arith)
  keeps (withdraw_msg amount) ne h = inl (ground arith)
  keeps (update_config_msg slots) ne h = absurd (ground arith)
  keeps (propose_new_owner_msg owner expires_in) ne h = absurd (ground arith)
  keeps drop_ownership_proposal_msg ne h = absurd (ground arith)
  keeps claim_ownership_msg ne h = inr (claims h)

  owner_stays :
      (msg : ExecuteMsg)
      → execute c api env info msg s ≡ ok (s', ms)
      → (s'.config.owner ≡ s.config.owner) ⊎ Claims env info s s'
  unfolding execute receive_cw20 bond unbond withdraw update_config replace_schedule
  owner_stays (receive sender amount (bond_hook a)) h = inl (ground arith)
  owner_stays (receive sender amount unreadable) h = cc
  owner_stays (unbond_msg amount) h = inl (ground arith)
  owner_stays (withdraw_msg amount) h = inl (ground arith)
  owner_stays (update_config_msg none) h = inl (ground arith)
  owner_stays (update_config_msg (some slots)) h = inl (ground arith)
  owner_stays (propose_new_owner_msg owner expires_in) h = inl (ground arith)
  owner_stays drop_ownership_proposal_msg h = inl (ground arith)
  owner_stays claim_ownership_msg h = inr (claims h)

-- A message that succeeds either leaves the owner in place or is a claim: sent by the proposed
-- owner before the proposal expires, it makes the sender the owner, changes no other part of the
-- configuration, and uses the proposal up. From a sender who is not the owner it is such a claim
-- or leaves the configuration and the proposal as they were.
pub handover :
    (c : Cosmwasm) (api : Api) (env : Env) (info : MessageInfo) (msg : ExecuteMsg) (s s' : Store)
    (ms : List Message)
    → execute c api env info msg s ≡ ok (s', ms)
    → ((s'.config.owner ≡ s.config.owner) ⊎ Claims env info s s')
      × (info.sender ≢ s.config.owner
          → ((s'.config ≡ s.config) × (s'.proposal ≡ s.proposal)) ⊎ Claims env info s s')
handover c api env info msg s s' ms h =
    (owner_stays c api env info s s' ms msg h, λ ne. keeps c api env info s s' ms msg ne h)

-- Runs in which the address `o` sends no message.
pub data RunWithout (o : Addr) (c : Cosmwasm) (api : Api) (s : Store) : Store → Type 0 where
  here : RunWithout o c api s s
  next :
      {t u : Store} (env : Env) (info : MessageInfo) (msg : ExecuteMsg) (ms : List Message)
      → RunWithout o c api s t
      → info.sender ≢ o
      → execute c api env info msg t ≡ ok (u, ms)
      → RunWithout o c api s u

-- One message of another sender, with no proposal open.
quiet :
    (o : Addr) (c : Cosmwasm) (api : Api) (s t u : Store) (env : Env) (info : MessageInfo)
    (msg : ExecuteMsg) (ms : List Message)
    → o ≡ s.config.owner
    → info.sender ≢ o
    → execute c api env info msg t ≡ ok (u, ms)
    → (t.config ≡ s.config) × (t.proposal ≡ none)
    → (u.config ≡ s.config) × (u.proposal ≡ none)
quiet o c api s t u env info msg ms e ne h (same, free) =
    elim (keeps c api env info t u ms msg (λ p. ne (p ∙ ap (λ (x : Config). x.owner) same ∙ sym e))
      h) [ inl (f, g) ↦ (f ∙ same, g ∙ free) | inr claim ↦ absurd (ground (arith, claim.stored)) ]

run_quiet :
    (o : Addr) (c : Cosmwasm) (api : Api) (s : Store) {t : Store}
    → o ≡ s.config.owner
    → s.proposal ≡ none
    → RunWithout o c api s t
    → (t.config ≡ s.config) × (t.proposal ≡ none)
run_quiet o c api s e free here = (refl, free)
run_quiet o c api s e free (next {t = t} {u = u} env info msg ms r ne h) =
    quiet o c api s t u env info msg ms e ne h (run_quiet o c api s e free r)

-- With no proposal open, no run without the owner's messages, however long, changes the
-- configuration or opens a proposal.
pub outsiders_change_nothing :
    (c : Cosmwasm) (api : Api) (s t : Store)
    → s.proposal ≡ none
    → RunWithout s.config.owner c api s t
    → (t.config ≡ s.config) × (t.proposal ≡ none)
outsiders_change_nothing c api s t free r = run_quiet s.config.owner c api s refl free r
