-- ===== src/Ownership.antt =====
-- contracts/lp_staking/src/ownership.rs, and the same text in contracts/astroport_farm/src: the
-- change of the owner in two steps, a proposal and its claim before it expires.
pub mod Limited
use baz_core.Common.{ℕ, ◌+◌, Option, none, some, ltb, ◌==◌, not, ok, err, ◌>>=◌, ◌>>◌, fail_if}
use baz_core.Common.Words.{u64_mod, fit}
use baz_core.Cosmwasm.{StdError, StdResult, generic_err}
use baz_core.Host.{Addr, HumanAddr, Api, Env, MessageInfo}

pub record OwnershipProposal : Type 0 where
  pub owner : Addr
  pub ttl : ℕ

-- the texts of the generic errors
abbrev pub unauthorized : StdError
unauthorized = generic_err 10

abbrev pub new_owner_cannot_be_same : StdError
new_owner_cannot_be_same = generic_err 11

abbrev pub ownership_proposal_not_found : StdError
ownership_proposal_not_found = generic_err 12

abbrev pub ownership_proposal_expired : StdError
ownership_proposal_expired = generic_err 13

-- The result is the proposal that is stored afterwards.
unfoldable pub propose_new_owner :
    Api → MessageInfo → Env → HumanAddr → ℕ → Addr → StdResult (Option OwnershipProposal)
propose_new_owner addr_validate info env new_owner expires_in owner = do
  fail_if (not (info.sender == owner)) unauthorized
  new_owner ← addr_validate new_owner
  fail_if (new_owner == owner) new_owner_cannot_be_same
  ttl ← fit u64_mod (env.time + expires_in)
  ok (some (record { owner = new_owner; ttl = ttl }))

unfoldable pub drop_ownership_proposal : MessageInfo → Addr → StdResult (Option OwnershipProposal)
drop_ownership_proposal info owner = do fail_if (not (info.sender == owner)) unauthorized; ok none

-- `proposal.load(..).map_err(..)`
abbrev pub load_proposal : Option OwnershipProposal → StdResult OwnershipProposal
load_proposal none = err ownership_proposal_not_found
load_proposal (some p) = ok p

-- The callback gets the new owner and gives what the contract stores.
unfoldable pub claim_ownership :
    {S : Type 0}
    → MessageInfo
    → Env
    → Option OwnershipProposal
    → (Addr → StdResult S)
    → StdResult (Option OwnershipProposal × S)
claim_ownership info env proposal cb = do
  p ← load_proposal proposal
  fail_if (not (info.sender == p.owner)) unauthorized
  fail_if (ltb p.ttl env.time) ownership_proposal_expired
  s ← cb p.owner
  ok (none, s)
