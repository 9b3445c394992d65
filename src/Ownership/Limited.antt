-- ===== src/Ownership/Limited.antt =====
-- packages/astroport/src/common.rs: the proposal of an owner as fees_collector and generator_proxy
-- use it, where the address has to be in lowercase and the time to live is limited. The functions
-- that drop and claim a proposal have the text of contracts/lp_staking/src/ownership.rs.
use baz_core.Common.{ℕ, ◌+◌, Option, some, ltb, ◌==◌, not, ok, ◌>>=◌, ◌>>◌, fail_if}
use baz_core.Common.Words.{u64_mod, fit}
use baz_core.Cosmwasm.{StdError, StdResult, generic_err}
use baz_core.Host.{Addr, HumanAddr, Api, Env, MessageInfo}
use baz_core.Ownership.{OwnershipProposal, unauthorized, new_owner_cannot_be_same}

abbrev pub max_proposal_ttl : ℕ
max_proposal_ttl = 1_209_600

-- "Parameter expires_in cannot be higher than .."
abbrev pub expires_in_too_high : StdError
expires_in_too_high = generic_err 14

unfoldable pub propose_new_owner :
    Api → MessageInfo → Env → HumanAddr → ℕ → Addr → StdResult (Option OwnershipProposal)
propose_new_owner addr_validate_to_lower info env new_owner expires_in owner = do
  fail_if (not (info.sender == owner)) unauthorized
  new_owner ← addr_validate_to_lower new_owner
  fail_if (new_owner == owner) new_owner_cannot_be_same
  fail_if (ltb max_proposal_ttl expires_in) expires_in_too_high
  ttl ← fit u64_mod (env.time + expires_in)
  ok (some (record { owner = new_owner; ttl = ttl }))
