-- ===== src/FeesCollector/Access.antt =====
-- contracts/fees_collector: who may send which message, and what it changes.
use baz_core.Common.{◌+◌, ◌≤◌, ◌≡◌, ◌≢◌, none, some}
use baz_core.Cosmwasm.{Cosmwasm}
use baz_core.Host.{Env, MessageInfo}
use baz_core.Ownership.{OwnershipProposal}
use baz_core.Ownership.Limited.{max_proposal_ttl}
use baz_core.FeesCollector.Defs.{Store}
use baz_core.FeesCollector.Contract.{
  ExecuteMsg, collect_msg, update_config_msg, update_bridges_msg, swap_bridge_assets_msg,
  distribute_fees_msg, propose_new_owner_msg, drop_ownership_proposal_msg, claim_ownership_msg,
}

pub record Claims (env : Env) (info : MessageInfo) (s : Store) : Type 0 where
  proposal : OwnershipProposal
  stored : s.proposal ≡ some proposal
  sender : info.sender ≡ proposal.owner
  in_time : env.time ≤ proposal.ttl

-- There is a proposal, which ends within the longest time to live.
pub record Proposed (env : Env) (s' : Store) : Type 0 where
  proposal : OwnershipProposal
  stored : s'.proposal ≡ some proposal
  new : proposal.owner ≢ s'.config.owner
  limited : proposal.ttl ≤ env.time + max_proposal_ttl

-- Who may send the message.
abbrev pub MaySend : Env → MessageInfo → Store → ExecuteMsg → Type 0
MaySend env info s (collect_msg _ _) = info.sender ≡ s.config.operator
MaySend env info s (update_bridges_msg _ _) = info.sender ≡ s.config.operator
MaySend env info s (update_config_msg _ _ _) = info.sender ≡ s.config.owner
MaySend env info s (swap_bridge_assets_msg _ _) = info.sender ≡ env.contract
MaySend env info s (distribute_fees_msg _) = info.sender ≡ env.contract
MaySend env info s (propose_new_owner_msg _ _) = info.sender ≡ s.config.owner
MaySend env info s drop_ownership_proposal_msg = info.sender ≡ s.config.owner
MaySend env info s claim_ownership_msg = Claims env info s

-- What the message leaves as it was, and the proposal that it stores or removes.
abbrev pub Leaves : Env → ExecuteMsg → Store → Store → Type 0
Leaves env (update_bridges_msg _ _) s s' = (s'.config ≡ s.config) × (s'.proposal ≡ s.proposal)
Leaves env (update_config_msg _ _ _) s s' =
    (s'.bridges ≡ s.bridges)
    × (s'.proposal ≡ s.proposal)
    × (s'.config.owner ≡ s.config.owner)
    × (s'.config.stablecoin ≡ s.config.stablecoin)
Leaves env (propose_new_owner_msg _ _) s s' =
    (s'.config ≡ s.config) × (s'.bridges ≡ s.bridges) × Proposed env s'
Leaves env drop_ownership_proposal_msg s s' =
    (s'.config ≡ s.config) × (s'.bridges ≡ s.bridges) × (s'.proposal ≡ none)
Leaves env claim_ownership_msg s s' =
    (s'.bridges ≡ s.bridges)
    × (s'.proposal ≡ none)
    × (s'.config.operator ≡ s.config.operator)
    × (s'.config.stablecoin ≡ s.config.stablecoin)
    × (s'.config.target_list ≡ s.config.target_list)
Leaves env _ s s' = s' ≡ s
