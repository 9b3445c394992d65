-- ===== src/FeesCollector/Contract.antt =====
-- contracts/fees_collector/src/contract.rs: the entry points, with the messages of
-- packages/spectrum/src/fees_collector.rs.
use baz_core.Common.{
  ℕ, Option, none, some, List, [], ◌∷◌, ◌==◌, not, Result, ok, ◌>>=◌, ◌>>◌, fail_if,
}
use baz_core.Cosmwasm.{Cosmwasm, StdResult}
use baz_core.Host.{Addr, HumanAddr, Env, MessageInfo}
use baz_core.Assets.{AssetInfo}
use baz_core.Ownership.{drop_ownership_proposal, claim_ownership}
use baz_core.Ownership.Limited.{propose_new_owner}
use baz_core.FeesCollector.Defs.{
  Store, ContractError, Deps, Outcome, AssetWithLimit, try, unauthorized,
}
use baz_core.FeesCollector.Bridge.{update_bridges}
use baz_core.FeesCollector.Swap.{collect, swap_bridge_assets, distribute_fees}

pub record InstantiateMsg : Type 0 where
  pub owner : HumanAddr
  pub operator : HumanAddr
  pub factory_contract : HumanAddr
  pub stablecoin : AssetInfo
  pub target_list : List (HumanAddr × ℕ)

pub data ExecuteMsg : Type 0 where
  collect_msg : (assets : List AssetWithLimit) (minimum_receive : Option ℕ) → ExecuteMsg
  update_config_msg :
      (operator factory_contract : Option HumanAddr) (target_list : Option (List (HumanAddr × ℕ)))
      → ExecuteMsg
  update_bridges_msg :
      (add : Option (List (AssetInfo × AssetInfo))) (remove : Option (List AssetInfo)) → ExecuteMsg
  swap_bridge_assets_msg : (assets : List AssetInfo) (depth : ℕ) → ExecuteMsg
  distribute_fees_msg : (minimum_receive : Option ℕ) → ExecuteMsg
  propose_new_owner_msg : (owner : HumanAddr) (expires_in : ℕ) → ExecuteMsg
  drop_ownership_proposal_msg : ExecuteMsg
  claim_ownership_msg : ExecuteMsg

module _ (d : Deps) where
  -- `.map(..).collect()`
  unfoldable pub validate_targets : List (HumanAddr × ℕ) → StdResult (List (Addr × ℕ))
  validate_targets [] = ok []
  validate_targets ((text, weight) ∷ rest) = do
    to ← d.addr_validate text
    targets ← validate_targets rest
    ok ((to, weight) ∷ targets)

  unfoldable pub instantiate : InstantiateMsg → Result ContractError Store
  instantiate msg = do
    try (d.check msg.stablecoin)
    owner ← try (d.addr_validate msg.owner)
    operator ← try (d.addr_validate msg.operator)
    factory_contract ← try (d.addr_validate msg.factory_contract)
    target_list ← try (validate_targets msg.target_list)
    ok (record {
      config = record {
        owner = owner;
        operator = operator;
        factory_contract = factory_contract;
        target_list = target_list;
        stablecoin = msg.stablecoin;
      };
      bridges = [];
      proposal = none;
    })

  unfoldable pub updated_addr : Option HumanAddr → Addr → StdResult Addr
  updated_addr none old = ok old
  updated_addr (some text) old = d.addr_validate text

  unfoldable pub updated_targets :
      Option (List (HumanAddr × ℕ)) → List (Addr × ℕ) → StdResult (List (Addr × ℕ))
  updated_targets none old = ok old
  updated_targets (some target_list) old = validate_targets target_list

  unfoldable pub update_config :
      MessageInfo
      → Option HumanAddr
      → Option HumanAddr
      → Option (List (HumanAddr × ℕ))
      → Store
      → Outcome
  update_config info operator factory_contract target_list s = do
    fail_if (not (info.sender == s.config.owner)) unauthorized
    operator ← try (updated_addr operator s.config.operator)
    factory_contract ← try (updated_addr factory_contract s.config.factory_contract)
    target_list ← try (updated_targets target_list s.config.target_list)
    ok (
      record s {
        config = record s.config {
          operator = operator;
          factory_contract = factory_contract;
          target_list = target_list;
        };
      },
      [],
    )

unfoldable pub execute : Cosmwasm → Deps → Env → MessageInfo → ExecuteMsg → Store → Outcome
execute c d env info (collect_msg assets minimum_receive) s =
    collect d env info assets minimum_receive s
execute c d env info (update_bridges_msg add remove) s = update_bridges d info add remove s
execute c d env info (update_config_msg operator factory_contract target_list) s =
    update_config d info operator factory_contract target_list s
execute c d env info (swap_bridge_assets_msg assets depth) s =
    swap_bridge_assets d env info assets depth s
execute c d env info (distribute_fees_msg minimum_receive) s =
    distribute_fees c d env info minimum_receive s
execute c d env info (propose_new_owner_msg owner expires_in) s = do
  proposal ←
      try (propose_new_owner d.addr_validate_to_lower info env owner expires_in s.config.owner)
  ok (record s { proposal = proposal }, [])
execute c d env info drop_ownership_proposal_msg s = do
  proposal ← try (drop_ownership_proposal info s.config.owner)
  ok (record s { proposal = proposal }, [])
execute c d env info claim_ownership_msg s = do
  (proposal, config) ← try (
      claim_ownership info env s.proposal (λ new_owner. ok (record s.config { owner = new_owner })))
  ok (record s { proposal = proposal; config = config }, [])
