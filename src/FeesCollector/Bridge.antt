-- ===== src/FeesCollector/Bridge.antt =====
-- contracts/fees_collector/src/utils.rs, and `update_bridges` of contract.rs.
use baz_core.Common.{
  ℕ, zero, suc, ◌+◌, Option, none, some, List, [], ◌∷◌, leb, ltb, not, ◌==◌, if◌then◌else◌, Result,
  ok, err, panic, ◌>>=◌, ◌>>◌, fail_if, unwrap_or,
}
use baz_core.Common.Map.{Map, lookup, insert, remove}
use baz_core.Cosmwasm.{StdResult}
use baz_core.Host.{Addr, MessageInfo}
use baz_core.Assets.{AssetInfo, token, native_token, to_string, asset_info_eq}
use baz_core.Pair.{swap_msg}
use baz_core.FeesCollector.Defs.{
  Config, Store, ContractError, Deps, Message, Outcome, pair_msg, try, attempt, unauthorized,
  invalid_bridge, invalid_bridge_destination, max_bridge_depth, bridges_initial_depth,
  bridges_max_depth, decimal_max, max_spread,
}

-- `range` in ascending order of the keys
unfoldable pub insert_key : ℕ × AssetInfo → Map AssetInfo → Map AssetInfo
insert_key e [] = e ∷ []
insert_key e (x ∷ xs) = if ltb x.0 e.0 then x ∷ insert_key e xs else e ∷ x ∷ xs

unfoldable pub range : Map AssetInfo → Map AssetInfo
unfolding insert_key
range [] = []
range (e ∷ m) = insert_key e (range m)

-- the asset that a key is read as
unfoldable pub asset_of : StdResult Addr → ℕ → Result ContractError AssetInfo
asset_of (ok contract_addr) asset_label = ok (token contract_addr)
asset_of (err _) asset_label = ok (native_token asset_label)
asset_of panic asset_label = panic

module _ (d : Deps) where
  unfoldable pub try_build_swap_msg : Config → AssetInfo → AssetInfo → ℕ → StdResult Message
  try_build_swap_msg config from to amount = do
    pool ← d.query_pair_info config.factory_contract from to
    ok (
        pair_msg (
          swap_msg pool (record { info = from; amount = amount }) (some decimal_max)
            (some max_spread) none))

  -- `load(..).map_err(..)`
  unfoldable pub next_bridge : Option AssetInfo → AssetInfo → Result ContractError AssetInfo
  next_bridge none from_token = err (invalid_bridge_destination from_token)
  next_bridge (some bridge) from_token = ok bridge

  module _ (factory_contract : Addr) (stablecoin_token : AssetInfo) (bridges : Map AssetInfo) where
    -- The number of rounds that are left is the first argument; out of rounds it panics.
    unfoldable pub validate_bridge : ℕ → AssetInfo → AssetInfo → ℕ → Result ContractError (Unit {0})
    validate_bridge zero from_token bridge_token depth = panic
    validate_bridge (suc rounds) from_token bridge_token depth =
        let next = λ (bridge : AssetInfo). validate_bridge rounds bridge_token bridge (depth + 1) in
        do
          _ ← try (d.query_pair_info factory_contract from_token bridge_token)
          stablecoin_pool ←
              attempt (d.query_pair_info factory_contract bridge_token stablecoin_token)
          elim stablecoin_pool [
            | some _ ↦ ok tt
            | none ↦ do
              fail_if (leb bridges_max_depth depth) (max_bridge_depth depth)
              next_bridge_token ← next_bridge (lookup (to_string bridge_token) bridges) from_token
              next next_bridge_token
          ]

    -- The loop over all bridges.
    unfoldable pub validate_bridges : Map AssetInfo → Result ContractError (Unit {0})
    validate_bridges [] = ok tt
    validate_bridges ((asset_label, bridge) ∷ rest) = do
      asset ← asset_of (d.addr_validate asset_label) asset_label
      validate_bridge 3 asset bridge bridges_initial_depth
      validate_bridges rest

-- The loops over `remove` and `add`.
unfoldable pub remove_bridges : List AssetInfo → Map AssetInfo → Map AssetInfo
remove_bridges [] bridges = bridges
remove_bridges (asset ∷ assets) bridges = remove_bridges assets (remove (to_string asset) bridges)

unfoldable pub add_bridges :
    List (AssetInfo × AssetInfo) → Map AssetInfo → Result ContractError (Map AssetInfo)
add_bridges [] bridges = ok bridges
add_bridges ((asset, bridge) ∷ rest) bridges = do
  fail_if (asset_info_eq asset bridge) (invalid_bridge asset bridge)
  add_bridges rest (insert (to_string asset) bridge bridges)

module _ (d : Deps) where
  unfoldable pub update_bridges :
      MessageInfo
      → Option (List (AssetInfo × AssetInfo))
      → Option (List AssetInfo)
      → Store
      → Outcome
  update_bridges info add remove s = do
    fail_if (not (info.sender == s.config.operator)) unauthorized
    bridges ← add_bridges (unwrap_or add []) (remove_bridges (unwrap_or remove []) s.bridges)
    validate_bridges d s.config.factory_contract s.config.stablecoin bridges (range bridges)
    ok (record s { bridges = bridges }, [])
