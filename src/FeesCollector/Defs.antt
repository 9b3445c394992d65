-- ===== src/FeesCollector/Defs.antt =====
-- contracts/fees_collector/src/state.rs and error.rs: what the collector stores and what it asks.
use baz_core.Common.{ℕ, Option, some, none, List, Result, ok, err, panic, map_err}
use baz_core.Common.Map.{Map}
use baz_core.Cosmwasm.{StdError, StdResult}
use baz_core.Host.{Addr, Api}
use baz_core.Assets.{AssetInfo, AssetMsg}
use baz_core.Pair.{PairMsg}
use baz_core.Ownership.{OwnershipProposal}

pub record Config : Type 0 where
  pub owner : Addr
  pub operator : Addr
  pub factory_contract : Addr
  pub target_list : List (Addr × ℕ)
  pub stablecoin : AssetInfo

-- `BRIDGES` is keyed by the texts of assets.
pub record Store : Type 0 where
  pub config : Config
  pub bridges : Map AssetInfo
  pub proposal : Option OwnershipProposal

pub data ContractError : Type 0 where
  std : StdError → ContractError
  unauthorized : ContractError
  invalid_bridge : (asset bridge : AssetInfo) → ContractError
  invalid_bridge_destination : AssetInfo → ContractError
  max_bridge_depth : ℕ → ContractError
  cannot_swap : AssetInfo → ContractError
  duplicated_asset : ContractError
  assertion_minimum_receive : (minimum_receive amount : ℕ) → ContractError

-- `?` on a `StdResult`
abbrev pub try : {A : Type 0} → StdResult A → Result ContractError A
try = map_err std

-- `if let Ok(value) = result`
abbrev pub attempt : {A : Type 0} → StdResult A → Result ContractError (Option A)
attempt (ok a) = ok (some a)
attempt (err _) = ok none
attempt panic = panic

-- What the collector asks of other contracts and of the crate `astroport`, and the order in which a
-- `HashMap` gives its values.
pub record Deps : Type 0 where
  pub addr_validate : Api
  -- `addr_validate_to_lower`
  pub addr_validate_to_lower : Api
  -- `AssetInfo::check`
  pub check : AssetInfo → StdResult (Unit {0})
  -- `AssetInfo::query_pool`, the balance of an account
  pub query_pool : AssetInfo → Addr → StdResult ℕ
  -- `query_pair_info` of the factory, by the two assets: the address of the pair
  pub query_pair_info : Addr → AssetInfo → AssetInfo → StdResult Addr
  pub order : List AssetInfo → List AssetInfo

pub record AssetWithLimit : Type 0 where
  pub info : AssetInfo
  pub limit : Option ℕ

pub data Message : Type 0 where
  pair_msg : PairMsg → Message
  asset_msg : AssetMsg → Message
  -- to the contract itself
  swap_bridge_assets_self : (assets : List AssetInfo) (depth : ℕ) → Message
  distribute_fees_self : (minimum_receive : Option ℕ) → Message

abbrev pub Outcome : Type 0
Outcome = Result ContractError (Store × List Message)

abbrev pub bridges_initial_depth : ℕ
bridges_initial_depth = 0

abbrev pub bridges_max_depth : ℕ
bridges_max_depth = 2

abbrev pub bridges_execution_max_depth : ℕ
bridges_execution_max_depth = 3

-- `native_asset_info(ULUNA_DENOM)`: the number of the text `uluna`
abbrev pub uluna : AssetInfo
uluna = AssetInfo.native_token 0

-- `Decimal::MAX` and `Decimal::percent(MAX_SPREAD)`
abbrev pub decimal_max : ℕ
decimal_max = 340_282_366_920_938_463_463_374_607_431_768_211_455

abbrev pub max_spread : ℕ
max_spread = 500_000_000_000_000_000
