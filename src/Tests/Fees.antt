-- ===== src/Tests/Fees.antt =====
-- The theorems on `fees_collector` at concrete inputs.
use baz_core.Common.{
  ℕ, ◌≤◌, ◌<◌, ◌≡◌, ◌≢◌, ◌↔◌, ◌+◌, refl, leb, ◌&&◌, if◌then◌else◌, some, none, List, [], ◌∷◌, ok,
  err, panic, arith,
}
use baz_core.Common.Map.{lookup}
use baz_core.Cosmwasm.{not_found}
use baz_core.Cosmwasm.Standard.{standard, standard-IsDocumented}
use baz_core.Host.{Addr, Env, MessageInfo}
use baz_core.Assets.{AssetInfo, to_string, token, native_token, asset_info_eq}
use baz_core.Pair.{swap_msg}
use baz_core.FeesCollector.Defs.{
  Config, Store, Deps, Message, pair_msg, swap_bridge_assets_self, decimal_max, max_spread,
}
use baz_core.FeesCollector.Bridge.{
  try_build_swap_msg, asset_of, validate_bridge, validate_bridges, range, insert_key, add_bridges,
  remove_bridges, update_bridges,
}
use baz_core.FeesCollector.Swap.{
  limited, without_limit, swap, swap_over, swap_loop, swap_assets, swap_bridge_assets, distribute,
}
use baz_core.FeesCollector.Routes.{Route, validate_bridge_lem, validate_bridge-ends}
use baz_core.FeesCollector.Update.{Leads, update_bridges_lem}
use baz_core.FeesCollector.Payout.{ArePayments, sent, distribute_pays}
use baz_core.FeesCollector.Depth.{All, Descends, swap_bridge_assets-Descends}
use baz_core.FeesCollector.Cycle.{AreTraded, GoesTo, cycle, cycle_passes}

-- Every two assets up to the sixtieth have a pair.
abbrev deps : Deps
deps = record {
  addr_validate = λ a. if leb 10 a then ok a else err not_found;
  addr_validate_to_lower = λ a. if leb 10 a then ok a else err not_found;
  check = λ _. ok tt;
  query_pool = λ _ _. ok 1000;
  query_pair_info =
      λ _ a b. if leb (to_string a) 60 && leb (to_string b) 60 then ok 77 else err not_found;
  order = λ assets. assets;
}

abbrev config : Config
config = record {
  owner = 11;
  operator = 12;
  factory_contract = 13;
  target_list = (21, 2) ∷ (22, 1) ∷ [];
  stablecoin = native_token 1;
}

abbrev store : Store
store = record { config = config; bridges = []; proposal = none }

abbrev bridged : Store
bridged = record store { bridges = (50, token 60) ∷ [] }

abbrev block : Env
block = record { time = 100; height = 5; contract = 9 }

abbrev from : Addr → MessageInfo
from sender = record { sender = sender; funds = [] }

validate_bridge_example :
    (validate_bridge deps 13 (native_token 1) [] 3 (token 50) (token 60) 0 ≡ ok tt)
    ↔ Route deps 13 (native_token 1) [] 2 (token 50) (token 60)
validate_bridge_example = validate_bridge_lem deps 13 (native_token 1) [] (token 50) (token 60)

abbrev no_messages : List Message
no_messages = []

answers : (x y : AssetInfo) → deps.query_pair_info 13 x y ≢ panic
answers x y h = ground arith

validate_bridge-ends_example :
    validate_bridge deps 13
      (native_token 1)
      ((90, token 91) ∷ (91, token 90) ∷ [])
      3
      (token 90)
      (token 91)
      0
    ≢ panic
validate_bridge-ends_example =
    validate_bridge-ends deps 13 (native_token 1) ((90, token 91) ∷ (91, token 90) ∷ []) (token 90)
      (token 91) answers

run-update :
    update_bridges deps (from 12) (some ((token 50, token 60) ∷ [])) none store ≡ ok (bridged, [])
unfolding update_bridges add_bridges remove_bridges range insert_key validate_bridges asset_of
    validate_bridge asset_info_eq
run-update = refl

update_bridges_example :
    ((from 12).sender ≡ config.operator)
    × (bridged.config ≡ store.config)
    × (bridged.proposal ≡ store.proposal)
    × (no_messages ≡ [])
    × ((k : ℕ) (v : AssetInfo)
        → lookup k bridged.bridges ≡ some v
        → Leads deps 13 (native_token 1) bridged.bridges k v)
update_bridges_example =
    update_bridges_lem deps (from 12) (some ((token 50, token 60) ∷ [])) none store bridged
      no_messages run-update

distribute_pays_example :
    (messages : List Message) × (distribute standard deps block config (some 900) ≡ ok messages)
    × ArePayments (native_token 1) messages
    × (sent messages ≤ 1000)
    × (1000 < sent messages + 2)
distribute_pays_example =
    distribute_pays standard standard-IsDocumented deps block config (some 900) 1000 refl
      (omega arith) (omega arith) (omega arith) (omega arith)

abbrev swapped : List Message
swapped =
    pair_msg (
      swap_msg 77 (record { info = token 50; amount = 1000 }) (some decimal_max) (some max_spread)
        none)
    ∷ swap_bridge_assets_self (token 60 ∷ []) 2
    ∷ []

run-swap : swap_bridge_assets deps block (from 9) (token 50 ∷ []) 1 bridged ≡ ok (bridged, swapped)
unfolding swap_bridge_assets swap_assets swap_loop without_limit limited swap swap_over
    try_build_swap_msg
run-swap = refl

swap_bridge_assets_example :
    ((from 9).sender ≡ block.contract) × (bridged ≡ bridged) × All (Descends 1) swapped
swap_bridge_assets_example =
    swap_bridge_assets-Descends deps block (from 9) (token 50 ∷ []) 1 bridged bridged swapped
      run-swap

traded : AreTraded deps store (token 50) (token 60)
unfolding asset_of
traded = record {
  differ = ground arith;
  forth = (77, refl);
  back = (77, refl);
  first_out = (77, refl);
  second_out = (77, refl);
  first_read = refl;
  second_read = refl;
}

cycle_passes_example :
    (update_bridges deps
        (from 12)
        (some ((token 50, token 60) ∷ (token 60, token 50) ∷ []))
        none
        store
      ≡ ok (cycle (token 50) (token 60) store, []))
    × GoesTo deps (cycle (token 50) (token 60) store) (token 50) (token 60) 5
    × GoesTo deps (cycle (token 50) (token 60) store) (token 60) (token 50) 5
cycle_passes_example = cycle_passes deps store (token 50) (token 60) (from 12) 5 refl refl traded
