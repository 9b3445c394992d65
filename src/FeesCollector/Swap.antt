-- ===== src/FeesCollector/Swap.antt =====
-- contracts/fees_collector/src/contract.rs: the swaps to the stablecoin and the distribution.
use baz_core.Common.{
  ℕ, ◌+◌, Option, none, some, List, [], ◌∷◌, ◌++◌, Bool, true, false, leb, ltb, not, ◌==◌, ◌&&◌,
  ◌||◌, if◌then◌else◌, Result, ok, err, ◌>>=◌, ◌>>◌, fail_if,
}
use baz_core.Common.Words.{u64_mod, fit}
use baz_core.Common.Map.{Map, lookup, insert}
use baz_core.Cosmwasm.{Cosmwasm, StdResult, generic_err, StdError}
use baz_core.Host.{Addr, Env, MessageInfo}
use baz_core.Assets.{AssetInfo, to_string, asset_info_eq, transfer_msg}
use baz_core.FeesCollector.Defs.{
  Config, Store, ContractError, Deps, Message, Outcome, AssetWithLimit, asset_msg, try, attempt,
  unauthorized, max_bridge_depth, cannot_swap, duplicated_asset, assertion_minimum_receive,
  swap_bridge_assets_self, distribute_fees_self, bridges_initial_depth, bridges_execution_max_depth,
  uluna, std,
}
use baz_core.FeesCollector.Bridge.{try_build_swap_msg}

pub data SwapTarget : Type 0 where
  stable : Message → SwapTarget
  bridge : (asset : AssetInfo) (msg : Message) → SwapTarget

-- "Empty swap messages"
abbrev pub empty_swap_messages : StdError
empty_swap_messages = generic_err 40

abbrev pub is_empty {ℓ} : {A : Type ℓ} → List A → Bool
is_empty [] = true
is_empty (_ ∷ _) = false

abbrev pub values : Map AssetInfo → List AssetInfo
values [] = []
values ((_, asset) ∷ rest) = asset ∷ values rest

-- `balance` under the limit
unfoldable pub limited : Option ℕ → ℕ → ℕ
limited none balance = balance
limited (some limit) balance = if ltb limit balance then limit else balance

-- `uniq.insert(..)` over all assets
contains : ℕ → List AssetWithLimit → Bool
contains text [] = false
contains text (a ∷ rest) = text == to_string a.info || contains text rest

unfoldable pub are_unique : List AssetWithLimit → Bool
unfolding contains
are_unique [] = true
are_unique (a ∷ rest) = not (contains (to_string a.info) rest) && are_unique rest

unfoldable pub not_stablecoin : AssetInfo → List AssetWithLimit → List AssetWithLimit
not_stablecoin stablecoin [] = []
not_stablecoin stablecoin (a ∷ rest) =
    if asset_info_eq a.info stablecoin
    then not_stablecoin stablecoin rest
    else a ∷ not_stablecoin stablecoin rest

unfoldable pub without_limit : List AssetInfo → List AssetWithLimit
without_limit [] = []
without_limit (a ∷ rest) = record { info = a; limit = none } ∷ without_limit rest

module _ (d : Deps) where
  -- after the bridges and the direct pair: the pair with LUNA
  unfoldable pub swap_to_uluna : Config → AssetInfo → ℕ → Result ContractError SwapTarget
  swap_to_uluna config from_token amount_in =
      if asset_info_eq from_token uluna then err (cannot_swap from_token) else (do
        msg ← attempt (try_build_swap_msg d config from_token uluna amount_in)
        elim msg [ some m ↦ ok (bridge uluna m) | none ↦ err (cannot_swap from_token) ])

  unfoldable pub swap_directly : Config → AssetInfo → ℕ → Result ContractError SwapTarget
  swap_directly config from_token amount_in = do
    msg ← attempt (try_build_swap_msg d config from_token config.stablecoin amount_in)
    elim msg [ some m ↦ ok (stable m) | none ↦ swap_to_uluna config from_token amount_in ]

  unfoldable pub swap_over :
      Option AssetInfo → Config → AssetInfo → ℕ → Result ContractError SwapTarget
  swap_over (some asset) config from_token amount_in = do
    msg ← try (try_build_swap_msg d config from_token asset amount_in)
    ok (bridge asset msg)
  swap_over none config from_token amount_in = swap_directly config from_token amount_in

  unfoldable pub swap : Store → AssetInfo → ℕ → Result ContractError SwapTarget
  swap s from_token amount_in =
      swap_over (lookup (to_string from_token) s.bridges) s.config from_token amount_in

  -- What one swap pushes to `messages` and inserts in `bridge_assets`.
  abbrev pub msg_of : SwapTarget → Message
  msg_of (stable msg) = msg
  msg_of (bridge asset msg) = msg

  abbrev pub insert_target : SwapTarget → Map AssetInfo → Map AssetInfo
  insert_target (stable msg) m = m
  insert_target (bridge asset msg) m = insert (to_string asset) asset m

  -- The loop, with the messages in order and the map so far.
  unfoldable pub swap_loop :
      Addr
      → Store
      → List AssetWithLimit
      → Map AssetInfo
      → Result ContractError (List Message × Map AssetInfo)
  swap_loop contract_addr s [] bridge_assets = ok ([], bridge_assets)
  swap_loop contract_addr s (a ∷ rest) bridge_assets =
      let go = λ (m : Map AssetInfo). swap_loop contract_addr s rest m in
      do
        pool ← try (d.query_pool a.info contract_addr)
        let balance = limited a.limit pool
        if balance == 0 then go bridge_assets else (do
          target ← swap s a.info balance
          (messages, bridge_assets') ← go (insert_target target bridge_assets)
          ok (msg_of target ∷ messages, bridge_assets'))

  unfoldable pub swap_assets :
      Addr → Store → List AssetWithLimit → Result ContractError (List Message × List AssetInfo)
  swap_assets contract_addr s assets = do
    (messages, bridge_assets) ← swap_loop contract_addr s assets []
    ok (messages, d.order (values bridge_assets))

  unfoldable pub collect : Env → MessageInfo → List AssetWithLimit → Option ℕ → Store → Outcome
  collect env info assets minimum_receive s = do
    fail_if (not (info.sender == s.config.operator)) unauthorized
    fail_if (not (are_unique assets)) duplicated_asset
    (messages, bridge_assets) ←
        swap_assets env.contract s (not_stablecoin s.config.stablecoin assets)
    ok (
      s,
      messages
          ++ ((if not (is_empty messages) && not (is_empty bridge_assets)
                then swap_bridge_assets_self bridge_assets bridges_initial_depth ∷ []
                else [])
              ++ (distribute_fees_self minimum_receive ∷ [])),
    )

  unfoldable pub swap_bridge_assets : Env → MessageInfo → List AssetInfo → ℕ → Store → Outcome
  swap_bridge_assets env info assets depth s = do
    fail_if (not (info.sender == env.contract)) unauthorized
    if is_empty assets then ok (s, []) else (do
      fail_if (leb bridges_execution_max_depth depth) (max_bridge_depth depth)
      (messages, bridge_assets) ← swap_assets env.contract s (without_limit assets)
      fail_if (is_empty messages) (std empty_swap_messages)
      next_depth ← fit u64_mod (depth + 1)
      ok (
        s,
        messages
            ++ (if is_empty bridge_assets
                then []
                else swap_bridge_assets_self bridge_assets next_depth ∷ []),
      ))

module _ (c : Cosmwasm) (d : Deps) where
  -- `.sum::<u64>()`
  unfoldable pub sum_weights : List (Addr × ℕ) → StdResult ℕ
  sum_weights [] = ok 0
  sum_weights ((to, weight) ∷ rest) = do others ← sum_weights rest; fit u64_mod (weight + others)

  unfoldable pub shares : AssetInfo → List (Addr × ℕ) → ℕ → ℕ → StdResult (List Message)
  shares stablecoin [] total_amount total_weight = ok []
  shares stablecoin ((to, weight) ∷ rest) total_amount total_weight = do
    amount ← c.multiply_ratio total_amount weight total_weight
    others ← shares stablecoin rest total_amount total_weight
    ok (
        if amount == 0
        then others
        else asset_msg (transfer_msg (record { info = stablecoin; amount = amount }) to) ∷ others)

  unfoldable pub check_minimum_receive : Option ℕ → ℕ → Result ContractError (Unit {0})
  check_minimum_receive none total_amount = ok tt
  check_minimum_receive (some minimum_receive) total_amount =
      fail_if (ltb total_amount minimum_receive)
        (assertion_minimum_receive minimum_receive total_amount)

  unfoldable pub distribute : Env → Config → Option ℕ → Result ContractError (List Message)
  distribute env config minimum_receive = do
    total_amount ← try (d.query_pool config.stablecoin env.contract)
    check_minimum_receive minimum_receive total_amount
    if total_amount == 0 then ok [] else (do
      total_weight ← try (sum_weights config.target_list)
      try (shares config.stablecoin config.target_list total_amount total_weight))

  unfoldable pub distribute_fees : Env → MessageInfo → Option ℕ → Store → Outcome
  distribute_fees env info minimum_receive s = do
    fail_if (not (info.sender == env.contract)) unauthorized
    messages ← distribute env s.config minimum_receive
    ok (s, messages)
