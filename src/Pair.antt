-- ===== src/Pair.antt =====
-- packages/spectrum/src/adapters/pair.rs: the messages to a pair contract. Its queries are
-- parameters of the contracts that send them.
use baz_core.Common.{ℕ, Option, List, [], ◌∷◌}
use baz_core.Host.{Addr, HumanAddr, Coin}
use baz_core.Assets.{AssetInfo, Asset, token, native_token, sort_funds}

pub data PairMsg : Type 0 where
  -- `Cw20ExecuteMsg::Send` to the token, with the hook `Swap` for the pair
  send_swap :
      (token pair : Addr) (amount : ℕ) (belief_price max_spread : Option ℕ) (to : Option HumanAddr)
      → PairMsg
  -- `ExecuteMsg::Swap` to the pair
  swap :
      (pair : Addr) (offer_asset : Asset) (belief_price max_spread : Option ℕ) (funds : List Coin)
      → PairMsg
  provide_liquidity :
      (pair : Addr) (assets : List Asset) (slippage_tolerance : Option ℕ)
      (receiver : Option HumanAddr) (funds : List Coin)
      → PairMsg

swap_info : AssetInfo → Addr → Asset → Option ℕ → Option ℕ → Option HumanAddr → PairMsg
swap_info (token contract_addr) pair asset belief_price max_spread to =
    send_swap contract_addr pair asset.amount belief_price max_spread to
swap_info (native_token denom) pair asset belief_price max_spread to =
    swap pair asset belief_price max_spread (record { denom = denom; amount = asset.amount } ∷ [])

unfoldable pub swap_msg : Addr → Asset → Option ℕ → Option ℕ → Option HumanAddr → PairMsg
unfolding swap_info
swap_msg pair asset belief_price max_spread to =
    swap_info asset.info pair asset belief_price max_spread to

unfoldable pub provide_liquidity_msg :
    Addr → List Asset → Option ℕ → Option HumanAddr → List Coin → PairMsg
provide_liquidity_msg pair assets slippage_tolerance receiver funds =
    provide_liquidity pair assets slippage_tolerance receiver (sort_funds funds)
