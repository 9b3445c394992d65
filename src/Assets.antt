-- ===== src/Assets.antt =====
-- The data that the contracts exchange with the crates `astroport` and `cw20`: assets, pools and
-- expirations; and packages/spectrum/src/adapters/asset.rs.
use baz_core.Common.{
  ℕ, ◌≡◌, Bool, true, ltb, arith, Option, List, [], ◌∷◌, ◌==◌, if◌then◌else◌, ok, err, ◌>>=◌,
}
use baz_core.Cosmwasm.{StdError, StdResult, generic_err}
use baz_core.Host.{Addr, Coin, MessageInfo}

pub data AssetInfo : Type 0 where
  token : (contract_addr : Addr) → AssetInfo
  native_token : (denom : ℕ) → AssetInfo

pub record Asset : Type 0 where
  pub info : AssetInfo
  pub amount : ℕ

pub record PoolResponse : Type 0 where
  pub assets : List Asset
  pub total_share : ℕ

-- `cw20::Expiration`, which the contracts pass on and hand to `is_expired`
abbrev pub Expiration : Type 0
Expiration = ℕ

-- The messages about assets: `Cw20ExecuteMsg` to a token, `BankMsg::Send`. An allowance goes to the
-- text of the asset, which for a native token is its denomination.
pub data AssetMsg : Type 0 where
  transfer : (token recipient : Addr) (amount : ℕ) → AssetMsg
  transfer_from : (token owner recipient : Addr) (amount : ℕ) → AssetMsg
  increase_allowance :
      (info : AssetInfo) (spender : Addr) (amount : ℕ) (expires : Option Expiration) → AssetMsg
  bank_send : (recipient : Addr) (coin : Coin) → AssetMsg

-- "TransferFrom does not apply to native tokens"
abbrev pub transfer_from_native : StdError
transfer_from_native = generic_err 20

unfoldable pub transfer_info : AssetInfo → ℕ → Addr → AssetMsg
transfer_info (token contract_addr) amount to = transfer contract_addr to amount
transfer_info (native_token denom) amount to =
    bank_send to (record { denom = denom; amount = amount })

-- The functions of the trait `AssetEx`.
abbrev pub transfer_msg : Asset → Addr → AssetMsg
transfer_msg asset to = transfer_info asset.info asset.amount to

unfoldable pub transfer_from_info : AssetInfo → ℕ → Addr → Addr → StdResult AssetMsg
transfer_from_info (token contract_addr) amount from to =
    ok (transfer_from contract_addr from to amount)
transfer_from_info (native_token denom) amount from to = err transfer_from_native

abbrev pub increase_allowance_msg : Asset → Addr → Option Expiration → AssetMsg
increase_allowance_msg asset spender expires =
    increase_allowance asset.info spender asset.amount expires

abbrev pub is_native_token : AssetInfo → Bool
is_native_token (token contract_addr) = Bool.false
is_native_token (native_token denom) = Bool.true

-- The body of `match &self.info` in `deposit_asset`.
unfoldable pub deposit_info :
    (Asset → MessageInfo → StdResult (Unit {0}))
    → AssetInfo
    → Asset
    → MessageInfo
    → Addr
    → StdResult (List AssetMsg)
deposit_info assert_sent (token contract_addr) asset info recipient = do
  message ← transfer_from_info asset.info asset.amount info.sender recipient
  ok (message ∷ [])
deposit_info assert_sent (native_token denom) asset info recipient = do
  _ ← assert_sent asset info
  ok []

-- The messages that `deposit_asset` pushes; `assert_sent` is `assert_sent_native_token_balance`.
unfoldable pub deposit_asset :
    (Asset → MessageInfo → StdResult (Unit {0}))
    → Asset
    → MessageInfo
    → Addr
    → StdResult (List AssetMsg)
deposit_asset assert_sent asset info recipient =
    if asset.amount == 0 then ok [] else deposit_info assert_sent asset.info asset info recipient

-- `AssetInfo::to_string`: one text for a token and a native coin, its address or denomination
abbrev pub to_string : AssetInfo → ℕ
to_string (token contract_addr) = contract_addr
to_string (native_token denom) = denom

-- `AssetInfo::equal`, and the derived `==`
unfoldable pub asset_info_eq : AssetInfo → AssetInfo → Bool
asset_info_eq (token a) (token b) = a == b
asset_info_eq (native_token a) (native_token b) = a == b
asset_info_eq (token a) (native_token b) = Bool.false
asset_info_eq (native_token a) (token b) = Bool.false

-- `funds.sort_by(|a, b| a.denom.cmp(&b.denom))`, a stable sort
unfoldable pub insert_coin : Coin → List Coin → List Coin
insert_coin coin [] = coin ∷ []
insert_coin coin (x ∷ xs) =
    if ltb x.denom coin.denom then x ∷ insert_coin coin xs else coin ∷ x ∷ xs

unfoldable pub sort_funds : List Coin → List Coin
unfolding insert_coin
sort_funds [] = []
sort_funds (coin ∷ funds) = insert_coin coin (sort_funds funds)

pub asset_info_eq-eq : (a b : AssetInfo) → asset_info_eq a b ≡ true → a ≡ b
unfolding asset_info_eq
asset_info_eq-eq (token a) (token b) h = ground arith
asset_info_eq-eq (native_token a) (native_token b) h = ground arith
asset_info_eq-eq (token a) (native_token b) h = cc
asset_info_eq-eq (native_token a) (token b) h = cc

pub asset_info_eq_same : (a : AssetInfo) → asset_info_eq a a ≡ true
unfolding asset_info_eq
asset_info_eq_same (token a) = ground arith
asset_info_eq_same (native_token a) = ground arith
