-- ===== src/AstroportFarm/Token.antt =====
-- contracts/astroport_farm/src/cw20.rs: the shares as a cw20 token. Event attributes are left out,
-- and so are the two queries that page through the maps in the order of their keys.
use baz_core.Common.{
  ℕ, Option, none, some, List, [], ◌∷◌, ltb, ◌==◌, ◌&&◌, if◌then◌else◌, Result, ok, err, ◌>>=◌,
  ◌>>◌, fail_if, unwrap_or,
}
use baz_core.Common.Map.{lookup, insert}
use baz_core.Cosmwasm.{load, Cosmwasm, StdResult}
use baz_core.Host.{Addr, HumanAddr, Env, MessageInfo}
use baz_core.Assets.{Asset, PoolResponse, Expiration, native_token}
use baz_core.AstroportFarm.Defs.{
  RewardInfo, Store, AllowanceResponse, ContractError, invalid_zero_amount, expired, no_allowance,
  cannot_set_own_account, try, default_reward_info, ensure_deposit_costs, bond_reward,
  unbond_reward,
}
use baz_core.AstroportFarm.Bond.{Deps, Outcome, receive_msg}

-- The assets that `transfer_internal` builds from the sender's costs, with empty denominations.
unfoldable pub cost_assets : List ℕ → List Asset
cost_assets [] = []
cost_assets (it ∷ rest) = record { info = native_token 0; amount = it } ∷ cost_assets rest

-- A write of `ALLOWANCES`.
abbrev pub set_allowance :
    Addr
    → Addr
    → Option AllowanceResponse
    → (Addr → Addr → Option AllowanceResponse)
    → Addr
    → Addr
    → Option AllowanceResponse
set_allowance owner spender value allowances o p =
    if owner == o && spender == p then value else allowances o p

abbrev pub with_expires : Option Expiration → Expiration → Expiration
with_expires expires old = unwrap_or expires old

module _ (c : Cosmwasm) (d : Deps) where
  -- The two branches on the receiver's `transfer_share`: the sender and the receiver afterwards.
  unfoldable pub move_share :
      RewardInfo → RewardInfo → ℕ → Option PoolResponse → StdResult (RewardInfo × RewardInfo)
  move_share sender receiver share stored =
      if ltb receiver.transfer_share share
      then (do
        new_share ← c.minus share receiver.transfer_share
        bond_share ← c.add receiver.bond_share receiver.transfer_share
        let receiver = record receiver { bond_share = bond_share; transfer_share = 0 }
        total_share ← c.add sender.bond_share sender.transfer_share
        deposit_amount ← c.multiply_ratio sender.deposit_amount new_share total_share
        sender ← ensure_deposit_costs c sender stored
        let pool_info : PoolResponse = record {
          assets = cost_assets sender.deposit_costs;
          total_share = sender.deposit_amount;
        }
        receiver ← bond_reward c receiver new_share deposit_amount sender.deposit_time pool_info
        ok (sender, receiver))
      else (do
        bond_share ← c.add receiver.bond_share share
        transfer_share ← c.minus receiver.transfer_share share
        ok (sender, record receiver { bond_share = bond_share; transfer_share = transfer_share }))

  unfoldable pub transfer_internal : Addr → HumanAddr → ℕ → Store → Result ContractError Store
  transfer_internal sender_addr recipient share s = do
    fail_if (share == 0) invalid_zero_amount
    sender ← try (load (lookup sender_addr s.reward))
    bond_share ← try (c.checked_sub sender.bond_share share)
    transfer_share ← try (c.add sender.transfer_share share)
    let sender = record sender { bond_share = bond_share; transfer_share = transfer_share }
    let reward = insert sender_addr sender s.reward
    rcpt_addr ← try (d.addr_validate recipient)
    let receiver = unwrap_or (lookup rcpt_addr reward) default_reward_info
    (sender, receiver) ← try (move_share sender receiver share s.pool_info)
    ok (record s { reward = insert rcpt_addr receiver (insert sender_addr sender reward) })

  unfoldable pub execute_transfer : MessageInfo → HumanAddr → ℕ → Store → Outcome
  execute_transfer info recipient amount s = do
    s' ← transfer_internal info.sender recipient amount s
    ok (s', [])

  unfoldable pub burn_internal : Addr → ℕ → Store → Result ContractError Store
  burn_internal sender share s = do
    fail_if (share == 0) invalid_zero_amount
    reward_info ← try (load (lookup sender s.reward))
    total_bond_share ← try (c.checked_sub s.state.total_bond_share share)
    reward_info ← try (unbond_reward c reward_info share)
    ok (record s {
      state = record s.state { total_bond_share = total_bond_share };
      reward = insert sender reward_info s.reward;
    })

  unfoldable pub execute_burn : MessageInfo → ℕ → Store → Outcome
  execute_burn info amount s = do s' ← burn_internal info.sender amount s; ok (s', [])

  unfoldable pub execute_send : MessageInfo → HumanAddr → ℕ → ℕ → Store → Outcome
  execute_send info contract amount msg s = do
    s' ← transfer_internal info.sender contract amount s
    ok (s', receive_msg contract info.sender amount msg ∷ [])

  unfoldable pub execute_increase_allowance :
      MessageInfo → HumanAddr → ℕ → Option Expiration → Store → Outcome
  execute_increase_allowance info spender amount expires s = do
    spender_addr ← try (d.addr_validate spender)
    fail_if (spender_addr == info.sender) cannot_set_own_account
    let val : AllowanceResponse =
        unwrap_or (s.allowances info.sender spender_addr)
          (record { allowance = 0; expires = d.never })
    allowance ← try (c.add val.allowance amount)
    let val : AllowanceResponse = record {
      allowance = allowance;
      expires = with_expires expires val.expires;
    }
    ok (
      record s { allowances = set_allowance info.sender spender_addr (some val) s.allowances },
      [],
    )

  unfoldable pub execute_decrease_allowance :
      MessageInfo → HumanAddr → ℕ → Option Expiration → Store → Outcome
  execute_decrease_allowance info spender amount expires s = do
    spender_addr ← try (d.addr_validate spender)
    fail_if (spender_addr == info.sender) cannot_set_own_account
    allowance ← try (load (s.allowances info.sender spender_addr))
    value ←
        if ltb amount allowance.allowance
        then (do
          left ← try (c.checked_sub allowance.allowance amount)
          ok (some (record { allowance = left; expires = with_expires expires allowance.expires })))
        else ok none
    ok (record s { allowances = set_allowance info.sender spender_addr value s.allowances }, [])

  -- The closure that `deduct_allowance` hands to `ALLOWANCES.update`.
  unfoldable pub deduct_from :
      Option AllowanceResponse → Env → ℕ → Result ContractError AllowanceResponse
  deduct_from none block amount = err no_allowance
  deduct_from (some a) block amount = do
    fail_if (d.is_expired a.expires block) expired
    left ← try (c.checked_sub a.allowance amount)
    ok (record a { allowance = left })

  unfoldable pub deduct_allowance : Addr → Addr → Env → ℕ → Store → Result ContractError Store
  deduct_allowance owner spender block amount s = do
    a ← deduct_from (s.allowances owner spender) block amount
    ok (record s { allowances = set_allowance owner spender (some a) s.allowances })

  unfoldable pub execute_transfer_from :
      Env → MessageInfo → HumanAddr → HumanAddr → ℕ → Store → Outcome
  execute_transfer_from env info owner recipient amount s = do
    owner_addr ← try (d.addr_validate owner)
    s' ← deduct_allowance owner_addr info.sender env amount s
    s'' ← transfer_internal owner_addr recipient amount s'
    ok (s'', [])

  unfoldable pub execute_burn_from : Env → MessageInfo → HumanAddr → ℕ → Store → Outcome
  execute_burn_from env info owner amount s = do
    owner_addr ← try (d.addr_validate owner)
    s' ← deduct_allowance owner_addr info.sender env amount s
    s'' ← burn_internal owner_addr amount s'
    ok (s'', [])

  unfoldable pub execute_send_from :
      Env → MessageInfo → HumanAddr → HumanAddr → ℕ → ℕ → Store → Outcome
  execute_send_from env info owner contract amount msg s = do
    owner_addr ← try (d.addr_validate owner)
    s' ← deduct_allowance owner_addr info.sender env amount s
    s'' ← transfer_internal owner_addr contract amount s'
    ok (s'', receive_msg contract info.sender amount msg ∷ [])

  unfoldable pub query_balance : HumanAddr → Store → StdResult ℕ
  query_balance address s = do
    address ← d.addr_validate address
    ok (unwrap_or (lookup address s.reward) default_reward_info).bond_share

  unfoldable pub query_allowance : HumanAddr → HumanAddr → Store → StdResult AllowanceResponse
  query_allowance owner spender s = do
    owner_addr ← d.addr_validate owner
    spender_addr ← d.addr_validate spender
    ok (
        unwrap_or (s.allowances owner_addr spender_addr)
          (record { allowance = 0; expires = d.never }))
