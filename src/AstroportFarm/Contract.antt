-- ===== src/AstroportFarm/Contract.antt =====
-- contracts/astroport_farm/src/contract.rs: the entry points, with the checks of
-- packages/spectrum/src/astroport_farm.rs on the texts of the token.
use baz_core.Common.{
  ℕ, Option, none, some, List, [], ◌∷◌, Bool, true, false, ◌&&◌, ◌||◌, ltb, ◌==◌, not,
  if◌then◌else◌, Result, ok, err, ◌>>=◌, ◌>>◌, fail_if, unwrap_or, length,
}
use baz_core.Cosmwasm.{Cosmwasm, StdError, StdResult, generic_err, decimal_one}
use baz_core.Host.{Addr, HumanAddr, Env, MessageInfo}
use baz_core.Assets.{Asset, Expiration}
use baz_core.Ownership.{propose_new_owner, drop_ownership_proposal, claim_ownership}
use baz_core.AstroportFarm.Defs.{Store, ContractError, unauthorized, invalid_message, try}
use baz_core.AstroportFarm.Bond.{
  Deps, CallbackMsg, stake_callback, bond_to_callback, Outcome, bond_assets, bond_to, bond, unbond,
}
use baz_core.AstroportFarm.Compound.{compound, stake}
use baz_core.AstroportFarm.Token.{
  execute_transfer, execute_burn, execute_send, execute_increase_allowance,
  execute_decrease_allowance, execute_transfer_from, execute_burn_from, execute_send_from,
}

-- the texts of the generic errors
abbrev pub must_be_0_to_1 : StdError
must_be_0_to_1 = generic_err 30

abbrev pub invalid_name : StdError
invalid_name = generic_err 31

abbrev pub invalid_symbol : StdError
invalid_symbol = generic_err 32

unfoldable pub validate_percentage : ℕ → StdResult (Unit {0})
validate_percentage value = fail_if (ltb decimal_one value) must_be_0_to_1

-- the bytes of a text
unfoldable pub is_valid_name : List ℕ → Bool
is_valid_name bytes = not (ltb (length bytes) 3 || ltb 50 (length bytes))

unfoldable pub is_symbol_byte : ℕ → Bool
is_symbol_byte byte =
    not (not (byte == 45) && (ltb byte 65 || ltb 90 byte) && (ltb byte 97 || ltb 122 byte))

unfoldable pub are_symbol_bytes : List ℕ → Bool
are_symbol_bytes [] = true
are_symbol_bytes (byte ∷ bytes) = is_symbol_byte byte && are_symbol_bytes bytes

unfoldable pub is_valid_symbol : List ℕ → Bool
is_valid_symbol bytes =
    if ltb (length bytes) 3 || ltb 12 (length bytes) then false else are_symbol_bytes bytes

pub record InstantiateMsg : Type 0 where
  pub owner : HumanAddr
  pub staking_contract : HumanAddr
  pub compound_proxy : HumanAddr
  pub controller : HumanAddr
  pub fee : ℕ
  pub fee_collector : HumanAddr
  pub liquidity_token : HumanAddr
  pub base_reward_token : HumanAddr
  pub pair : HumanAddr
  pub name : List ℕ
  pub symbol : List ℕ

unfoldable pub validate : InstantiateMsg → StdResult (Unit {0})
validate self = do
  fail_if (not (is_valid_name self.name)) invalid_name
  fail_if (not (is_valid_symbol self.symbol)) invalid_symbol
  ok tt

-- What `from_binary` reads in the message of a `Cw20ReceiveMsg`: `Cw20HookMsg`, or an error.
pub data Hook : Type 0 where
  bond_hook : Option HumanAddr → Hook
  unreadable : Hook

pub data ExecuteMsg : Type 0 where
  receive : (sender : HumanAddr) (amount : ℕ) (msg : Hook) → ExecuteMsg
  update_config_msg :
      (compound_proxy controller : Option HumanAddr) (fee : Option ℕ)
      (fee_collector : Option HumanAddr)
      → ExecuteMsg
  unbond_msg : (amount : ℕ) → ExecuteMsg
  compound_msg : (minimum_receive slippage_tolerance : Option ℕ) → ExecuteMsg
  bond_assets_msg :
      (assets : List Asset) (minimum_receive : Option ℕ) (no_swap : Option Bool)
      (slippage_tolerance : Option ℕ)
      → ExecuteMsg
  propose_new_owner_msg : (owner : HumanAddr) (expires_in : ℕ) → ExecuteMsg
  drop_ownership_proposal_msg : ExecuteMsg
  claim_ownership_msg : ExecuteMsg
  callback_msg : CallbackMsg → ExecuteMsg
  transfer_msg : (recipient : HumanAddr) (amount : ℕ) → ExecuteMsg
  burn_msg : (amount : ℕ) → ExecuteMsg
  send_msg : (contract : HumanAddr) (amount msg : ℕ) → ExecuteMsg
  increase_allowance_msg :
      (spender : HumanAddr) (amount : ℕ) (expires : Option Expiration) → ExecuteMsg
  decrease_allowance_msg :
      (spender : HumanAddr) (amount : ℕ) (expires : Option Expiration) → ExecuteMsg
  transfer_from_msg : (owner recipient : HumanAddr) (amount : ℕ) → ExecuteMsg
  send_from_msg : (owner contract : HumanAddr) (amount msg : ℕ) → ExecuteMsg
  burn_from_msg : (owner : HumanAddr) (amount : ℕ) → ExecuteMsg
  mint_msg update_marketing_msg upload_logo_msg : ExecuteMsg

module _ (d : Deps) where
  unfoldable pub instantiate : InstantiateMsg → Result ContractError Store
  instantiate msg = do
    try (validate msg)
    try (validate_percentage msg.fee)
    owner ← try (d.addr_validate msg.owner)
    staking_contract ← try (d.addr_validate msg.staking_contract)
    compound_proxy ← try (d.addr_validate msg.compound_proxy)
    controller ← try (d.addr_validate msg.controller)
    fee_collector ← try (d.addr_validate msg.fee_collector)
    liquidity_token ← try (d.addr_validate msg.liquidity_token)
    base_reward_token ← try (d.addr_validate msg.base_reward_token)
    pair ← try (d.addr_validate msg.pair)
    ok (record {
      config = record {
        owner = owner;
        staking_contract = staking_contract;
        compound_proxy = compound_proxy;
        controller = controller;
        fee = msg.fee;
        fee_collector = fee_collector;
        liquidity_token = liquidity_token;
        base_reward_token = base_reward_token;
        name = msg.name;
        symbol = msg.symbol;
        pair = pair;
      };
      state = record { total_bond_share = 0 };
      reward = [];
      allowances = λ _ _. none;
      pool_info = none;
      proposal = none;
    })

  -- `if let Some(text) { field = addr_validate(text)? }`
  unfoldable pub updated : Option HumanAddr → Addr → StdResult Addr
  updated none old = ok old
  updated (some text) old = d.addr_validate text

  unfoldable pub updated_fee : Option ℕ → ℕ → StdResult ℕ
  updated_fee none old = ok old
  updated_fee (some fee) old = do validate_percentage fee; ok fee

  unfoldable pub update_config :
      MessageInfo
      → Option HumanAddr
      → Option HumanAddr
      → Option ℕ
      → Option HumanAddr
      → Store
      → Outcome
  update_config info compound_proxy controller fee fee_collector s = do
    fail_if (not (info.sender == s.config.owner)) unauthorized
    compound_proxy ← try (updated compound_proxy s.config.compound_proxy)
    controller ← try (updated controller s.config.controller)
    fee ← try (updated_fee fee s.config.fee)
    fee_collector ← try (updated fee_collector s.config.fee_collector)
    ok (
      record s {
        config = record s.config {
          compound_proxy = compound_proxy;
          controller = controller;
          fee = fee;
          fee_collector = fee_collector;
        };
      },
      [],
    )

module _ (c : Cosmwasm) (d : Deps) where
  unfoldable pub receive_cw20 : Env → MessageInfo → HumanAddr → ℕ → Hook → Store → Outcome
  receive_cw20 env info sender amount (bond_hook staker_addr) s =
      bond c d env info (unwrap_or staker_addr sender) amount s
  receive_cw20 env info sender amount unreadable s = err invalid_message

  unfoldable pub run_callback : Env → CallbackMsg → Store → Outcome
  run_callback env (stake_callback prev_balance minimum_receive) s =
      stake c d env prev_balance minimum_receive s
  run_callback env (bond_to_callback to prev_balance minimum_receive) s =
      bond_to c d env to prev_balance minimum_receive s

  unfoldable pub handle_callback : Env → MessageInfo → CallbackMsg → Store → Outcome
  handle_callback env info msg s = do
    fail_if (not (info.sender == env.contract)) unauthorized
    run_callback env msg s

  unfoldable pub execute : Env → MessageInfo → ExecuteMsg → Store → Outcome
  execute env info (receive sender amount msg) s = receive_cw20 env info sender amount msg s
  execute env info (update_config_msg compound_proxy controller fee fee_collector) s =
      update_config d info compound_proxy controller fee fee_collector s
  execute env info (unbond_msg amount) s = unbond c d env info amount s
  execute env info (bond_assets_msg assets minimum_receive no_swap slippage_tolerance) s =
      bond_assets d env info assets minimum_receive no_swap slippage_tolerance s
  execute env info (compound_msg minimum_receive slippage_tolerance) s =
      compound c d env info minimum_receive slippage_tolerance s
  execute env info (propose_new_owner_msg owner expires_in) s = do
    proposal ← try (propose_new_owner d.addr_validate info env owner expires_in s.config.owner)
    ok (record s { proposal = proposal }, [])
  execute env info drop_ownership_proposal_msg s = do
    proposal ← try (drop_ownership_proposal info s.config.owner)
    ok (record s { proposal = proposal }, [])
  execute env info claim_ownership_msg s = do
    (proposal, config) ← try (
        claim_ownership info env s.proposal
          (λ new_owner. ok (record s.config { owner = new_owner })))
    ok (record s { proposal = proposal; config = config }, [])
  execute env info (callback_msg msg) s = handle_callback env info msg s
  execute env info (transfer_msg recipient amount) s = execute_transfer c d info recipient amount s
  execute env info (burn_msg amount) s = execute_burn c d info amount s
  execute env info (send_msg contract amount msg) s = execute_send c d info contract amount msg s
  execute env info (increase_allowance_msg spender amount expires) s =
      execute_increase_allowance c d info spender amount expires s
  execute env info (decrease_allowance_msg spender amount expires) s =
      execute_decrease_allowance c d info spender amount expires s
  execute env info (transfer_from_msg owner recipient amount) s =
      execute_transfer_from c d env info owner recipient amount s
  execute env info (send_from_msg owner contract amount msg) s =
      execute_send_from c d env info owner contract amount msg s
  execute env info (burn_from_msg owner amount) s = execute_burn_from c d env info owner amount s
  execute env info mint_msg s = err unauthorized
  execute env info update_marketing_msg s = err unauthorized
  execute env info upload_logo_msg s = err unauthorized
