-- ===== src/AstroportFarm/Commission.antt =====
-- The fee that the farm takes from a reward, and what it sends on.
use baz_core.Common.{
  ℕ, ◌+◌, ◌*◌, ◌-◌, ◌/◌, ◌≤◌, ◌<◌, ◌≡◌, ◌≢◌, some, List, [], ◌∷◌, ◌++◌, ok, arith, refl, inl, inr,
  ap, ◌∙◌, ◌==◌, if◌then◌else◌, Bool-cases,
}
use baz_core.Common.Words.{u64_mod, u128_mod}
use baz_core.Common.Arith.{div-le, div-mul-le, mul_le_mul}
use baz_core.Cosmwasm.{Cosmwasm, IsDocumented, decimal_one}
use baz_core.Cosmwasm.Standard.{standard, at_standard}
use baz_core.Host.{Addr, Env}
use baz_core.Assets.{
  AssetInfo, Asset, AssetMsg, transfer, increase_allowance, bank_send, transfer_info,
  increase_allowance_msg, token, native_token,
}
use baz_core.AstroportFarm.Defs.{Config}
use baz_core.AstroportFarm.Bond.{Deps}
use baz_core.AstroportFarm.Compound.{Plan, no_plan, compound_info, commission_msgs, plan_reward}

-- The assets of a plan, where `rest` of a reward is left.
abbrev pub left_rewards : AssetInfo → ℕ → List Asset
left_rewards info rest = if rest == 0 then [] else record { info = info; amount = rest } ∷ []

-- The commission is the share of the fee, rounded down.
commission_le : (amount fee : ℕ) → fee ≤ decimal_one → amount * fee / decimal_one ≤ amount
commission_le amount fee h =
    div-le amount (amount * fee) decimal_one (ground arith)
      (mul_le_mul amount amount fee decimal_one (omega arith) h)

rem_lt : (a : ℕ) → a < a / decimal_one * decimal_one + decimal_one
rem_lt a = omega arith

-- The allowance that the proxy gets for the rest of a token: it takes the coins of a native one.
abbrev pub approval : Deps → Config → Env → AssetInfo → ℕ → List AssetMsg
approval d config env (native_token denom) rest = []
approval d config env (token contract) rest =
    increase_allowance (token contract) config.compound_proxy rest
      (some (d.at_height (env.height + 1)))
    ∷ []

abbrev pub approvals : Deps → Config → Env → AssetInfo → ℕ → List AssetMsg
approvals d config env info rest = if rest == 0 then [] else approval d config env info rest

-- The payment of an amount to an account, as a transfer or as coins.
abbrev pub payment : AssetInfo → ℕ → Addr → AssetMsg
payment (token contract) amount to = transfer contract to amount
payment (native_token denom) amount to = bank_send to (record { denom = denom; amount = amount })

abbrev pub payments : AssetInfo → ℕ → Addr → List AssetMsg
payments info amount to = if amount == 0 then [] else payment info amount to ∷ []

-- A reward in two parts, and what the plan does with them.
pub record Splits (d : Deps) (config : Config) (env : Env) (asset : Asset) (p : Plan) : Type 0 where
  pub commission : ℕ
  pub rest : ℕ
  pub whole : commission + rest ≡ asset.amount
  pub low : commission * decimal_one ≤ asset.amount * config.fee
  pub high : asset.amount * config.fee < commission * decimal_one + decimal_one
  pub rewards : p.rewards ≡ left_rewards asset.info rest
  pub messages :
      p.messages
      ≡ approvals d config env asset.info rest
        ++ payments asset.info commission config.fee_collector

transfer_info-eq :
    (info : AssetInfo) (amount : ℕ) (to : Addr)
    → transfer_info info amount to ≡ payment info amount to
unfolding transfer_info
transfer_info-eq (token contract) amount to = refl
transfer_info-eq (native_token denom) amount to = refl

commission_msgs-eq :
    (d : Deps) (info : AssetInfo) (amount : ℕ) (config : Config)
    → commission_msgs standard d info amount config ≡ payments info amount config.fee_collector
unfolding commission_msgs
commission_msgs-eq d info amount config =
    rw (transfer_info-eq info amount config.fee_collector) refl

compound_info-ok :
    (d : Deps) (info : AssetInfo) (asset : Asset) (rest : ℕ) (config : Config) (env : Env)
    → env.height + 1 < u64_mod
    → (plan : Plan) × (compound_info standard d info asset rest config env ≡ ok plan)
      × (plan.rewards ≡ record { info = info; amount = rest } ∷ [])
      × (plan.messages ≡ approval d config env info rest)
unfolding compound_info
compound_info-ok d (native_token denom) asset rest config env h = (_, refl, refl, refl)
compound_info-ok d (token contract) asset rest config env h = (
  record {
    messages =
        increase_allowance_msg (record { info = token contract; amount = rest })
          config.compound_proxy (some (d.at_height (env.height + 1)))
        ∷ [];
    funds = [];
    rewards = record { info = token contract; amount = rest } ∷ [];
  },
  ground arith,
  refl,
  refl,
)

-- The plan of a reward, where `commission` is the fee's share of it.
plan_after :
    (d : Deps) (asset : Asset) (lp : ℕ) (config : Config) (env : Env) (plan : Plan) (commission : ℕ)
    → asset.amount < u128_mod
    → commission ≡ asset.amount * config.fee / decimal_one
    → commission ≤ asset.amount
    → asset.amount ≢ 0
    → lp ≢ 0
    → compound_info standard d asset.info asset (asset.amount - commission) config env ≡ ok plan
    → plan.rewards ≡ record { info = asset.info; amount = asset.amount - commission } ∷ []
    → plan.messages ≡ approval d config env asset.info (asset.amount - commission)
    → (p : Plan) × (plan_reward standard d asset lp config env ≡ ok p)
      × (p.rewards ≡ left_rewards asset.info (asset.amount - commission))
      × (p.messages
          ≡ approvals d config env asset.info (asset.amount - commission)
            ++ commission_msgs standard d asset.info commission config)
unfolding plan_reward
plan_after d asset lp config env plan commission b q le z l e r m =
    let fees = commission_msgs standard d asset.info commission config in
    elim (Bool-cases (asset.amount - commission == 0)) [
      | inl t ↦
          (record no_plan { messages = fees }, ground (arith, le), ground (arith, le), ground arith)
      | inr t ↦ (
        record plan { messages = plan.messages ++ fees },
        ground (arith, le),
        ground (arith, le),
        ground arith,
      )
    ]

commission_split_standard :
    (d : Deps) (asset : Asset) (lp : ℕ) (config : Config) (env : Env)
    → asset.amount < u128_mod
    → env.height + 1 < u64_mod
    → config.fee ≤ decimal_one
    → asset.amount ≢ 0
    → lp ≢ 0
    → (p : Plan) × (plan_reward standard d asset lp config env ≡ ok p) × Splits d config env asset p
commission_split_standard d asset lp config env b hb f z l =
    let commission = asset.amount * config.fee / decimal_one in
    let le = commission_le asset.amount config.fee f in
    let (plan, e, r, m) =
      compound_info-ok d asset.info asset (asset.amount - commission) config env hb in
    let (p, ran, rewards, messages) =
      plan_after d asset lp config env plan commission b refl le z l e r m in
    (
      p,
      ran,
      record {
        commission = commission;
        rest = asset.amount - commission;
        whole = omega (arith, le);
        low = div-mul-le (asset.amount * config.fee) decimal_one;
        high = rem_lt (asset.amount * config.fee);
        rewards = rewards;
        messages =
            messages
            ∙ ap (λ x. approvals d config env asset.info (asset.amount - commission) ++ x)
                (commission_msgs-eq d asset.info commission config);
      },
    )

-- With a fee of at most one, something staked and a block height that has a successor in 64 bits, a
-- reward of 128 bits that is not zero is never refused. It is split without loss into the
-- commission, the fee's share of it rounded down, and the rest. The messages are an allowance of
-- the rest to the proxy, where the reward is a token, and a payment of the commission to the fee
-- collector, each where it is not zero; and the rest, where it is not zero, is the amount that the
-- proxy is told to compound. Of the coins that go along nothing is said.
pub commission_split :
    (c : Cosmwasm)
    → IsDocumented c
    → (d : Deps) (asset : Asset) (lp : ℕ) (config : Config) (env : Env) → asset.amount < u128_mod
    → env.height + 1 < u64_mod
    → config.fee ≤ decimal_one
    → asset.amount ≢ 0
    → lp ≢ 0
    → (p : Plan) × (plan_reward c d asset lp config env ≡ ok p) × Splits d config env asset p
commission_split = at_standard _ commission_split_standard

native_overpaid_standard :
    (d : Deps) (denom amount lp : ℕ) (config : Config) (env : Env) (p : Plan)
    → plan_reward standard d (record { info = native_token denom; amount = amount }) lp config env
      ≡ ok p
    → p.rewards ≢ []
    → amount * config.fee / decimal_one ≢ 0
    → (p.funds ≡ record { denom = denom; amount = amount } ∷ [])
      × (p.messages
          ≡ bank_send config.fee_collector
              (record { denom = denom; amount = amount * config.fee / decimal_one })
            ∷ [])
unfolding plan_reward compound_info commission_msgs transfer_info
native_overpaid_standard d denom amount lp config env p h r z = ground arith

-- A reward in a native coin that leaves something to compound and pays a commission: the whole
-- reward goes to the proxy as a coin, and the commission is sent on top of it.
pub native_overpaid :
    (c : Cosmwasm)
    → IsDocumented c
    → (d : Deps) (denom amount lp : ℕ) (config : Config) (env : Env) (p : Plan)
    → plan_reward c d (record { info = native_token denom; amount = amount }) lp config env ≡ ok p
    → p.rewards ≢ []
    → amount * config.fee / decimal_one ≢ 0
    → (p.funds ≡ record { denom = denom; amount = amount } ∷ [])
      × (p.messages
          ≡ bank_send config.fee_collector
              (record { denom = denom; amount = amount * config.fee / decimal_one })
            ∷ [])
native_overpaid = at_standard _ native_overpaid_standard
