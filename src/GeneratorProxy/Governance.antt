-- ===== src/GeneratorProxy/Governance.antt =====
-- contracts/generator_proxy/src/astro_gov.rs: what the contract asks of the governance contracts,
-- and the loop over the periods whose rewards are to be claimed.
use baz_core.Common.{
  ℕ, zero, suc, ◌+◌, ◌-◌, leb, ltb, not, ◌==◌, ◌&&◌, ◌||◌, if◌then◌else◌, Option, none, some, ok,
  err, panic, ◌>>=◌, unwrap_or,
}
use baz_core.Common.Words.{u64_mod, fit}
use baz_core.Cosmwasm.{Cosmwasm, StdError, StdResult, generic_err}
use baz_core.Host.{Addr}
use baz_core.GeneratorProxy.Defs.{AstroGov, Deps, Lock}

-- `Lock::default()`
abbrev pub no_lock : Lock
no_lock = record { amount = 0; start = 0; end = 0; last_extend_lock_period = 0 }

-- "last_claim_period not found"
abbrev pub last_claim_period_not_found : StdError
last_claim_period_not_found = generic_err 50

abbrev pub found_period : Option ℕ → StdResult ℕ
found_period none = err last_claim_period_not_found
found_period (some period) = ok period

module _ (d : Deps) (self : AstroGov) where
  unfoldable pub query_lock : Addr → StdResult Lock
  query_lock user = do lock ← d.query_lock self.voting_escrow user; ok (unwrap_or lock no_lock)

  unfoldable pub query_last_claim_period : Addr → StdResult ℕ
  query_last_claim_period user = do
    last_claim_period ← d.query_last_claim_period self.fee_distributor user
    found_period last_claim_period

module _ (c : Cosmwasm) (d : Deps) (self : AstroGov) where
  unfoldable pub calculate_reward : ℕ → ℕ → ℕ → StdResult ℕ
  calculate_reward period user_vp total_vp = do
    rewards_per_week ← d.query_rewards_per_week self.fee_distributor period
    c.multiply_ratio user_vp (unwrap_or rewards_per_week 0) total_vp

  -- what one round of the loop adds
  unfoldable pub add_period : Addr → ℕ → ℕ → StdResult ℕ
  add_period account claim_period claim_amount = do
    user_vp ← d.query_user_voting_power self.voting_escrow account claim_period
    total_vp ← d.query_total_voting_power self.voting_escrow claim_period
    if not (user_vp == 0) && not (total_vp == 0)
        then (do
          reward ← calculate_reward claim_period user_vp total_vp
          c.checked_add claim_amount reward)
        else ok claim_amount

  -- The loop; the first argument is the number of rounds that it may take, and out of rounds it
  -- panics.
  unfoldable pub claim_loop : ℕ → Addr → ℕ → ℕ → ℕ → ℕ → StdResult ℕ
  claim_loop zero account current_period lock_end_period claim_period claim_amount = panic
  claim_loop (suc rounds) account current_period lock_end_period claim_period claim_amount =
      let go = λ (period amount : ℕ).
        claim_loop rounds account current_period lock_end_period period amount in
      if leb current_period claim_period || ltb lock_end_period claim_period
      then ok claim_amount
      else (do
        claim_amount ← add_period account claim_period claim_amount
        claim_period ← fit u64_mod (claim_period + 1)
        go claim_period claim_amount)

  unfoldable pub calc_claim_amount : Addr → ℕ → ℕ → StdResult ℕ
  calc_claim_amount account claim_start current_period = do
    lock_end_period ← d.query_lock_end self.voting_escrow account
    claim_loop (suc (current_period - claim_start)) account current_period lock_end_period
        claim_start 0
