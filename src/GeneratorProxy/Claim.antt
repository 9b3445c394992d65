-- ===== src/GeneratorProxy/Claim.antt =====
-- contracts/generator_proxy/src/astro_gov.rs: the loop over the periods ends with the sum of the
-- rewards.
use baz_core.Common.{ℕ, zero, suc, ◌+◌, ◌*◌, ◌/◌, ◌≡◌, ◌==◌, if◌then◌else◌, some, ok}
use baz_core.Cosmwasm.{Cosmwasm}
use baz_core.Host.{Addr}
use baz_core.GeneratorProxy.Defs.{AstroGov, Deps}

-- The answers of the governance contracts: the voting power of the account and of all, and the
-- rewards of a period.
pub record Answers (d : Deps) (self : AstroGov) (account : Addr) (user total weekly : ℕ → ℕ)
    : Type 0 where
  pub user_power : (p : ℕ) → d.query_user_voting_power self.voting_escrow account p ≡ ok (user p)
  pub total_power : (p : ℕ) → d.query_total_voting_power self.voting_escrow p ≡ ok (total p)
  pub rewards : (p : ℕ) → d.query_rewards_per_week self.fee_distributor p ≡ ok (some (weekly p))

module _ (user total weekly : ℕ → ℕ) where
  -- The account's part of the rewards of a period, rounded down.
  abbrev pub part : ℕ → ℕ
  part p = if total p == 0 then 0 else (user p * weekly p) / total p

  -- The parts of `n` periods from `p` on.
  abbrev pub parts : ℕ → ℕ → ℕ
  parts p zero = 0
  parts p (suc n) = part p + parts (suc p) n
