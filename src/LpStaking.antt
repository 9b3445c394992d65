-- ===== src/LpStaking.antt =====
-- contracts/lp_staking: staking of one token for rewards that follow a schedule.
pub mod Defs
pub mod Schedule
pub mod Contract
pub mod Rewards
pub mod Accrual
pub mod Counting
pub mod Replacement
pub mod Ledger
pub mod Runs
pub mod Books
pub mod Handlers
pub mod Access
