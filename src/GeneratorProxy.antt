-- ===== src/GeneratorProxy.antt =====
-- contracts/generator_proxy: the contract that stakes xASTRO for its stakers, and boosts with it the
-- rewards of the LP tokens that are deposited through it.
pub mod Defs
pub mod Governance
pub mod Staking
pub mod Operation
pub mod Ledger
pub mod Books
pub mod Kept
pub mod Reachable
pub mod Withdrawal
pub mod Claim
pub mod Fresh
pub mod Pools
