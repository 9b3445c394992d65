-- ===== src/GeneratorProxy/Pools.antt =====
-- contracts/generator_proxy/src/bond.rs: the pools of LP tokens that are deposited through the
-- contract, and the shares and rewards of their users.
pub mod Defs
pub mod Reconcile
pub mod Bond
pub mod Call
pub mod Contract
pub mod Split
pub mod Shares
pub mod Kept
pub mod Callbacks
pub mod Reachable
