-- ===== src/FeesCollector.antt =====
-- contracts/fees_collector: a contract that swaps the fees to a stablecoin, over bridges of pairs,
-- and sends it to a list of targets by weight.
pub mod Defs
pub mod Bridge
pub mod Swap
pub mod Contract
pub mod Routes
pub mod Update
pub mod Payout
pub mod Depth
pub mod Cycle
pub mod Access
