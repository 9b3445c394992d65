-- ===== src/Tests.antt =====
-- The theorems at concrete inputs.
pub mod Staking
pub mod Farm
pub mod Fees
pub mod Proxy
pub mod Pools
