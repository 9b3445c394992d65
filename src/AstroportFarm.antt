-- ===== src/AstroportFarm.antt =====
-- contracts/astroport_farm: a farm that compounds the rewards of one LP token, with its shares as a
-- cw20 token.
pub mod Defs
pub mod Bond
pub mod Token
pub mod Compound
pub mod Contract
pub mod Supply
pub mod Moves
pub mod Exchange
pub mod Shares
pub mod Books
pub mod Reachable
pub mod Holders
pub mod Allowance
pub mod Price
pub mod Value
pub mod Commission
pub mod Guards
pub mod Terms
pub mod Duplicates
pub mod Withdrawal
pub mod Approval
pub mod Ledger
pub mod Refinement
