-- ===== src/Lib.antt =====
-- A verification library for the contracts of this repository (CosmWasm contracts in Rust).
--
-- The program's parts. `lp_staking` pays a schedule of rewards to those who bond an LP token: a
-- global index of the reward per bonded unit grows with time, and every staker has an entry with
-- the index up to which it has been paid. `astroport_farm` bonds the LP tokens of all its users in
-- a generator, divides them by shares, lets a controller compound the rewards through a proxy
-- contract, and is itself a cw20 token of its shares. `fees_collector` swaps the fees to a
-- stablecoin, over bridges of pairs where there is no direct pair, and sends it to its targets by
-- weight. `generator_proxy` locks the xASTRO of its stakers to boost the rewards of the LP tokens
-- that go through it, and shares the income of the lock among the stakers; its pools divide the LP
-- tokens and their rewards among those who deposit. The contracts take tokens
-- by the `Receive` message of the token, send messages to other contracts and to themselves, and
-- hand over their ownership in two steps.
--
-- The files, with the code that each one models:
--   Common, Common/*: results with errors and panics, machine words, maps, arithmetic.
--   Cosmwasm, Cosmwasm/Standard: the arithmetic of the crate cosmwasm_std as a record of
--     operations with what the crate documents of them, and an instance; a theorem takes any
--     record that fulfils it.
--   Host, Assets, Ownership: the environment of a message; packages/spectrum/src/adapters/asset.rs;
--     contracts/lp_staking/src/ownership.rs, which astroport_farm has too.
--   Ownership/Limited: propose_new_owner of packages/astroport/src/common.rs, which fees_collector and
--     generator_proxy import; what else they import of it has the text of ownership.rs.
--   Helper, Helper/Rounding: packages/spectrum/src/helper.rs.
--   LpStaking/Defs, Schedule, Contract: contracts/lp_staking/src/state.rs and contract.rs, with the
--     messages of packages/spectrum/src/lp_staking.rs; the other files of LpStaking hold proofs.
--   AstroportFarm/Defs, Bond, Token, Compound, Contract: contracts/astroport_farm/src/state.rs,
--     bond.rs, cw20.rs, compound.rs, contract.rs, with the messages and the checks of
--     packages/spectrum/src/astroport_farm.rs; the other files of AstroportFarm hold proofs.
--   Pair: packages/spectrum/src/adapters/pair.rs, the messages to a pair.
--   FeesCollector/Defs, Bridge, Swap, Contract: contracts/fees_collector/src/state.rs, error.rs,
--     utils.rs and contract.rs, with the messages of packages/spectrum/src/fees_collector.rs; Routes,
--     Update, Payout, Depth, Cycle and Access hold proofs.
--   GeneratorProxy/Defs, Governance, Staking, Operation: of contracts/generator_proxy/src the staking
--     (model.rs, state.rs, error.rs, astro_gov.rs, staking.rs, oper.rs, contract.rs); the other files
--     of GeneratorProxy hold proofs.
--   GeneratorProxy/Pools/Defs, Reconcile, Bond, Call, Contract: of the same contract the pools (bond.rs,
--     with model.rs, state.rs and contract.rs); Split, Shares, Kept, Callbacks and Reachable hold proofs.
--   Tests/*: the theorems at concrete inputs.
--
-- How state and operations correspond. A contract's storage is the record `Store`, a map by
-- addresses is an association list, and a handler of the source is a function of the same name from
-- the environment, the message and the store to a result: the store that is saved with the messages
-- that are sent, or the error, or a panic (an overflow, a division by zero, an index out of range),
-- after either of which the host restores the storage. A mutable argument of the source is an
-- argument and a part of the result. Addresses, denominations and texts are numbers, the texts
-- whose bytes are checked are lists of bytes, and a `Decimal` is its number of atomics.
--
-- Bounds and fuel. Additions and products are checked against 32, 64, 128 and 256 bits where the
-- source's types are so wide, by a panic where the source panics. A loop over a list is structural
-- recursion. Two routines of the source have no list to follow and take the number of rounds that
-- they may still make, and panic out of rounds: `validate_bridge` gets three, which its depth limit of
-- two makes enough, and the loop of `calc_claim_amount` one more than there are periods between its
-- start and the current period, which it never passes.
--
-- What is not modelled. What other contracts and the crates `astroport` and `cw20` answer is a
-- parameter (`Api`, `Deps`), which may answer anew at every message. Event attributes, the
-- serialisation of messages, the queries that page through the maps and `migrate` are left out.
-- Of generator_proxy the staking and the pools have a store each: they share only the configuration
-- and the records of the rewards, which a run of the one may find changed in any way by the other.
-- `RestrictedVector::update` and what the generator answers are parameters. The contracts
-- compound_proxy, generator_proxy_to_spec and pair_proxy are not modelled; packages/astroport and
-- packages/astroport-governance are copies of another project's libraries, and the directory baz holds this repository a second time.
pub mod Common
pub mod Cosmwasm
pub mod Helper
pub mod Host
pub mod Ownership
pub mod Assets
pub mod Pair
pub mod LpStaking
pub mod AstroportFarm
pub mod FeesCollector
pub mod GeneratorProxy
pub mod Tests
