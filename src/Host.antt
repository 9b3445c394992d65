-- ===== src/Host.antt =====
-- What the host hands to every message: the block, the sender with the coins sent, and the check of
-- an address, which is a parameter. Addresses, denominations and the texts that people write for
-- addresses are only compared, and are numbers here.
use baz_core.Common.{ℕ, List}
use baz_core.Cosmwasm.{StdResult}

abbrev pub Addr : Type 0
Addr = ℕ

abbrev pub HumanAddr : Type 0
HumanAddr = ℕ

-- `deps.api.addr_validate`
abbrev pub Api : Type 0
Api = HumanAddr → StdResult Addr

pub record Coin : Type 0 where
  pub denom : ℕ
  pub amount : ℕ

-- `env.block.time.seconds()`, `env.block.height`, `env.contract.address`
pub record Env : Type 0 where
  pub time : ℕ
  pub height : ℕ
  pub contract : Addr

pub record MessageInfo : Type 0 where
  pub sender : Addr
  pub funds : List Coin
