-- ===== src/Common/Words.antt =====
-- Rust's unsigned integers as the workspace compiles them: `overflow-checks = true` makes `+`, `-`
-- and `*` panic where the result does not fit.
use Prim.Native.Nat.{ℕ, ◌-◌, ◌/◌, ◌^◌}
use baz_core.Common.Tests.{ltb, ◌==◌, if◌then◌else◌}
use baz_core.Common.Outcome.{Result, ok, panic}

abbrev pub u32_mod : ℕ
u32_mod = 2 ^ 32

abbrev pub u64_mod : ℕ
u64_mod = 2 ^ 64

abbrev pub u128_mod : ℕ
u128_mod = 2 ^ 128

abbrev pub u256_mod : ℕ
u256_mod = 2 ^ 256

module _ {E : Type 0} where
  -- a value that has to fit below `m`
  abbrev pub fit : ℕ → ℕ → Result E ℕ
  fit m x = if ltb x m then ok x else panic

  abbrev pub sub : ℕ → ℕ → Result E ℕ
  sub a b = if ltb a b then panic else ok (a - b)

  abbrev pub div : ℕ → ℕ → Result E ℕ
  div a b = if b == 0 then panic else ok (a / b)
