-- ===== src/AstroportFarm/Approval.antt =====
-- The farm's token: raising and lowering an allowance.
use baz_core.Common.{
  ℕ, ◌+◌, ◌<◌, ◌≡◌, Option, none, some, List, ok, arith, refl, sym, ◌==◌, Bool-cases, inl, inr,
  ◌&&◌,
}
use baz_core.Cosmwasm.{Cosmwasm, IsDocumented}
use baz_core.Cosmwasm.Standard.{standard, at_standard}
use baz_core.Host.{Addr, HumanAddr, MessageInfo}
use baz_core.AstroportFarm.Defs.{Store, AllowanceResponse}
use baz_core.AstroportFarm.Bond.{Deps, Message}
use baz_core.AstroportFarm.Allowance.{set_allowance_lem}
use baz_core.AstroportFarm.Token.{
  set_allowance, execute_increase_allowance, execute_decrease_allowance,
}

module _ (d : Deps) (info : MessageInfo) (text : HumanAddr) (spender : Addr) (amount : ℕ) where
  increase_sets :
      (s s' : Store) (ms : List Message) (a : AllowanceResponse)
      → d.addr_validate text ≡ ok spender
      → s.allowances info.sender spender ≡ some a
      → execute_increase_allowance standard d info text amount none s ≡ ok (s', ms)
      → s'.allowances
        ≡ set_allowance info.sender spender
            (some (record a { allowance = a.allowance + amount }))
            s.allowances
  unfolding execute_increase_allowance
  increase_sets s s' ms a v l h = ground arith

  decrease_sets :
      (s s' : Store) (ms : List Message) (a : AllowanceResponse) (left : ℕ)
      → d.addr_validate text ≡ ok spender
      → s.allowances info.sender spender ≡ some a
      → left + amount ≡ a.allowance
      → 0 < left
      → execute_decrease_allowance standard d info text amount none s ≡ ok (s', ms)
      → s'.allowances
        ≡ set_allowance info.sender spender (some (record a { allowance = left })) s.allowances
  unfolding execute_decrease_allowance
  decrease_sets s s' ms a left v l e pos h = ground arith

set_back :
    (owner spender : Addr) (m : Addr → Addr → Option AllowanceResponse) (a b : AllowanceResponse)
    (o p : Addr)
    → m owner spender ≡ some a
    → set_allowance owner spender (some a) (set_allowance owner spender (some b) m) o p ≡ m o p
set_back owner spender m a b o p e = elim (Bool-cases (owner == o && spender == p)) [
  | inl same ↦
      let i : owner ≡ o = ground arith in
      let j : spender ≡ p = ground arith in rw (same, ← i, ← j) (sym e)
  | inr other ↦ rw other refl
]

approval-standard :
    (d : Deps) (info : MessageInfo) (text : HumanAddr) (spender : Addr) (amount : ℕ) (s t u : Store)
    (ms ns : List Message) (a : AllowanceResponse)
    → d.addr_validate text ≡ ok spender
    → s.allowances info.sender spender ≡ some a
    → 0 < a.allowance
    → execute_increase_allowance standard d info text amount none s ≡ ok (t, ms)
    → execute_decrease_allowance standard d info text amount none t ≡ ok (u, ns)
    → (o p : Addr) → u.allowances o p ≡ s.allowances o p
approval-standard d info text spender amount s t u ms ns a v l pos h k o p =
    let b : AllowanceResponse = record a { allowance = a.allowance + amount } in
    let up = increase_sets d info text spender amount s t ms a v l h in
    let (at, _) = set_allowance_lem info.sender spender (some b) s.allowances in
    let down =
      decrease_sets d info text spender amount t u ns b a.allowance v (rw up at) refl pos k in
    rw (down, up) (set_back info.sender spender s.allowances a b o p l)

-- Where an allowance that is not zero is raised by an amount and then lowered by the same amount,
-- no expiration being given, all allowances are as before.
pub raise_then_lower :
    (c : Cosmwasm)
    → IsDocumented c
    → (d : Deps) (info : MessageInfo) (text : HumanAddr) (spender : Addr) (amount : ℕ)
      (s t u : Store) (ms ns : List Message) (a : AllowanceResponse)
    → d.addr_validate text ≡ ok spender
    → s.allowances info.sender spender ≡ some a
    → 0 < a.allowance
    → execute_increase_allowance c d info text amount none s ≡ ok (t, ms)
    → execute_decrease_allowance c d info text amount none t ≡ ok (u, ns)
    → (o p : Addr) → u.allowances o p ≡ s.allowances o p
raise_then_lower = at_standard _ approval-standard
