-- ===== src/AstroportFarm/Allowance.antt =====
-- The farm's token: what an allowance allows.
use baz_core.Common.{
  ℕ, ◌+◌, ◌≡◌, ◌≢◌, Option, none, some, List, ok, arith, refl, subst, ◌⊎◌, false, try-eq-ok,
  >>=-eq-ok,
}
use baz_core.Cosmwasm.{Cosmwasm, IsDocumented}
use baz_core.Cosmwasm.Standard.{standard, at_standard}
use baz_core.Host.{Addr, HumanAddr, Env, MessageInfo}
use baz_core.AstroportFarm.Defs.{Store, AllowanceResponse, std}
use baz_core.AstroportFarm.Bond.{Deps, Message}
use baz_core.AstroportFarm.Token.{
  transfer_internal, burn_internal, deduct_from, deduct_allowance, execute_transfer_from,
  set_allowance,
}
use baz_core.AstroportFarm.Moves.{transfer_internal-Transfers}
use baz_core.AstroportFarm.Moves.{burn_internal-Burns}
use baz_core.AstroportFarm.Token.{execute_burn_from, execute_send_from}
use baz_core.AstroportFarm.Contract.{
  ExecuteMsg, execute, transfer_from_msg, send_from_msg, burn_from_msg,
}

deduct_from-standard :
    (d : Deps) (old : Option AllowanceResponse) (env : Env) (amount : ℕ) {a : AllowanceResponse}
    → deduct_from standard d old env amount ≡ ok a
    → (b : AllowanceResponse) × (old ≡ some b)
      × (d.is_expired b.expires env ≡ false)
      × (a.allowance + amount ≡ b.allowance)
      × (a.expires ≡ b.expires)
unfolding deduct_from
deduct_from-standard d none env amount h = cc
deduct_from-standard d (some b) env amount h = (b, refl, ground arith, ground arith, ground arith)

-- The allowances after a write of one.
pub set_allowance_lem :
    (owner spender : Addr) (v : Option AllowanceResponse)
    (m : Addr → Addr → Option AllowanceResponse)
    → (set_allowance owner spender v m owner spender ≡ v)
      × ((o p : Addr) → (owner ≢ o) ⊎ (spender ≢ p) → set_allowance owner spender v m o p ≡ m o p)
set_allowance_lem owner spender v m = (ground arith, λ o p h. ground arith)

-- The messages that spend `amount` of what `owner` has allowed the sender.
pub data IsFrom (owner : HumanAddr) (amount : ℕ) : ExecuteMsg → Type 0 where
  transfer_from :
      (recipient : HumanAddr) → IsFrom owner amount (transfer_from_msg owner recipient amount)
  send_from :
      (contract : HumanAddr) (msg : ℕ)
      → IsFrom owner amount (send_from_msg owner contract amount msg)
  burn_from : IsFrom owner amount (burn_from_msg owner amount)

-- The allowance was there, had not expired and was enough; it is lowered by the amount, and no
-- other allowance has changed.
pub record Spent (d : Deps) (env : Env) (owner spender : Addr) (amount : ℕ) (s s' : Store)
    : Type 0 where
  pub before : AllowanceResponse
  pub after : AllowanceResponse
  pub stood : s.allowances owner spender ≡ some before
  pub valid : d.is_expired before.expires env ≡ false
  pub stands : s'.allowances owner spender ≡ some after
  pub lowered_by : after.allowance + amount ≡ before.allowance
  pub same_end : after.expires ≡ before.expires
  pub others : (o p : Addr) → (owner ≢ o) ⊎ (spender ≢ p) → s'.allowances o p ≡ s.allowances o p

deduct_allowance-Spent :
    (d : Deps) (env : Env) (owner spender : Addr) (amount : ℕ) (s t s' : Store)
    → deduct_allowance standard d owner spender env amount s ≡ ok t
    → s'.allowances ≡ t.allowances
    → Spent d env owner spender amount s s'
unfolding deduct_allowance
deduct_allowance-Spent d env owner spender amount s t s' h e =
    let (a, f, g) =
      >>=-eq-ok (deduct_from standard d (s.allowances owner spender) env amount) _ h in
    let (b, stood, valid, less, same) =
      deduct_from-standard d (s.allowances owner spender) env amount f in
    let written : t.allowances ≡ set_allowance owner spender (some a) s.allowances = ground arith in
    let (self, others) = set_allowance_lem owner spender (some a) s.allowances in
    record {
      before = b;
      after = a;
      stood = stood;
      valid = valid;
      stands = rw (e, written) self;
      lowered_by = less;
      same_end = same;
      others = λ o p n. rw (e, written) (others o p n);
    }

transfer_keeps_allowances :
    (d : Deps) (k : Addr) (recipient : HumanAddr) (amount : ℕ) (s : Store) {s' : Store}
    → transfer_internal standard d k recipient amount s ≡ ok s'
    → s'.allowances ≡ s.allowances
transfer_keeps_allowances d k recipient amount s h =
    rw (transfer_internal-Transfers d k recipient amount s h).result refl

burn_keeps_allowances :
    (d : Deps) (k : Addr) (amount : ℕ) (s : Store) {s' : Store}
    → burn_internal standard d k amount s ≡ ok s'
    → s'.allowances ≡ s.allowances
burn_keeps_allowances d k amount s h = rw (burn_internal-Burns d k amount s h).result refl

from_spends_standard :
    (d : Deps) (env : Env) (info : MessageInfo) (owner : HumanAddr) (o : Addr) (amount : ℕ)
    (msg : ExecuteMsg) (s s' : Store) (ms : List Message)
    → IsFrom owner amount msg
    → d.addr_validate owner ≡ ok o
    → execute standard d env info msg s ≡ ok (s', ms)
    → Spent d env o info.sender amount s s'
unfolding execute execute_transfer_from execute_send_from execute_burn_from
from_spends_standard d env info owner o amount _ s s' ms (transfer_from recipient) v h =
    let (o', e, h1) = try-eq-ok std (d.addr_validate owner) _ h in
    let (t, f, h2) = >>=-eq-ok (deduct_allowance standard d o' info.sender env amount s) _ h1 in
    let (u, g, h3) = >>=-eq-ok (transfer_internal standard d o' recipient amount t) _ h2 in
    let same : o' ≡ o = ground (arith, v, e) in
    let kept = transfer_keeps_allowances d o' recipient amount t g in
    subst (λ x. Spent d env x info.sender amount s s') same
      (deduct_allowance-Spent d env o' info.sender amount s t s' f (ground (arith, kept)))
from_spends_standard d env info owner o amount _ s s' ms (send_from contract msg) v h =
    let (o', e, h1) = try-eq-ok std (d.addr_validate owner) _ h in
    let (t, f, h2) = >>=-eq-ok (deduct_allowance standard d o' info.sender env amount s) _ h1 in
    let (u, g, h3) = >>=-eq-ok (transfer_internal standard d o' contract amount t) _ h2 in
    let same : o' ≡ o = ground (arith, v, e) in
    let kept = transfer_keeps_allowances d o' contract amount t g in
    subst (λ x. Spent d env x info.sender amount s s') same
      (deduct_allowance-Spent d env o' info.sender amount s t s' f (ground (arith, kept)))
from_spends_standard d env info owner o amount _ s s' ms burn_from v h =
    let (o', e, h1) = try-eq-ok std (d.addr_validate owner) _ h in
    let (t, f, h2) = >>=-eq-ok (deduct_allowance standard d o' info.sender env amount s) _ h1 in
    let (u, g, h3) = >>=-eq-ok (burn_internal standard d o' amount t) _ h2 in
    let same : o' ≡ o = ground (arith, v, e) in
    let kept = burn_keeps_allowances d o' amount t g in
    subst (λ x. Spent d env x info.sender amount s s') same
      (deduct_allowance-Spent d env o' info.sender amount s t s' f (ground (arith, kept)))

-- A message that spends an allowance succeeds only where the allowance stands, has not expired and
-- is enough: it is then lowered by exactly the amount, with the same expiration, and no other
-- allowance changes.
pub from_spends :
    (c : Cosmwasm)
    → IsDocumented c
    → (d : Deps) (env : Env) (info : MessageInfo) (owner : HumanAddr) (o : Addr) (amount : ℕ)
      (msg : ExecuteMsg) (s s' : Store) (ms : List Message)
    → IsFrom owner amount msg
    → d.addr_validate owner ≡ ok o
    → execute c d env info msg s ≡ ok (s', ms)
    → Spent d env o info.sender amount s s'
from_spends = at_standard _ from_spends_standard
