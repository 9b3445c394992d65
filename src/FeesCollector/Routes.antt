-- ===== src/FeesCollector/Routes.antt =====
-- contracts/fees_collector: what the check of a bridge accepts, and how many rounds it takes.
use baz_core.Common.{
  ℕ, zero, suc, ◌+◌, ◌≡◌, ◌≢◌, ◌↔◌, some, ok, err, panic, arith, ◌<◌, leb, if◌then◌else◌, try-eq-ok,
  Option-cases, Result-cases, inl, inr,
}
use baz_core.Common.Map.{Map, lookup}
use baz_core.Cosmwasm.{StdError}
use baz_core.Host.{Addr}
use baz_core.Assets.{AssetInfo, to_string}
use baz_core.FeesCollector.Defs.{Deps, std, max_bridge_depth}
use baz_core.FeesCollector.Bridge.{validate_bridge, next_bridge}

-- The factory knows a pair of the two assets, or answers that it has none.
abbrev pub HasPair : Deps → Addr → AssetInfo → AssetInfo → Type 0
HasPair d factory a b = (pair : Addr) × (d.query_pair_info factory a b ≡ ok pair)

abbrev pub HasNoPair : Deps → Addr → AssetInfo → AssetInfo → Type 0
HasNoPair d factory a b = (e : StdError) × (d.query_pair_info factory a b ≡ err e)

-- A way from an asset over a bridge to the stablecoin, with at most so many further bridges. A
-- bridge is left by the pair with the stablecoin where there is one.
pub data Route (d : Deps) (factory : Addr) (stablecoin : AssetInfo) (bridges : Map AssetInfo)
    : ℕ → AssetInfo → AssetInfo → Type 0 where
  last :
      {n : ℕ} {a b : AssetInfo}
      → HasPair d factory a b
      → HasPair d factory b stablecoin
      → Route d factory stablecoin bridges n a b
  over :
      {n : ℕ} {a b next : AssetInfo}
      → HasPair d factory a b
      → HasNoPair d factory b stablecoin
      → lookup (to_string b) bridges ≡ some next
      → Route d factory stablecoin bridges n b next
      → Route d factory stablecoin bridges (suc n) a b

module _ (d : Deps) (factory : Addr) (stablecoin : AssetInfo) (bridges : Map AssetInfo) where
  Route-validated :
      {n : ℕ} {a b : AssetInfo} (depth : ℕ)
      → n + depth ≡ 2
      → Route d factory stablecoin bridges n a b
      → validate_bridge d factory stablecoin bridges (suc n) a b depth ≡ ok tt
  unfolding validate_bridge next_bridge
  Route-validated depth e (last (p, h) (q, k)) = ground arith
  Route-validated depth e (over {n = n} {b = b} {next = c} (p, h) (q, k) l r) =
      let ih = Route-validated (depth + 1) (omega arith) r in ground arith

  -- A step over a bridge that has no pair with the stablecoin.
  over_bridge :
      (n depth : ℕ) (a b : AssetInfo)
      → HasPair d factory a b
      → HasNoPair d factory b stablecoin
      → validate_bridge d factory stablecoin bridges (suc n) a b depth ≡ ok tt
      → (next : AssetInfo) × (depth < 2)
        × (lookup (to_string b) bridges ≡ some next)
        × (validate_bridge d factory stablecoin bridges n b next (depth + 1) ≡ ok tt)
  unfolding validate_bridge next_bridge
  over_bridge n depth a b (p, hp) (q, hq) h = elim (Option-cases (lookup (to_string b) bridges)) [
    | inl l ↦ ground arith
    | inr (next, l) ↦ (next, ground arith, l, ground arith)
  ]

  -- The last step of an accepted bridge; `further` is what is known of the steps after it.
  first_step :
      {n : ℕ} (a b : AssetInfo) (depth : ℕ)
      → (HasPair d factory a b
          → HasNoPair d factory b stablecoin
          → Route d factory stablecoin bridges n a b)
      → validate_bridge d factory stablecoin bridges (suc n) a b depth ≡ ok tt
      → Route d factory stablecoin bridges n a b
  unfolding validate_bridge
  first_step a b depth further h =
      let (p, hp, h1) = try-eq-ok std (d.query_pair_info factory a b) _ h in
      elim (Result-cases (d.query_pair_info factory b stablecoin)) [
        | inl q ↦ last (p, hp) q
        | inr (inl q) ↦ further (p, hp) q
        | inr (inr q) ↦ ground arith
      ]

  validated-Route :
      (n : ℕ) (a b : AssetInfo) (depth : ℕ)
      → n + depth ≡ 2
      → validate_bridge d factory stablecoin bridges (suc n) a b depth ≡ ok tt
      → Route d factory stablecoin bridges n a b
  validated-Route zero a b depth e h =
      first_step a b depth
        (λ p q. let (_, lt, _, _) = over_bridge zero depth a b p q h in absurd (omega arith)) h
  validated-Route (suc n) a b depth e h =
      first_step a b depth
        (λ p q.
          let (next, _, l, k) = over_bridge (suc n) depth a b p q h in
          over p q l (validated-Route n b next (depth + 1) (omega arith) k))
        h

  -- The check of a bridge succeeds just where a way leads over it to the stablecoin with at most
  -- two further bridges.
  pub validate_bridge_lem :
      (a b : AssetInfo)
      → (validate_bridge d factory stablecoin bridges 3 a b 0 ≡ ok tt)
        ↔ Route d factory stablecoin bridges 2 a b
  validate_bridge_lem a b = (validated-Route 2 a b 0 (omega arith), Route-validated 0 (omega arith))

  -- What the check does after a bridge without a pair with the stablecoin.
  after_bridge :
      (n : ℕ) (a b next : AssetInfo) (depth : ℕ)
      → HasPair d factory a b
      → HasNoPair d factory b stablecoin
      → lookup (to_string b) bridges ≡ some next
      → validate_bridge d factory stablecoin bridges (suc n) a b depth ≡ (
          if leb 2 depth
          then err (max_bridge_depth depth)
          else validate_bridge d factory stablecoin bridges n b next (depth + 1))
  unfolding validate_bridge next_bridge
  after_bridge n a b next depth (p, hp) (q, hq) l = ground arith

  ends_step :
      (n : ℕ) (a b : AssetInfo) (depth : ℕ)
      → ((x y : AssetInfo) → d.query_pair_info factory x y ≢ panic)
      → ((next : AssetInfo)
          → depth < 2
          → validate_bridge d factory stablecoin bridges n b next (depth + 1) ≢ panic)
      → validate_bridge d factory stablecoin bridges (suc n) a b depth ≢ panic
  unfolding validate_bridge next_bridge
  ends_step n a b depth calm further h = elim (Result-cases (d.query_pair_info factory a b)) [
    | inl p ↦ elim (Result-cases (d.query_pair_info factory b stablecoin)) [
      | inl q ↦ ground arith
      | inr (inl q) ↦ elim (Option-cases (lookup (to_string b) bridges)) [
        | inl l ↦ ground arith
        | inr (next, l) ↦
            let e = after_bridge n a b next depth p q l in let f = further next in ground arith
      ]
      | inr (inr q) ↦ calm _ _ q
    ]
    | inr (inl p) ↦ ground arith
    | inr (inr p) ↦ calm _ _ p
  ]

  ends_at :
      (n : ℕ) (a b : AssetInfo) (depth : ℕ)
      → ((x y : AssetInfo) → d.query_pair_info factory x y ≢ panic)
      → n + depth ≡ 2
      → validate_bridge d factory stablecoin bridges (suc n) a b depth ≢ panic
  ends_at zero a b depth calm e = ends_step zero a b depth calm (λ next lt. absurd (omega arith))
  ends_at (suc n) a b depth calm e =
      ends_step (suc n) a b depth calm (λ next lt. ends_at n b next (depth + 1) calm (omega arith))

  -- Where the factory answers every query, the check of a bridge ends with a result: three rounds
  -- are enough, whatever bridges are stored, cycles included.
  pub validate_bridge-ends :
      (a b : AssetInfo)
      → ((x y : AssetInfo) → d.query_pair_info factory x y ≢ panic)
      → validate_bridge d factory stablecoin bridges 3 a b 0 ≢ panic
  validate_bridge-ends a b calm = ends_at 2 a b 0 calm (omega arith)
