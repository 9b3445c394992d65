-- ===== src/FeesCollector/Update.antt =====
-- contracts/fees_collector: what an update of the bridges leaves stored.
use baz_core.Common.{
  ℕ, ◌≡◌, ap, subst, sym, Result, not, ◌==◌, ◌⊎◌, inl, inr, Bool-cases, Option, some, List, [], ◌∷◌,
  ok, arith, ltb, unwrap_or, >>=-eq-ok, fail_if-eq-ok,
}
use baz_core.Common.Map.{Map, lookup}
use baz_core.Host.{Addr, MessageInfo}
use baz_core.Assets.{AssetInfo}
use baz_core.FeesCollector.Defs.{ContractError, Deps, Store, Message}
use baz_core.FeesCollector.Bridge.{
  insert_key, range, asset_of, validate_bridge, validate_bridges, remove_bridges, add_bridges,
  update_bridges,
}
use baz_core.FeesCollector.Routes.{Route, validate_bridge_lem}

-- The entry stands in the list.
abbrev Stands : ℕ → AssetInfo → Map AssetInfo → Type 0
Stands k v [] = ⊥
Stands k v (e ∷ m) = (e ≡ (k, v)) ⊎ Stands k v m

lookup-Stands : (k : ℕ) (v : AssetInfo) (m : Map AssetInfo) → lookup k m ≡ some v → Stands k v m
lookup-Stands k v [] h = ground arith
lookup-Stands k v ((j, w) ∷ m) h = elim (Bool-cases (k == j)) [
  | inl t ↦ inl (ground arith)
  | inr t ↦ inr (lookup-Stands k v m (ground arith))
]

insert_key-Stands :
    (k : ℕ) (v : AssetInfo) (e : ℕ × AssetInfo) (m : Map AssetInfo)
    → Stands k v (e ∷ m)
    → Stands k v (insert_key e m)
unfolding insert_key
insert_key-Stands k v e [] h = h
insert_key-Stands k v e (x ∷ xs) h = elim (Bool-cases (ltb x.0 e.0)) [
  | inl t ↦ elim h [
    | inl p ↦ let r = insert_key-Stands k v e xs (inl p) in ground arith
    | inr (inl p) ↦ ground arith
    | inr (inr p) ↦ let r = insert_key-Stands k v e xs (inr p) in ground arith
  ]
  | inr t ↦ ground arith
]

range-Stands : (k : ℕ) (v : AssetInfo) (m : Map AssetInfo) → Stands k v m → Stands k v (range m)
unfolding range
range-Stands k v [] h = h
range-Stands k v (e ∷ m) st =
    insert_key-Stands k v e (range m)
      (elim st [ inl p ↦ inl p | inr r ↦ inr (range-Stands k v m r) ])

module _ (d : Deps) (factory : Addr) (stablecoin : AssetInfo) (bridges : Map AssetInfo) where
  -- The key is read as an asset, from which a way leads over the bridge to the stablecoin.
  pub Leads : ℕ → AssetInfo → Type 0
  Leads k v =
      (asset : AssetInfo) × (asset_of (d.addr_validate k) k ≡ ok asset)
      × Route d factory stablecoin bridges 2 asset v

  validate_bridges-Leads :
      (k : ℕ) (v : AssetInfo) (m : Map AssetInfo)
      → validate_bridges d factory stablecoin bridges m ≡ ok tt
      → Stands k v m
      → Leads k v
  unfolding validate_bridges Leads
  validate_bridges-Leads k v [] h st = absurd st
  validate_bridges-Leads k v ((j, w) ∷ m) h st =
      let (asset, ha, h1) = >>=-eq-ok (asset_of (d.addr_validate j) j) _ h in
      let (_, hv, h2) = >>=-eq-ok (validate_bridge d factory stablecoin bridges 3 asset w 0) _ h1 in
      elim st [
        | inl p ↦ (
          asset,
          subst (λ j. asset_of (d.addr_validate j) j ≡ ok asset) (ap (λ e. e.0) p) ha,
          subst (λ w. Route d factory stablecoin bridges 2 asset w) (ap (λ e. e.1) p)
              ((validate_bridge_lem d factory stablecoin bridges asset w).0 hv),
        )
        | inr r ↦ validate_bridges-Leads k v m h2 r
      ]

stored :
    (s : Store) (bridges : Map AssetInfo) {s' : Store} {ms : List Message}
    → Path
        (Result ContractError (Store × List Message))
        (ok (record s { bridges = bridges }, []))
        (ok (s', ms))
    → (s'.config ≡ s.config) × (s'.proposal ≡ s.proposal) × (ms ≡ []) × (bridges ≡ s'.bridges)
stored s bridges h = ground arith

-- An update of the bridges that succeeds comes from the operator, changes only the bridges and
-- sends nothing, and from each asset that has a bridge after it a way of at most three bridges
-- leads to the stablecoin.
pub update_bridges_lem :
    (d : Deps) (info : MessageInfo) (add : Option (List (AssetInfo × AssetInfo)))
    (remove : Option (List AssetInfo)) (s s' : Store) (ms : List Message)
    → update_bridges d info add remove s ≡ ok (s', ms)
    → (info.sender ≡ s.config.operator)
      × (s'.config ≡ s.config)
      × (s'.proposal ≡ s.proposal)
      × (ms ≡ [])
      × ((k : ℕ) (v : AssetInfo)
          → lookup k s'.bridges ≡ some v
          → Leads d s.config.factory_contract s.config.stablecoin s'.bridges k v)
unfolding update_bridges
update_bridges_lem d info add remove s s' ms h =
    let (t, h1) = fail_if-eq-ok (not (info.sender == s.config.operator)) _ _ h in
    let (bridges, _, h2) =
      >>=-eq-ok (add_bridges (unwrap_or add []) (remove_bridges (unwrap_or remove []) s.bridges)) _
        h1 in
    let (_, hv, h3) =
      >>=-eq-ok
        (validate_bridges d s.config.factory_contract s.config.stablecoin bridges (range bridges)) _
        h2 in
    let (c, p, e, b) = stored s bridges h3 in
    (
      ground arith,
      c,
      p,
      e,
      λ k v l.
          subst (λ m. Leads d s.config.factory_contract s.config.stablecoin m k v) b
            (validate_bridges-Leads d s.config.factory_contract s.config.stablecoin bridges k v
              (range bridges) hv
              (range-Stands k v bridges
                (lookup-Stands k v bridges (subst (λ m. lookup k m ≡ some v) (sym b) l)))),
    )
