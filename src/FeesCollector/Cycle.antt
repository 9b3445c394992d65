-- ===== src/FeesCollector/Cycle.antt =====
-- contracts/fees_collector: two bridges that lead to each other.
use baz_core.Common.{
  ℕ, ◌≡◌, ◌≢◌, false, none, some, [], ◌∷◌, ok, arith, ltb, ◌⊎◌, ap, subst, sym, inl, inr,
  Bool-cases,
}
use baz_core.Common.Map.{Map, lookup}
use baz_core.Host.{MessageInfo}
use baz_core.Assets.{AssetInfo, to_string, asset_info_eq, asset_info_eq-eq}
use baz_core.Pair.{swap_msg}
use baz_core.FeesCollector.Defs.{Deps, Store, Message, pair_msg, decimal_max, max_spread}
use baz_core.FeesCollector.Bridge.{
  try_build_swap_msg, asset_of, validate_bridges, range, insert_key, remove_bridges, add_bridges,
  update_bridges,
}
use baz_core.FeesCollector.Swap.{bridge, swap, swap_over}
use baz_core.FeesCollector.Routes.{HasPair, validate_bridge_lem, last}

-- Two assets that have a pair with each other and with the stablecoin.
pub record AreTraded (d : Deps) (s : Store) (a b : AssetInfo) : Type 0 where
  pub differ : to_string a ≢ to_string b
  pub forth : HasPair d s.config.factory_contract a b
  pub back : HasPair d s.config.factory_contract b a
  pub first_out : HasPair d s.config.factory_contract a s.config.stablecoin
  pub second_out : HasPair d s.config.factory_contract b s.config.stablecoin
  pub first_read : asset_of (d.addr_validate (to_string a)) (to_string a) ≡ ok a
  pub second_read : asset_of (d.addr_validate (to_string b)) (to_string b) ≡ ok b

abbrev pub cycle : AssetInfo → AssetInfo → Store → Store
cycle a b s = record s { bridges = (to_string a, b) ∷ (to_string b, a) ∷ [] }

-- The swap goes to a bridge, and this is the one.
abbrev pub GoesTo : Deps → Store → AssetInfo → AssetInfo → ℕ → Type 0
GoesTo d s a b n = (m : Message) × (swap d s a n ≡ ok (bridge b m))

module _ (d : Deps) (s : Store) (a b : AssetInfo) where
  goes_to :
      (s : Store) (a b : AssetInfo) (n : ℕ)
      → lookup (to_string a) s.bridges ≡ some b
      → HasPair d s.config.factory_contract a b
      → GoesTo d s a b n
  unfolding swap swap_over try_build_swap_msg
  goes_to s a b n l (p, h) = (
    pair_msg
        (swap_msg p (record { info = a; amount = n }) (some decimal_max) (some max_spread) none),
    ground arith,
  )

  differ_eq : (a b : AssetInfo) → to_string a ≢ to_string b → asset_info_eq a b ≡ false
  differ_eq a b h = elim (Bool-cases (asset_info_eq a b)) [
    | inl t ↦ absurd (h (ap to_string (asset_info_eq-eq a b t)))
    | inr t ↦ t
  ]

  -- The check of the two bridges, in whichever order they are stored.
  both_checked :
      (bridges m : Map AssetInfo)
      → AreTraded d s a b
      → (m ≡ (to_string a, b) ∷ (to_string b, a) ∷ [])
        ⊎ (m ≡ (to_string b, a) ∷ (to_string a, b) ∷ [])
      → validate_bridges d s.config.factory_contract s.config.stablecoin bridges m ≡ ok tt
  unfolding validate_bridges
  both_checked bridges m t o =
      let f = s.config.factory_contract in
      let st = s.config.stablecoin in
      let u = (validate_bridge_lem d f st bridges a b).1 (last t.forth t.second_out) in
      let v = (validate_bridge_lem d f st bridges b a).1 (last t.back t.first_out) in
      let ra = t.first_read in
      let rb = t.second_read in
      let P = λ (x : Map AssetInfo). validate_bridges d f st bridges x ≡ ok tt in
      elim o [ inl e ↦ subst P (sym e) (ground arith) | inr e ↦ subst P (sym e) (ground arith) ]

  sorted :
      (k j : ℕ) (x y : AssetInfo)
      → (range ((k, x) ∷ (j, y) ∷ []) ≡ (k, x) ∷ (j, y) ∷ [])
        ⊎ (range ((k, x) ∷ (j, y) ∷ []) ≡ (j, y) ∷ (k, x) ∷ [])
  unfolding range insert_key
  sorted k j x y = elim (Bool-cases (ltb j k)) [
    | inl t ↦ inr (ground arith)
    | inr t ↦ inl (ground arith)
  ]

  -- Where no bridge is stored yet, and two assets with different texts, which read back, have a
  -- pair with each other and each one with the stablecoin, the operator can make each the bridge of
  -- the other: the update passes the check and stores the two bridges, but a swap of either then
  -- goes to the other.
  pub cycle_passes :
      (info : MessageInfo) (n : ℕ)
      → s.bridges ≡ []
      → info.sender ≡ s.config.operator
      → AreTraded d s a b
      → (update_bridges d info (some ((a, b) ∷ (b, a) ∷ [])) none s ≡ ok (cycle a b s, []))
        × GoesTo d (cycle a b s) a b n
        × GoesTo d (cycle a b s) b a n
  unfolding update_bridges add_bridges remove_bridges
  cycle_passes info n e o t = (
    (let x = differ_eq a b t.differ in
        let y = differ_eq b a (λ q. t.differ (sym q)) in
        let ne = t.differ in
        let v =
          both_checked (cycle a b s).bridges (range (cycle a b s).bridges) t
            (sorted (to_string a) (to_string b) b a) in
        ground arith),
    goes_to (cycle a b s) a b n (ground arith) t.forth,
    goes_to (cycle a b s) b a n (ground (arith, t.differ)) t.back,
  )
