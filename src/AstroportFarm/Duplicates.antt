-- ===== src/AstroportFarm/Duplicates.antt =====
-- What the check for duplicates in `bond_assets` refuses.
use baz_core.Common.{
  ap, ◌≡◌, ◌≢◌, ◌⊎◌, inl, inr, List, [], ◌∷◌, ◌++◌, true, false, ok, err, panic, arith, Bool-cases,
  refl, subst,
}
use baz_core.Assets.{asset_info_eq, asset_info_eq-eq, asset_info_eq_same, Asset}
use baz_core.AstroportFarm.Defs.{duplicated_asset}
use baz_core.AstroportFarm.Bond.{asset_eq, check_neighbours, check_duplicates}

-- One asset stands twice in a row, with the same amount.
pub record HasTwins (assets : List Asset) : Type 0 where
  pub before : List Asset
  pub twin : Asset
  pub after : List Asset
  pub split : assets ≡ before ++ (twin ∷ twin ∷ after)

asset_eq-eq : (a b : Asset) → asset_eq a b ≡ true → a ≡ b
unfolding asset_eq
asset_eq-eq a b h =
    let e : asset_info_eq a.info b.info ≡ true = ground arith in
    let same = asset_info_eq-eq a.info b.info e in ground arith

asset_eq_same : (a : Asset) → asset_eq a a ≡ true
unfolding asset_eq
asset_eq_same a = ground (arith, asset_info_eq_same a.info)

no_twins_one : (a : Asset) → HasTwins (a ∷ []) → ⊥
no_twins_one a t = one t.before t.twin t.after t.split
  where
    one : (xs : List Asset) (b : Asset) (ys : List Asset) → a ∷ [] ≢ xs ++ (b ∷ b ∷ ys)
    one [] b ys e = ground arith
    one (x ∷ []) b ys e = ground arith
    one (x ∷ y ∷ xs) b ys e = ground arith

no_twins_more :
    (a b : Asset) (rest : List Asset)
    → asset_eq b a ≡ false
    → (HasTwins (b ∷ rest) → ⊥)
    → HasTwins (a ∷ b ∷ rest)
    → ⊥
no_twins_more a b rest h n t = more t.before t.twin t.after t.split
  where
    more : (xs : List Asset) (w : Asset) (ys : List Asset) → a ∷ b ∷ rest ≢ xs ++ (w ∷ w ∷ ys)
    more [] w ys e =
        let p : b ≡ a = ground arith in
        let q = subst (λ x. asset_eq b x ≡ true) p (asset_eq_same b) in ground arith
    more (x ∷ xs) w ys e = n (record { before = xs; twin = w; after = ys; split = ground arith })

check_neighbours_lem :
    (low : Asset) (rest : List Asset)
    → ((check_neighbours low rest ≡ ok tt) × (HasTwins (low ∷ rest) → ⊥))
      ⊎ ((check_neighbours low rest ≡ err duplicated_asset) × HasTwins (low ∷ rest))
unfolding check_neighbours
check_neighbours_lem low [] = inl (refl, no_twins_one low)
check_neighbours_lem low (b ∷ rest) = elim (Bool-cases (asset_eq b low)) [
  | inl t ↦ inr (
    ground arith,
    record {
      before = [];
      twin = low;
      after = rest;
      split = ap (λ x. low ∷ x ∷ rest) (asset_eq-eq b low t);
    },
  )
  | inr f ↦ elim (check_neighbours_lem b rest) [
    | inl (e, n) ↦ inl (ground arith, no_twins_more low b rest f n)
    | inr (e, t) ↦ inr (
      ground arith,
      record {
        before = low ∷ t.before;
        twin = t.twin;
        after = t.after;
        split = ap (λ x. low ∷ x) t.split;
      },
    )
  ]
]

-- The check panics on no assets. Otherwise it refuses the assets as duplicated exactly where one of
-- them stands twice in a row with the same amount, and lets all others pass.
pub check_duplicates_lem :
    (assets : List Asset)
    → ((assets ≡ []) × (check_duplicates assets ≡ panic))
      ⊎ (((check_duplicates assets ≡ ok tt) × (HasTwins assets → ⊥))
          ⊎ ((check_duplicates assets ≡ err duplicated_asset) × HasTwins assets))
unfolding check_duplicates
check_duplicates_lem [] = inl (refl, refl)
check_duplicates_lem (low ∷ rest) = inr (check_neighbours_lem low rest)
