-- ===== src/Common/Map.antt =====
-- A `cw_storage_plus::Map` keyed by an address, as an association list: `lookup` is `may_load`,
-- `insert` is `save`. The order of the entries is not meant.
use Prim.Native.Nat.{ℕ, ◌+◌, ◌≤◌}
use mathlib.Core.Path.{◌≡◌, refl}
use mathlib.Core.Logic.{◌≢◌}
use mathlib.Core.Option.{Option, none, some}
use mathlib.Core.List.{List, [], ◌∷◌}
use native.Mathlib.Omega.{arith}
use baz_core.Common.Tests.{◌==◌, if◌then◌else◌}

abbrev pub Map : Type 0 → Type 0
Map V = List (ℕ × V)

module _ {V : Type 0} where
  abbrev pub lookup : ℕ → Map V → Option V
  lookup k [] = none
  lookup k ((j, v) ∷ m) = if k == j then some v else lookup k m

  abbrev pub insert : ℕ → V → Map V → Map V
  insert k v [] = (k, v) ∷ []
  insert k v (e ∷ m) = if k == e.0 then (k, v) ∷ m else e ∷ insert k v m

  abbrev pub remove : ℕ → Map V → Map V
  remove k [] = []
  remove k (e ∷ m) = if k == e.0 then m else e ∷ remove k m

  -- No key stands twice.
  abbrev pub IsMap : Map V → Type 0
  IsMap [] = Unit
  IsMap ((k, v) ∷ m) = (lookup k m ≡ none) × IsMap m

  -- The sum of `f` over all values.
  abbrev pub sum_by : (V → ℕ) → Map V → ℕ
  sum_by f [] = 0
  sum_by f ((k, v) ∷ m) = f v + sum_by f m

  -- The part of the sum that stands at the key `k`.
  abbrev pub at_key : (V → ℕ) → Option V → ℕ
  at_key f none = 0
  at_key f (some v) = f v

  pub lookup-insert_self : (k : ℕ) (v : V) (m : Map V) → lookup k (insert k v m) ≡ some v
  lookup-insert_self k v [] = ground arith
  lookup-insert_self k v (e ∷ m) = ground (arith, lookup-insert_self k v m)

  pub lookup-insert_ne :
      (j k : ℕ) (v : V) (m : Map V) → j ≢ k → lookup j (insert k v m) ≡ lookup j m
  lookup-insert_ne j k v [] h = ground arith
  lookup-insert_ne j k v (e ∷ m) h = ground (arith, lookup-insert_ne j k v m h)

  pub lookup-insert :
      (j k : ℕ) (v : V) (m : Map V)
      → lookup j (insert k v m) ≡ (if j == k then some v else lookup j m)
  lookup-insert j k v [] = ground arith
  lookup-insert j k v (e ∷ m) = ground (arith, lookup-insert j k v m)

  pub lookup-remove_ne : (j k : ℕ) (m : Map V) → j ≢ k → lookup j (remove k m) ≡ lookup j m
  lookup-remove_ne j k [] h = refl
  lookup-remove_ne j k (e ∷ m) h = ground (arith, lookup-remove_ne j k m h)

  pub lookup-remove_self : (k : ℕ) (m : Map V) → IsMap m → lookup k (remove k m) ≡ none
  lookup-remove_self k [] h = refl
  lookup-remove_self k (e ∷ m) h = ground (arith, lookup-remove_self k m h.1)

  pub insert-IsMap : (k : ℕ) (v : V) (m : Map V) → IsMap m → IsMap (insert k v m)
  insert-IsMap k v [] h = (refl, tt)
  insert-IsMap k v (e ∷ m) h = ground (arith, insert-IsMap k v m h.1, lookup-insert_ne e.0 k v m)

  pub remove-IsMap : (k : ℕ) (m : Map V) → IsMap m → IsMap (remove k m)
  remove-IsMap k [] h = tt
  remove-IsMap k (e ∷ m) h = ground (arith, remove-IsMap k m h.1, lookup-remove_ne e.0 k m)

  pub sum_by-insert :
      (f : V → ℕ) (k : ℕ) (v : V) (m : Map V)
      → sum_by f (insert k v m) + at_key f (lookup k m) ≡ sum_by f m + f v
  sum_by-insert f k v [] = omega arith
  sum_by-insert f k v (e ∷ m) = ground (arith, sum_by-insert f k v m)

  pub sum_by-remove :
      (f : V → ℕ) (k : ℕ) (m : Map V) → sum_by f (remove k m) + at_key f (lookup k m) ≡ sum_by f m
  sum_by-remove f k [] = omega arith
  sum_by-remove f k (e ∷ m) = ground (arith, sum_by-remove f k m)

  -- What stands at one key is a part of the whole.
  pub at_key-le-sum_by : (f : V → ℕ) (k : ℕ) (m : Map V) → at_key f (lookup k m) ≤ sum_by f m
  at_key-le-sum_by f k [] = omega arith
  at_key-le-sum_by f k (e ∷ m) = ground (arith, at_key-le-sum_by f k m)

  -- A sum of smaller parts is smaller.
  pub sum_by_mono : (f g : V → ℕ) (m : Map V) → ((v : V) → f v ≤ g v) → sum_by f m ≤ sum_by g m
  sum_by_mono f g [] le = omega arith
  sum_by_mono f g ((k, v) ∷ m) le =
      let here = le v in let rest = sum_by_mono f g m le in omega arith
