-- ===== src/LpStaking/Counting.antt =====
-- The counting maps of `assert_new_schedules` count.
use baz_core.Common.{
  ℕ, ◌+◌, ◌-◌, ◌≤◌, ◌<◌, ◌≡◌, inl, inr, List, [], ◌∷◌, Bool, true, false, ◌||◌, ok, arith, refl,
  Bool-cases, if◌then◌else◌, length, ap,
}
use baz_core.Common.Words.{u32_mod}
use baz_core.LpStaking.Defs.{Slot}
use baz_core.LpStaking.Schedule.{slot_eq, Counts, get, tally, tally_all, deduct}

pub slot_eq-≡ : (a b : Slot) → slot_eq a b ≡ true → a ≡ b
unfolding slot_eq
slot_eq-≡ a b h = ground arith

pub slot_eq_self : (a : Slot) → slot_eq a a ≡ true
unfolding slot_eq
slot_eq_self a = ground arith

-- How often a slot stands in a schedule.
pub count : Slot → List Slot → ℕ
count s [] = 0
count s (x ∷ xs) = (if slot_eq s x then 1 else 0) + count s xs

-- The slot is a key.
pub has : Slot → Counts → Bool
has s [] = false
has s ((k, n) ∷ m) = slot_eq s k || has s m

abbrev pub IsDistinct : Counts → Type 0
IsDistinct [] = Unit
IsDistinct ((k, n) ∷ m) = (has k m ≡ false) × IsDistinct m

abbrev pub IsPositive : Counts → Type 0
IsPositive [] = Unit
IsPositive ((k, n) ∷ m) = (0 < n) × IsPositive m

pub get_absent : (s : Slot) (m : Counts) → has s m ≡ false → get s m ≡ 0
unfolding get has
get_absent s [] h = refl
get_absent s ((k, n) ∷ m) h = ground (arith, get_absent s m)

pub has_of_pos : (s : Slot) (m : Counts) → 0 < get s m → has s m ≡ true
unfolding get has
has_of_pos s [] h = absurd (omega arith)
has_of_pos s ((k, n) ∷ m) h = ground (arith, has_of_pos s m)

-- Equal slots are the same key.
pub slot_eq_same : (t s k : Slot) → slot_eq s k ≡ true → slot_eq t s ≡ slot_eq t k
slot_eq_same t s k h = ap (slot_eq t) (slot_eq-≡ s k h)

pub slot_eq_sym : (s t : Slot) → slot_eq s t ≡ slot_eq t s
unfolding slot_eq
slot_eq_sym s t = ground arith

-- `m'` counts the slot `s` once more than `m`.
pub record Tallies (s : Slot) (m m' : Counts) : Type 0 where
  pub distinct : IsDistinct m'
  pub positive : IsPositive m'
  pub keys : (t : Slot) → has t m' ≡ (slot_eq t s || has t m)
  pub counts : (t : Slot) → get t m' ≡ get t m + (if slot_eq t s then 1 else 0)

tally-Tallies :
    (s : Slot) (m : Counts)
    → IsDistinct m
    → IsPositive m
    → get s m + 1 < u32_mod
    → (m' : Counts) × (tally s m ≡ ok m') × Tallies s m m'
unfolding tally get has
tally-Tallies s [] d p h = (
  (s, 1) ∷ [],
  refl,
  record {
    distinct = (refl, tt);
    positive = (omega arith, tt);
    keys = λ t. ground arith;
    counts = λ t. ground arith;
  },
)
tally-Tallies s ((k, n) ∷ m) d p h = elim (Bool-cases (slot_eq s k)) [
  | inl e ↦ (
    (k, n + 1) ∷ m,
    ground arith,
    record {
      distinct = d;
      positive = (omega arith, p.1);
      keys = λ t. ground (arith, slot_eq_same t s k e);
      counts = λ t. ground (arith, slot_eq_same t s k e);
    },
  )
  | inr e ↦
      let (m', q, w) = tally-Tallies s m d.1 p.1 (ground arith) in
      (
        (k, n) ∷ m',
        ground arith,
        record {
          distinct = (ground (arith, w.keys k, slot_eq_sym s k), w.distinct);
          positive = (p.0, w.positive);
          keys = λ t. ground (arith, w.keys t);
          counts = λ t.
              ground
                (arith, w.counts t, slot_eq-≡ t k, slot_eq-≡ t s, slot_eq_self k, slot_eq_self s);
        },
      )
]

-- `tally_all` counts a whole schedule, if 32 bits hold every count.
pub tally_all-counts :
    (xs : List Slot) (m : Counts) (bound : ℕ)
    → IsDistinct m
    → IsPositive m
    → ((t : Slot) → get t m ≤ bound)
    → bound + length xs < u32_mod
    → (m' : Counts) × (tally_all xs m ≡ ok m')
      × IsDistinct m'
      × IsPositive m'
      × ((t : Slot) → get t m' ≡ get t m + count t xs)
unfolding tally_all count
tally_all-counts [] m bound d p b fits = (m, refl, d, p, λ t. omega arith)
tally_all-counts (x ∷ xs) m bound d p b fits =
    let (m1, e, w) = tally-Tallies x m d p (omega (arith, b x)) in
    let (m', q, d', p', counts) =
      tally_all-counts xs m1 (bound + 1) w.distinct w.positive
        (λ t. ground (arith, b t, w.counts t)) (omega arith) in
    (m', rw e q, d', p', λ t. ground (arith, counts t, w.counts t))

-- `m'` counts the slot `s` less by `n` than `m`.
pub record Deducts (s : Slot) (n : ℕ) (m m' : Counts) : Type 0 where
  pub distinct : IsDistinct m'
  pub keys : (t : Slot) → has t m' ≡ has t m
  pub counts : (t : Slot) → get t m' ≡ (if slot_eq t s then get t m - n else get t m)

-- The `unwrap` of `get_mut` meets the key, and the subtraction does not wrap.
pub deduct-Deducts :
    (s : Slot) (n : ℕ) (m : Counts)
    → IsDistinct m
    → 0 < n
    → n ≤ get s m
    → (m' : Counts) × (deduct s n m ≡ ok m') × Deducts s n m m'
unfolding deduct get has
deduct-Deducts s n [] d pos h = absurd (omega arith)
deduct-Deducts s n ((k, j) ∷ m) d pos h = elim (Bool-cases (slot_eq s k)) [
  | inl e ↦ (
    (k, j - n) ∷ m,
    ground arith,
    record { distinct = d; keys = λ t. refl; counts = λ t. ground (arith, slot_eq_same t s k e) },
  )
  | inr e ↦
      let (m', q, w) = deduct-Deducts s n m d.1 pos (ground arith) in
      (
        (k, j) ∷ m',
        ground arith,
        record {
          distinct = (ground (arith, w.keys k), w.distinct);
          keys = λ t. ground (arith, w.keys t);
          counts = λ t.
              ground
                (arith, w.counts t, slot_eq-≡ t k, slot_eq-≡ t s, slot_eq_self k, slot_eq_self s);
        },
      )
]
