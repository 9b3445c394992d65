-- ===== src/LpStaking/Replacement.antt =====
-- When a new schedule is accepted.
use baz_core.Common.{
  ℕ, ◌+◌, ◌≤◌, ◌<◌, ◌≡◌, ◌≢◌, ◌⊎◌, inl, inr, List, [], ◌∷◌, ◌&&◌, ok, err, arith, refl, Bool-cases,
  length, ltb, leb,
}
use baz_core.Common.Words.{u32_mod}
use baz_core.LpStaking.Defs.{
  Slot, Config, State, invalid_distribution_schedule, distribution_schedule_started,
}
use baz_core.LpStaking.Schedule.{
  Counts, get, tally_all, check_existing_slot, check_existing, check_added, assert_new_schedules,
}
use baz_core.LpStaking.Counting.{
  slot_eq-≡, slot_eq_self, count, IsDistinct, IsPositive, get_absent, tally_all-counts, Deducts,
  deduct-Deducts,
}

-- What the loop over the existing counts comes to: a started slot that the new schedule holds too
-- rarely, or the new counts less the existing ones at every started slot.
abbrev ExistingChecked : ℕ → Counts → Counts → Type 0
ExistingChecked last old new =
    ((t : Slot) × (t.0 ≤ last)
      × (get t new < get t old)
      × (check_existing last old new ≡ err distribution_schedule_started))
    ⊎ ((left : Counts) × (check_existing last old new ≡ ok left)
        × IsDistinct left
        × ((t : Slot) → t.0 ≤ last → get t left + get t old ≡ get t new))

head_started :
    (last : ℕ) (k : Slot) (n : ℕ) (old new next : Counts)
    → IsDistinct ((k, n) ∷ old)
    → n ≤ get k new
    → Deducts k n new next
    → check_existing last ((k, n) ∷ old) new ≡ check_existing last old next
    → ExistingChecked last old next
    → ExistingChecked last ((k, n) ∷ old) new
unfolding get
head_started last k n old new next d h w e (inl (t, started, less, failed)) =
    inl (t, started, ground (arith, w.counts t, get_absent t old, slot_eq-≡ t k), rw e failed)
head_started last k n old new next d h w e (inr (left, done, distinct, counts)) = inr (
  left,
  rw e done,
  distinct,
  λ t started. ground (arith, counts t started, w.counts t, get_absent t old, slot_eq-≡ t k),
)

check_existing-ExistingChecked :
    (last : ℕ) (old new : Counts)
    → IsDistinct old
    → IsPositive old
    → IsDistinct new
    → ExistingChecked last old new
unfolding check_existing check_existing_slot get
check_existing-ExistingChecked last [] new d p q = inr (new, refl, q, λ t started. omega arith)
check_existing-ExistingChecked last ((k, n) ∷ old) new d p q = elim (Bool-cases (leb k.0 last)) [
  | inr later ↦ elim (check_existing-ExistingChecked last old new d.1 p.1 q) [
    | inl (t, started, less, failed) ↦
        inl (t, started, ground (arith, slot_eq-≡ t k), rw later failed)
    | inr (left, done, distinct, counts) ↦ inr (
      left,
      rw later done,
      distinct,
      λ t started. ground (arith, counts t started, slot_eq-≡ t k),
    )
  ]
  | inl begun ↦ elim (Bool-cases (ltb (get k new) n)) [
    | inl less ↦ inl (k, ground arith, ground (arith, slot_eq_self k), rw (begun, less))
    | inr enough ↦
        let (next, e, w) = deduct-Deducts k n new q p.0 (ground arith) in
        head_started last k n old new next d (ground arith) w (rw (begun, enough, e))
          (check_existing-ExistingChecked last old next d.1 p.1 w.distinct)
  ]
]

-- What the loop over the new slots comes to.
check_added-checked :
    (last : ℕ) (m : Counts)
    → IsDistinct m
    → ((check_added last m ≡ ok tt) × ((t : Slot) → t.0 ≤ last → get t m ≡ 0))
      ⊎ ((t : Slot) × (t.0 ≤ last)
          × (0 < get t m)
          × (check_added last m ≡ err distribution_schedule_started))
unfolding check_added get
check_added-checked last [] d = inl (refl, λ t _. refl)
check_added-checked last ((k, n) ∷ m) d = elim (Bool-cases (ltb 0 n && leb k.0 last)) [
  | inl bad ↦ inr (k, ground arith, ground (arith, slot_eq_self k), rw bad)
  | inr fine ↦ elim (check_added-checked last m d.1) [
    | inl (done, zero) ↦
        inl (rw fine done, λ t started. ground (arith, zero t started, slot_eq-≡ t k))
    | inr (t, started, pos, failed) ↦
        inr (t, started, ground (arith, slot_eq-≡ t k, get_absent t m), rw fine failed)
  ]
]

-- The count of a whole schedule.
counted :
    (xs : List Slot)
    → length xs < u32_mod
    → (m : Counts) × (tally_all xs [] ≡ ok m)
      × IsDistinct m
      × IsPositive m
      × ((t : Slot) → get t m ≡ count t xs)
unfolding get
counted xs h =
    let (m, e, d, p, c) = tally_all-counts xs [] 0 tt tt (λ t. omega arith) (omega arith) in
    (m, e, d, p, λ t. omega (arith, c t))

-- Two schedules that each have fewer than 2^32 slots: the new one is accepted where it is no
-- shorter and every slot that began by the last distribution stands in it exactly as often as
-- before. A shorter one is refused as `invalid_distribution_schedule`; one that adds, drops or
-- changes a slot that has begun, as `distribution_schedule_started`. No `unwrap` panics.
pub assert_new_schedules_lem :
    (config : Config) (state : State) (new : List Slot)
    → length config.distribution_schedule < u32_mod
    → length new < u32_mod
    → let old = config.distribution_schedule in
      let result = assert_new_schedules config state new in
      ((result ≡ ok tt)
        × (length old ≤ length new)
        × ((t : Slot) → t.0 ≤ state.last_distributed → count t new ≡ count t old))
      ⊎ ((result ≡ err invalid_distribution_schedule) × (length new < length old))
      ⊎ ((result ≡ err distribution_schedule_started)
          × (length old ≤ length new)
          × ((t : Slot) × (t.0 ≤ state.last_distributed) × (count t new ≢ count t old)))
unfolding assert_new_schedules
assert_new_schedules_lem config state new ho hn =
    let old = config.distribution_schedule in
    let last = state.last_distributed in
    let (olds, eo, do', po, co) = counted old ho in
    let (news, en, dn, pn, cn) = counted new hn in
    elim (Bool-cases (ltb (length new) (length old))) [
      | inl short ↦ inr (inl (rw short, ground arith))
      | inr long ↦ elim (check_existing-ExistingChecked last olds news do' po dn) [
        | inl (t, started, less, failed) ↦ inr (
            inr (
              rw (long, eo, en, failed),
              ground arith,
              (t, started, λ e. omega (arith, co t, cn t)),
            ))
        | inr (left, done, distinct, counts) ↦ elim (check_added-checked last left distinct) [
          | inl (fine, zero) ↦ inl (
            rw (long, eo, en, done) fine,
            ground arith,
            λ t started. omega (arith, counts t started, zero t started, co t, cn t),
          )
          | inr (t, started, pos, failed) ↦ inr (
              inr (
                rw (long, eo, en, done) failed,
                ground arith,
                (t, started, λ e. omega (arith, counts t started, co t, cn t)),
              ))
        ]
      ]
    ]
