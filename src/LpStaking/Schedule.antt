-- ===== src/LpStaking/Schedule.antt =====
-- `assert_new_schedules` of contracts/lp_staking/src/contract.rs. The two `BTreeMap`s count the
-- slots in 32 bits; their order is not meant, since every error of the two loops is the same.
use baz_core.Common.{
  ℕ, ◌+◌, List, [], ◌∷◌, Bool, ◌&&◌, ltb, leb, ◌==◌, if◌then◌else◌, Result, ok, panic, ◌>>=◌, ◌>>◌,
  fail_if, length,
}
use baz_core.Common.Words.{u32_mod, fit, sub}
use baz_core.Cosmwasm.{StdResult}
use baz_core.LpStaking.Defs.{
  Slot, Config, State, ContractError, try, invalid_distribution_schedule,
  distribution_schedule_started,
}

unfoldable pub slot_eq : Slot → Slot → Bool
slot_eq a b = a.0 == b.0 && a.1 == b.1 && a.2 == b.2

abbrev pub Counts : Type 0
Counts = List (Slot × ℕ)

-- `*counts.get(&schedule).unwrap_or(&0u32)`
unfoldable pub get : Slot → Counts → ℕ
get s [] = 0
get s ((k, n) ∷ m) = if slot_eq s k then n else get s m

-- `*counts.entry(schedule).or_insert(0) += 1`
unfoldable pub tally : Slot → Counts → StdResult Counts
tally s [] = ok ((s, 1) ∷ [])
tally s ((k, n) ∷ m) = do
  rest ← if slot_eq s k then ok m else tally s m
  n' ← if slot_eq s k then fit u32_mod (n + 1) else ok n
  ok ((k, n') ∷ rest)

unfoldable pub tally_all : List Slot → Counts → StdResult Counts
tally_all [] m = ok m
tally_all (s ∷ rest) m = do m' ← tally s m; tally_all rest m'

-- `*counts.get_mut(&schedule).unwrap() -= count`
unfoldable pub deduct : Slot → ℕ → Counts → StdResult Counts
deduct s count [] = panic
deduct s count ((k, n) ∷ m) = do
  rest ← if slot_eq s k then ok m else deduct s count m
  n' ← if slot_eq s k then sub n count else ok n
  ok ((k, n') ∷ rest)

-- the body of the loop over `existing_counts`
unfoldable pub check_existing_slot : ℕ → Slot → ℕ → Counts → Result ContractError Counts
check_existing_slot last_distributed schedule count new_counts =
    if leb schedule.0 last_distributed
    then (do
      fail_if (ltb (get schedule new_counts) count) distribution_schedule_started
      try (deduct schedule count new_counts))
    else ok new_counts

unfoldable pub check_existing : ℕ → Counts → Counts → Result ContractError Counts
check_existing last_distributed [] new_counts = ok new_counts
check_existing last_distributed ((schedule, count) ∷ rest) new_counts = do
  next ← check_existing_slot last_distributed schedule count new_counts
  check_existing last_distributed rest next

-- the loop over what is left of `new_counts`
unfoldable pub check_added : ℕ → Counts → Result ContractError (Unit {0})
check_added last_distributed [] = ok tt
check_added last_distributed ((schedule, count) ∷ rest) = do
  fail_if (ltb 0 count && leb schedule.0 last_distributed) distribution_schedule_started
  check_added last_distributed rest

unfoldable pub assert_new_schedules : Config → State → List Slot → Result ContractError (Unit {0})
assert_new_schedules config state distribution_schedule = do
  fail_if (ltb (length distribution_schedule) (length config.distribution_schedule))
      invalid_distribution_schedule
  existing_counts ← try (tally_all config.distribution_schedule [])
  new_counts ← try (tally_all distribution_schedule [])
  left ← check_existing state.last_distributed existing_counts new_counts
  check_added state.last_distributed left
