-- ===== src/LpStaking/Rewards.antt =====
-- What `compute_reward` and `compute_staker_reward` give out.
use baz_core.Common.{
  ℕ, ◌+◌, ◌-◌, ◌*◌, ◌/◌, ◌≤◌, ◌<◌, ◌≡◌, ◌≢◌, ◌⊎◌, List, [], ◌∷◌, min, max, ok, arith, >>=-eq-ok,
}
use baz_core.Common.Arith.{mul_le, div-mul-le, le-div, div-le}
use baz_core.Cosmwasm.{Cosmwasm, IsDocumented, decimal_one}
use baz_core.Cosmwasm.Standard.{standard, at_standard}
use baz_core.LpStaking.Defs.{Slot, distribute_slot, distribute}

-- The seconds of a slot that lie between two times.
abbrev overlap : ℕ → ℕ → Slot → ℕ
overlap time last s = min s.1 time - max s.0 last

-- What a slot pays per second, as a decimal, and over an interval.
abbrev rate : Slot → ℕ
rate s = s.2 * decimal_one / (s.1 - s.0)

abbrev slot_amount : ℕ → ℕ → Slot → ℕ
slot_amount time last s = overlap time last s * rate s / decimal_one

abbrev total_amount : ℕ → ℕ → List Slot → ℕ
total_amount time last [] = 0
total_amount time last (s ∷ rest) = slot_amount time last s + total_amount time last rest

-- The sum of the amounts of a schedule.
abbrev pub amounts : List Slot → ℕ
amounts [] = 0
amounts (s ∷ rest) = s.2 + amounts rest

zero_over : (d : ℕ) → 0 / d ≡ 0
zero_over d = grind arith

-- A slot that is passed over pays what the formula gives, nothing.
skipped :
    (time last : ℕ) (s : Slot)
    → (time < s.0) ⊎ (s.1 < last)
    → last ≤ time
    → slot_amount time last s ≡ 0
skipped time last s h o = let e : overlap time last s ≡ 0 = omega arith in rw e (grind arith)

distribute_slot-value :
    (time last : ℕ) (s : Slot) (acc : ℕ) {d : ℕ}
    → last ≤ time
    → distribute_slot standard time last s acc ≡ ok d
    → d ≡ acc + slot_amount time last s
unfolding distribute_slot
distribute_slot-value time last s acc o h = ground (arith, skipped time last s)

distribute-value :
    (time last : ℕ) (slots : List Slot) (acc : ℕ) {d : ℕ}
    → last ≤ time
    → distribute standard time last slots acc ≡ ok d
    → d ≡ acc + total_amount time last slots
unfolding distribute
distribute-value time last [] acc o h = ground arith
distribute-value time last (s ∷ rest) acc o h =
    let (next, first, later) = >>=-eq-ok (distribute_slot standard time last s acc) _ h in
    omega (
      arith,
      distribute_slot-value time last s acc o first,
      distribute-value time last rest next o later,
    )

-- Rounding down loses, so two quotients sum to at most the quotient of the sum.
div_add_le : (a b d : ℕ) → 0 < d → a / d + b / d ≤ (a + b) / d
div_add_le a b d pos =
    le-div (a / d + b / d) (a + b) d pos (grind (arith, div-mul-le a d, div-mul-le b d))

split_products : (x y z r d : ℕ) → 0 < d → x + y ≡ z → x * r / d + y * r / d ≤ z * r / d
split_products x y z r d pos e =
    rw (← e) (let h = div_add_le (x * r) (y * r) d pos in grind (arith, h))

whole_product : (o span a d : ℕ) → 0 < d → o ≤ span → o * (a * d / span) / d ≤ a
whole_product o span a d pos h =
    div-le a (o * (a * d / span)) d pos
      (grind (arith, mul_le o span (a * d / span) h, div-mul-le (a * d) span))

slot_amount_split :
    (t0 t1 t2 : ℕ) (s : Slot)
    → t0 ≤ t1
    → t1 ≤ t2
    → slot_amount t1 t0 s + slot_amount t2 t1 s ≤ slot_amount t2 t0 s
slot_amount_split t0 t1 t2 s h k =
    split_products (overlap t1 t0 s) (overlap t2 t1 s) (overlap t2 t0 s) (rate s) decimal_one
      (omega arith) (omega arith)

slot_amount-le : (time last : ℕ) (s : Slot) → slot_amount time last s ≤ s.2
slot_amount-le time last s =
    whole_product (overlap time last s) (s.1 - s.0) s.2 decimal_one (omega arith) (omega arith)

total_amount_split :
    (t0 t1 t2 : ℕ) (slots : List Slot)
    → t0 ≤ t1
    → t1 ≤ t2
    → total_amount t1 t0 slots + total_amount t2 t1 slots ≤ total_amount t2 t0 slots
total_amount_split t0 t1 t2 [] h k = omega arith
total_amount_split t0 t1 t2 (s ∷ rest) h k =
    omega (arith, slot_amount_split t0 t1 t2 s h k, total_amount_split t0 t1 t2 rest h k)

total_amount-le : (time last : ℕ) (slots : List Slot) → total_amount time last slots ≤ amounts slots
total_amount-le time last [] = omega arith
total_amount-le time last (s ∷ rest) =
    omega (arith, slot_amount-le time last s, total_amount-le time last rest)

-- The schedule distributes no more than its amounts over any interval, and no more in two steps
-- than in one: calling the contract more often earns nothing.
pub distribute_split :
    (c : Cosmwasm)
    → IsDocumented c
    → (slots : List Slot) (t0 t1 t2 d1 d2 d : ℕ) → t0 ≤ t1
    → t1 ≤ t2
    → distribute c t1 t0 slots 0 ≡ ok d1
    → distribute c t2 t1 slots 0 ≡ ok d2
    → distribute c t2 t0 slots 0 ≡ ok d
    → (d1 + d2 ≤ d) × (d ≤ amounts slots)
distribute_split = at_standard _ λ slots t0 t1 t2 d1 d2 d h k e1 e2 e. (
  omega (
    arith,
    distribute-value t1 t0 slots 0 h e1,
    distribute-value t2 t1 slots 0 k e2,
    distribute-value t2 t0 slots 0 (omega arith) e,
    total_amount_split t0 t1 t2 slots h k,
  ),
  omega (arith, distribute-value t2 t0 slots 0 (omega arith) e, total_amount-le t2 t0 slots),
)

pub distribute_slot_degenerate :
    (time last : ℕ) (s : Slot) (acc d : ℕ)
    → s.1 ≤ s.0
    → s.0 ≤ time
    → last ≤ s.1
    → distribute_slot standard time last s acc ≢ ok d
unfolding distribute_slot
distribute_slot_degenerate time last s acc d h k o e = ground arith
