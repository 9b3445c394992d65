-- ===== src/FeesCollector/Payout.antt =====
-- contracts/fees_collector: the distribution of the stablecoin.
use baz_core.Common.{
  ℕ, suc, ◌+◌, ◌*◌, ◌/◌, ◌≤◌, ◌<◌, ◌≡◌, ◌==◌, refl, sym, subst, inl, inr, Bool-cases, ltb, ltb→lt,
  ltb→le, Option, none, some, List, [], ◌∷◌, length, ok, arith,
}
use baz_core.Common.Arith.{div-le, mul_le, mul_le_mul, le_of_mul_le}
use baz_core.Common.Words.{u64_mod, u128_mod}
use baz_core.Cosmwasm.{Cosmwasm, IsDocumented, floor_ratio}
use baz_core.Cosmwasm.Standard.{standard, at_standard}
use baz_core.Host.{Addr, Env}
use baz_core.Assets.{
  AssetInfo, AssetMsg, token, native_token, transfer, bank_send, transfer_info, transfer_msg,
}
use baz_core.FeesCollector.Defs.{Config, Deps, Message, asset_msg}
use baz_core.FeesCollector.Swap.{sum_weights, shares, check_minimum_receive, distribute}

-- A message that sends a positive amount of the asset, and the amount.
abbrev pub IsPayment : AssetInfo → Message → Type 0
IsPayment info m =
    (to : Addr) × (amount : ℕ) × (0 < amount)
    × (m ≡ asset_msg (transfer_msg (record { info = info; amount = amount }) to))

abbrev pub ArePayments : AssetInfo → List Message → Type 0
ArePayments info [] = Unit {0}
ArePayments info (m ∷ ms) = IsPayment info m × ArePayments info ms

abbrev pub sent_amount : AssetMsg → ℕ
sent_amount (transfer contract_addr recipient amount) = amount
sent_amount (bank_send recipient coin) = coin.amount
sent_amount _ = 0

abbrev pub sent : List Message → ℕ
sent [] = 0
sent (asset_msg m ∷ ms) = sent_amount m + sent ms
sent (_ ∷ ms) = sent ms

abbrev pub weights : List (Addr × ℕ) → ℕ
weights [] = 0
weights ((_, weight) ∷ rest) = weight + weights rest

sent_amount-transfer :
    (info : AssetInfo) (amount : ℕ) (to : Addr)
    → sent_amount (transfer_info info amount to) ≡ amount
unfolding transfer_info
sent_amount-transfer (token _) amount to = refl
sent_amount-transfer (native_token _) amount to = refl

floor_ratio_fits : (t w d : ℕ) → 0 < d → w ≤ d → t < u128_mod → floor_ratio t w d ≡ ok ((t * w) / d)
floor_ratio_fits t w d pos le lt =
    let q = div-le t (t * w) d pos (mul_le_mul t t w d (omega arith) le) in ground arith

-- One share and the remainder that it leaves.
share_bounds : (x d : ℕ) → 0 < d → ((x / d) * d ≤ x) × (x < (x / d) * d + d)
share_bounds x d pos = omega arith

-- The bounds with one share more.
add_share :
    (q t w v s n total : ℕ)
    → q * total ≤ t * w
    → t * w < q * total + total
    → s * total ≤ t * v
    → t * v + n ≤ s * total + n * total
    → ((q + s) * total ≤ t * (w + v)) × (t * (w + v) + suc n ≤ (q + s) * total + suc n * total)
add_share q t w v s n total a b c d = (omega arith, omega arith)

module _ (d : Deps) (info : AssetInfo) where
  sum_weights-standard :
      (targets : List (Addr × ℕ))
      → weights targets < u64_mod
      → sum_weights standard d targets ≡ ok (weights targets)
  unfolding sum_weights
  sum_weights-standard [] h = refl
  sum_weights-standard ((_, w) ∷ rest) h =
      let ih = sum_weights-standard rest (omega arith) in ground arith

  -- The shares of some of the targets, times the total weight.
  record Shared (targets : List (Addr × ℕ)) (t total : ℕ) : Type 0 where
    messages : List Message
    shared : shares standard d info targets t total ≡ ok messages
    are_payments : ArePayments info messages
    at_most : sent messages * total ≤ t * weights targets
    at_least : t * weights targets + length targets ≤ sent messages * total + length targets * total

  shares-Shared :
      (targets : List (Addr × ℕ)) (t total : ℕ)
      → 0 < total
      → weights targets ≤ total
      → t < u128_mod
      → Shared targets t total
  unfolding shares
  shares-Shared [] t total pos le lt = record {
    messages = [];
    shared = refl;
    are_payments = tt;
    at_most = omega arith;
    at_least = omega arith;
  }
  shares-Shared ((to, w) ∷ rest) t total pos le lt =
      let r = shares-Shared rest t total pos (omega arith) lt in
      let e = floor_ratio_fits t w total pos (omega arith) lt in
      let (lo, hi) = share_bounds (t * w) total pos in
      let (most, least) =
        add_share ((t * w) / total) t w (weights rest) (sent r.messages) (length rest) total lo hi
          r.at_most r.at_least in
      elim (Bool-cases (((t * w) / total) == 0)) [
        | inl z ↦ record {
          messages = r.messages;
          shared = let rs = r.shared in ground arith;
          are_payments = r.are_payments;
          at_most = ground arith;
          at_least = ground arith;
        }
        | inr z ↦ record {
          messages =
              asset_msg (transfer_msg (record { info = info; amount = (t * w) / total }) to)
              ∷ r.messages;
          shared = let rs = r.shared in ground arith;
          are_payments = ((to, (t * w) / total, ground arith, refl), r.are_payments);
          at_most =
              subst (λ q. (q + sent r.messages) * total ≤ t * (w + weights rest))
                (sym (sent_amount-transfer info ((t * w) / total) to)) most;
          at_least =
              subst
                (λ q.
                  t * (w + weights rest) + suc (length rest)
                  ≤ (q + sent r.messages) * total + suc (length rest) * total)
                (sym (sent_amount-transfer info ((t * w) / total) to)) least;
        }
      ]

-- The minimum is met.
abbrev pub Meets : ℕ → Option ℕ → Type 0
Meets amount none = Unit {0}
Meets amount (some minimum_receive) = minimum_receive ≤ amount

length_positive : (targets : List (Addr × ℕ)) → 0 < weights targets → 0 < length targets
length_positive [] pos = pos
length_positive (_ ∷ rest) pos = omega arith

minimum_met :
    (d : Deps) (minimum_receive : Option ℕ) (t : ℕ)
    → Meets t minimum_receive
    → check_minimum_receive standard d minimum_receive t ≡ ok tt
unfolding check_minimum_receive
minimum_met d none t h = refl
minimum_met d (some minimum_receive) t h = ground arith

-- Less than one unit per target is left.
left_over : (t s n total : ℕ) → 0 < n → t * total + n ≤ s * total + n * total → t < s + n
left_over t s n total pos h = elim (Bool-cases (ltb t (s + n))) [
  | inl lt ↦ ltb→lt t (s + n) lt
  | inr le ↦ let m = mul_le (s + n) t total (ltb→le t (s + n) le) in absurd (omega arith)
]

module _ (d : Deps) (env : Env) (config : Config) (minimum_receive : Option ℕ) (t : ℕ) where
  distribute-standard :
      d.query_pool config.stablecoin env.contract ≡ ok t
      → t < u128_mod
      → 0 < weights config.target_list
      → weights config.target_list < u64_mod
      → Meets t minimum_receive
      → (messages : List Message) × (distribute standard d env config minimum_receive ≡ ok messages)
        × ArePayments config.stablecoin messages
        × (sent messages ≤ t)
        × (t < sent messages + length config.target_list)
  unfolding distribute check_minimum_receive
  distribute-standard h lt pos fits meets =
      let total = weights config.target_list in
      let e = sum_weights-standard d config.stablecoin config.target_list fits in
      let r = shares-Shared d config.stablecoin config.target_list t total pos (omega arith) lt in
      let n = length_positive config.target_list pos in
      let m = minimum_met d minimum_receive t meets in
      elim (Bool-cases (t == 0)) [
        | inl z ↦ ([], ground arith, tt, omega arith, ground arith)
        | inr z ↦ (
          r.messages,
          (let rs = r.shared in ground arith),
          r.are_payments,
          le_of_mul_le (sent r.messages) t total pos r.at_most,
          left_over t (sent r.messages) (length config.target_list) total n r.at_least,
        )
      ]

-- Where the collector's balance of the stablecoin reaches the minimum, and the weights of the
-- targets have a positive sum below 2^64, the distribution succeeds. It sends only positive amounts
-- of the stablecoin, together at most the balance, and leaves less than one unit per target.
pub distribute_pays :
    (c : Cosmwasm)
    → IsDocumented c
    → (d : Deps) (env : Env) (config : Config) (minimum_receive : Option ℕ) (t : ℕ)
    → d.query_pool config.stablecoin env.contract ≡ ok t
    → t < u128_mod
    → 0 < weights config.target_list
    → weights config.target_list < u64_mod
    → Meets t minimum_receive
    → (messages : List Message) × (distribute c d env config minimum_receive ≡ ok messages)
      × ArePayments config.stablecoin messages
      × (sent messages ≤ t)
      × (t < sent messages + length config.target_list)
distribute_pays = at_standard _ distribute-standard
