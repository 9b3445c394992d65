-- ===== src/FeesCollector/Depth.antt =====
-- contracts/fees_collector: the messages of the swaps, and how deep they go.
use baz_core.Common.{
  ℕ, ◌+◌, ◌-◌, ◌<◌, ◌≡◌, not, ◌==◌, leb, inl, inr, Option, some, none, List, [], ◌∷◌, ◌++◌, ok,
  arith, Result, Bool-cases, subst, leb→lt, if_taken, if_skipped, Result-cases, >>=-eq-ok,
  try-eq-ok, fail_if-eq-ok, if◌then◌else◌,
}
use baz_core.Common.Words.{u64_mod, fit}
use baz_core.Common.Map.{Map, lookup}
use baz_core.Host.{Addr, Env, MessageInfo}
use baz_core.Assets.{AssetInfo, to_string, asset_info_eq}
use baz_core.FeesCollector.Defs.{
  Config, Deps, Store, Message, AssetWithLimit, pair_msg, asset_msg, distribute_fees_self,
  ContractError, swap_bridge_assets_self, std, uluna,
}
use baz_core.FeesCollector.Bridge.{try_build_swap_msg}
use baz_core.FeesCollector.Swap.{
  SwapTarget, msg_of, insert_target, limited, swap_to_uluna, swap_directly, swap_over, swap,
  swap_loop, swap_assets, is_empty, without_limit, swap_bridge_assets,
}

abbrev pub IsSwap : Message → Type 0
IsSwap (pair_msg _) = Unit {0}
IsSwap _ = ⊥

abbrev pub All : (Message → Type 0) → List Message → Type 0
All P [] = Unit {0}
All P (m ∷ ms) = P m × All P ms

All-append : (P : Message → Type 0) (xs ys : List Message) → All P xs → All P ys → All P (xs ++ ys)
All-append P [] ys h k = k
All-append P (x ∷ xs) ys h k = (h.0, All-append P xs ys h.1 k)

All-mono :
    (P Q : Message → Type 0) (xs : List Message) → ((m : Message) → P m → Q m) → All P xs → All Q xs
All-mono P Q [] f h = tt
All-mono P Q (x ∷ xs) f h = (f x h.0, All-mono P Q xs f h.1)

module _ (d : Deps) where
  build-IsSwap :
      (config : Config) (a b : AssetInfo) (n : ℕ) {m : Message}
      → try_build_swap_msg d config a b n ≡ ok m
      → IsSwap m
  unfolding try_build_swap_msg
  build-IsSwap config a b n h =
      let (p, _, e) = >>=-eq-ok (d.query_pair_info config.factory_contract a b) _ h in ground arith

  to_uluna-IsSwap :
      (config : Config) (a : AssetInfo) (n : ℕ) (target : SwapTarget)
      → swap_to_uluna d config a n ≡ ok target
      → IsSwap (msg_of d target)
  unfolding swap_to_uluna
  to_uluna-IsSwap config a n target h = elim (Bool-cases (asset_info_eq a uluna)) [
    | inl t ↦ ground arith
    | inr t ↦ elim (Result-cases (try_build_swap_msg d config a uluna n)) [
      | inl (m, e) ↦ let i = build-IsSwap config a uluna n e in ground arith
      | inr (inl (x, e)) ↦ ground arith
      | inr (inr e) ↦ ground arith
    ]
  ]

  directly-IsSwap :
      (config : Config) (a : AssetInfo) (n : ℕ) (target : SwapTarget)
      → swap_directly d config a n ≡ ok target
      → IsSwap (msg_of d target)
  unfolding swap_directly
  directly-IsSwap config a n target h =
      elim (Result-cases (try_build_swap_msg d config a config.stablecoin n)) [
        | inl (m, e) ↦ let i = build-IsSwap config a config.stablecoin n e in ground arith
        | inr (inl (x, e)) ↦ to_uluna-IsSwap config a n target (ground arith)
        | inr (inr e) ↦ ground arith
      ]

  swap_over-IsSwap :
      (o : Option AssetInfo) (config : Config) (a : AssetInfo) (n : ℕ) (target : SwapTarget)
      → swap_over d o config a n ≡ ok target
      → IsSwap (msg_of d target)
  unfolding swap_over
  swap_over-IsSwap none config a n target h = directly-IsSwap config a n target h
  swap_over-IsSwap (some b) config a n target h =
      let (m, e, h1) = try-eq-ok std (try_build_swap_msg d config a b n) _ h in
      let i = build-IsSwap config a b n e in ground arith

  swap-IsSwap :
      (s : Store) (a : AssetInfo) (n : ℕ) (target : SwapTarget)
      → swap d s a n ≡ ok target
      → IsSwap (msg_of d target)
  unfolding swap
  swap-IsSwap s a n target h =
      swap_over-IsSwap (lookup (to_string a) s.bridges) s.config a n target h

  swap_loop-IsSwap :
      (contract_addr : Addr) (s : Store) (assets : List AssetWithLimit) (m : Map AssetInfo)
      (messages : List Message) (m' : Map AssetInfo)
      → swap_loop d contract_addr s assets m ≡ ok (messages, m')
      → All IsSwap messages
  unfolding swap_loop
  swap_loop-IsSwap contract_addr s [] m messages m' h = ground arith
  swap_loop-IsSwap contract_addr s (a ∷ rest) m messages m' h =
      let (pool, _, h1) = try-eq-ok std (d.query_pool a.info contract_addr) _ h in
      elim (Bool-cases (limited a.limit pool == 0)) [
        | inl z ↦
            swap_loop-IsSwap contract_addr s rest m messages m'
              (if_taken (limited a.limit pool == 0) _ z h1)
        | inr z ↦
            let h2 = if_skipped (limited a.limit pool == 0) _ z h1 in
            let (target, e, h3) = >>=-eq-ok (swap d s a.info (limited a.limit pool)) _ h2 in
            let (r, k, h4) =
              >>=-eq-ok (swap_loop d contract_addr s rest (insert_target d target m)) _ h3 in
            let i = swap-IsSwap s a.info (limited a.limit pool) target e in
            let ih = swap_loop-IsSwap contract_addr s rest (insert_target d target m) r.0 r.1 k in
            ground arith
      ]

-- How many rounds of swaps a message still allows.
abbrev pub rounds_left : Message → ℕ
rounds_left (swap_bridge_assets_self assets depth) = 3 - depth
rounds_left _ = 0

-- The messages that a handler sends in round `depth`.
abbrev pub Descends : ℕ → Message → Type 0
Descends depth m = rounds_left m < 3 - depth

module _ (d : Deps) (env : Env) (info : MessageInfo) where
  IsSwap-Descends : (depth : ℕ) → depth < 3 → (m : Message) → IsSwap m → Descends depth m
  IsSwap-Descends depth lt (pair_msg _) h = ground arith
  IsSwap-Descends depth lt (asset_msg _) h = absurd h
  IsSwap-Descends depth lt (swap_bridge_assets_self _ _) h = absurd h
  IsSwap-Descends depth lt (distribute_fees_self _) h = absurd h

  swap_assets-IsSwap :
      (assets : List AssetWithLimit) (s : Store) (r : List Message × List AssetInfo)
      → swap_assets d env.contract s assets ≡ ok r
      → All IsSwap r.0
  unfolding swap_assets
  swap_assets-IsSwap assets s r h =
      let (x, k, h1) = >>=-eq-ok (swap_loop d env.contract s assets []) _ h in
      let i = swap_loop-IsSwap d env.contract s assets [] x.0 x.1 k in ground arith

  next_round :
      (depth next_depth : ℕ) (assets : List AssetInfo)
      → depth < 3
      → next_depth ≡ depth + 1
      → All
          (Descends depth)
          (if is_empty assets then [] else swap_bridge_assets_self assets next_depth ∷ [])
  next_round depth next_depth [] lt e = tt
  next_round depth next_depth (_ ∷ _) lt e = (omega arith, tt)

  sent_messages :
      {s s' : Store} {ms ms' : List Message}
      → Path (Result ContractError (Store × List Message)) (ok (s, ms)) (ok (s', ms'))
      → ms ≡ ms'
  sent_messages h = ground arith

  -- A round of swaps that succeeds was sent by the collector itself and changes nothing it stores;
  -- each message that it sends allows fewer rounds than it was allowed, so the rounds end.
  pub swap_bridge_assets-Descends :
      (assets : List AssetInfo) (depth : ℕ) (s s' : Store) (ms : List Message)
      → swap_bridge_assets d env info assets depth s ≡ ok (s', ms)
      → (info.sender ≡ env.contract) × (s' ≡ s) × All (Descends depth) ms
  unfolding swap_bridge_assets
  swap_bridge_assets-Descends [] depth s s' ms h =
      let (t, h1) = fail_if-eq-ok (not (info.sender == env.contract)) _ _ h in ground arith
  swap_bridge_assets-Descends (a ∷ rest) depth s s' ms h =
      let (t, h1) = fail_if-eq-ok (not (info.sender == env.contract)) _ _ h in
      let (l, h2) = fail_if-eq-ok (leb 3 depth) _ _ h1 in
      let (r, k, h3) = >>=-eq-ok (swap_assets d env.contract s (without_limit (a ∷ rest))) _ h2 in
      let (n, h4) = fail_if-eq-ok (is_empty r.0) _ _ h3 in
      let (next_depth, f, h5) = >>=-eq-ok (fit {E = ContractError} u64_mod (depth + 1)) _ h4 in
      let swaps = swap_assets-IsSwap (without_limit (a ∷ rest)) s r k in
      let lt = leb→lt 3 depth l in
      (
        ground arith,
        ground arith,
        subst (All (Descends depth)) (sent_messages h5) (
            All-append (Descends depth) r.0 _
              (All-mono IsSwap (Descends depth) r.0 (IsSwap-Descends depth lt) swaps)
              (next_round depth next_depth r.1 lt (ground arith))),
      )
