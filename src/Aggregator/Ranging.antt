-- ===== src/Aggregator/Ranging.antt =====
-- The metrics of AVS/pkg/state/aggregator.go, and the order in which Go ranges over the chain states.
use mathlib.Core.List.Permᴰ
use mathlib.Core.List.{Permᴰ}
use sync_hook.Prelude.{
  ℕ, ◌≡◌, ◌≢◌, refl, sym, ◌∙◌, ap, ap₂, List, [], ◌∷◌, length, max, ℤ, pos, quot_ℤ, eq_ℤ, arith,
  Map, values, inl, inr, Bool-cases, returns, ◌>>=◌,
}
use sync_hook.Numeric.Order.{accumulate-permᴰ, length-permᴰ, map-permᴰ, values-permᴰ}
use sync_hook.Pool.{PoolState, GlobalPoolState}
use sync_hook.Aggregator.{
  liquidity, weighted_price, price_of, squared_diff, latest_block, recalculate_global_metrics,
}
use sync_hook.Aggregator.Recalculation.{
  total, average, spread, refreshed, recalculate-weighted, recalculate-weightless,
  recalculate-chainless,
}

latest_block-from : (k : ℕ) (ss : List PoolState) → latest_block k ss ≡ max k (latest_block 0 ss)
latest_block-from k [] = omega arith
latest_block-from k (s ∷ ss) =
    ground (arith, latest_block-from s.block_number ss, latest_block-from k ss)

latest_block-cons :
    (s : PoolState) (ss : List PoolState)
    → latest_block 0 (s ∷ ss) ≡ max s.block_number (latest_block 0 ss)
latest_block-cons s ss = ground (arith, latest_block-from s.block_number ss)

latest_block-permᴰ : {ss ts : List PoolState} → Permᴰ ss ts → latest_block 0 ss ≡ latest_block 0 ts
latest_block-permᴰ Permᴰ.nil = refl
latest_block-permᴰ (Permᴰ.cons {a} {b} {l₁} {l₂} e p) =
    latest_block-cons a l₁
    ∙ ap₂ (λ s n. max s n) (ap (λ (s : PoolState). s.block_number) e) (latest_block-permᴰ p)
    ∙ sym (latest_block-cons b l₂)
latest_block-permᴰ (Permᴰ.swap {a} {b} {a'} {b'} {l} e d) =
    rw (e, d)
      (omega (
        arith,
        latest_block-cons b' (a' ∷ l),
        latest_block-cons a' (b' ∷ l),
        latest_block-cons a' l,
        latest_block-cons b' l,
      ))
latest_block-permᴰ (Permᴰ.trans p q) = latest_block-permᴰ p ∙ latest_block-permᴰ q

module _ {ss ts : List PoolState} (p : Permᴰ ss ts) where
  pub total-permᴰ : total ss ≡ total ts
  total-permᴰ = accumulate-permᴰ liquidity (pos 0) p

  average-permᴰ : average ss ≡ average ts
  average-permᴰ = ap₂ quot_ℤ (accumulate-permᴰ weighted_price (pos 0) p) total-permᴰ

  spread-permᴰ : (mean : ℤ) → spread ss mean ≡ spread ts mean
  spread-permᴰ mean = ground (
    arith,
    length-permᴰ p,
    length-permᴰ (map-permᴰ price_of p),
    accumulate-permᴰ (squared_diff mean) (pos 0) (map-permᴰ price_of p),
  )

-- The same result, with the chain states in another order.
abbrev pub reordered : Map ℕ PoolState → GlobalPoolState → GlobalPoolState
reordered cs gs = record gs { chain_states = cs }

length_zero : (ss : List PoolState) → length ss ≡ 0 → ss ≡ []
length_zero [] e = refl
length_zero (s ∷ ss) e = absurd (omega arith)

nil-permᴰ : {ss ts : List PoolState} → Permᴰ ss ts → ts ≡ [] → ss ≡ []
nil-permᴰ {ss} p e = length_zero ss (length-permᴰ p ∙ ap length e)

pub refreshed-reordered :
    (gs : GlobalPoolState) (cs : Map ℕ PoolState)
    → Permᴰ gs.chain_states cs
    → refreshed (reordered cs gs) ≡ reordered cs (refreshed gs)
refreshed-reordered gs cs p =
    let q = values-permᴰ p in
    cc (total-permᴰ q, average-permᴰ q, spread-permᴰ q (average (values cs)), latest_block-permᴰ q)

-- Go ranges over the chain states in an open order, and no order matters: when the chain states of a pool
-- are listed in another order, recalculation gives the same error and the same metrics.
pub recalculate_global_metrics-perm :
    (gs : GlobalPoolState) (cs : Map ℕ PoolState)
    → Permᴰ gs.chain_states cs
    → recalculate_global_metrics (reordered cs gs)
      ≡ (recalculate_global_metrics gs >>= λ (gs', e). returns (reordered cs gs', e))
recalculate_global_metrics-perm gs cs p = by_chains (values gs.chain_states) refl
  where
    q : Permᴰ (values gs.chain_states) (values cs)
    q = values-permᴰ p

    by_chains :
        (ss : List PoolState)
        → values gs.chain_states ≡ ss
        → recalculate_global_metrics (reordered cs gs)
          ≡ (recalculate_global_metrics gs >>= λ (gs', e). returns (reordered cs gs', e))
    by_chains [] e = rw (
      recalculate-chainless gs e,
      recalculate-chainless (reordered cs gs) (nil-permᴰ (Permᴰ.symm q) e),
    )
    by_chains (s ∷ ss) e = elim (Bool-cases (eq_ℤ (total (values gs.chain_states)) (pos 0))) [
      | inl weightless ↦
          let moved =
            recalculate-weightless (reordered cs gs) (λ n. some_chain (nil-permᴰ q n))
              (rw (← total-permᴰ q) weightless) in
          rw (recalculate-weightless gs some_chain weightless, moved)
            (ground (arith, total-permᴰ q))
      | inr weighted ↦
          let moved =
            recalculate-weighted (reordered cs gs) (λ n. some_chain (nil-permᴰ q n))
              (rw (← total-permᴰ q) weighted) in
          rw (recalculate-weighted gs some_chain weighted, moved, refreshed-reordered gs cs p)
    ]
      where
        some_chain : values gs.chain_states ≢ []
        some_chain n = ground arith
