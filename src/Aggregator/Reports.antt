-- ===== src/Aggregator/Reports.antt =====
-- `CalculateAggregatedMetrics` of AVS/pkg/state/aggregator.go: when it returns metrics, what they are, and
-- when it panics.
use mathlib.Core.Option.{some-injective}
use sync_hook.Prelude.{
  ℕ, ◌≤◌, ◌≡◌, refl, sym, subst, length-map, ◌∙◌, ap, String, length, Option, none, some, false,
  if◌then◌else◌, ltb, ℤ, pos, ◌*ℤ◌, quot_ℤ, div_ℤ, eq_ℤ, arith, values, lookup, inl, inr,
  Bool-cases, Option-cases, Returns, returns, panics, string_eq,
}
use sync_hook.Numeric.{accumulate, accumulate-map}
use sync_hook.Pool.{PoolState, GlobalPoolState, AggregatedMetrics, zero_weight}
use sync_hook.Aggregator.{
  Aggregator, price_of, squared_diff, deviation, sqrt, calculate_price_variance,
  calculate_liquidity_imbalance, calculate_aggregated_metrics, update_pool_state,
}
use sync_hook.Aggregator.Recalculation.{total, average, spread}
use sync_hook.Aggregator.Update.{IsFresh, Stores, update_pool_state-Stores}

-- A pool of two chains or more whose total is zero has no metrics: the call panics, on the average
-- price that was never computed or on the division by the total.
pub calculate_aggregated_metrics-weightless :
    (pool : String) (gs : GlobalPoolState) (a : Aggregator)
    → lookup pool a.pool_states ≡ some gs
    → 2 ≤ length (values gs.chain_states)
    → gs.total_liquidity ≡ some (pos 0)
    → calculate_aggregated_metrics pool a ≡ panics
unfolding calculate_aggregated_metrics div_ℤ
calculate_aggregated_metrics-weightless pool gs a found chains weightless =
    elim (Option-cases gs.average_price) [
      | inl nil ↦ ground arith
      | inr (mean, known) ↦ ground arith
    ]

-- When `UpdatePoolState` returns the zero-weight error for a pool that two chains or more have reported
-- to, `CalculateAggregatedMetrics` of that pool panics.
pub update_pool_state-zero_weight-panics :
    (now₁ now₂ : ℕ) (pool : String) (chain : ℕ) (s : PoolState) (a a' : Aggregator)
    (gs : GlobalPoolState)
    → update_pool_state now₁ now₂ pool chain s a ≡ returns (a', some zero_weight)
    → lookup pool a'.pool_states ≡ some gs
    → 2 ≤ length (values gs.chain_states)
    → calculate_aggregated_metrics pool a' ≡ panics
update_pool_state-zero_weight-panics now₁ now₂ pool chain s a a' gs call found chains =
    let (gs', found', entry, accounts) =
      subst (λ r. Returns r (Stores now₁ now₂ pool chain s a)) call
        (update_pool_state-Stores now₁ now₂ pool chain s a) in
    let same =
      some-injective gs' gs
        (sym (rw ((string_eq.beq_iff pool pool).1 refl) at (found' pool)) ∙ found) in
    calculate_aggregated_metrics-weightless pool gs a' found chains
      (ap (λ (g : GlobalPoolState). g.total_liquidity) (sym same) ∙ accounts.1)

sqrt_zero : sqrt (pos 0) ≡ pos 0
unfolding sqrt
sqrt_zero = refl

module _ (gs : GlobalPoolState) (fresh : IsFresh gs) where
  variance_of : ℤ → ℤ
  variance_of mean =
      if ltb (length (values gs.chain_states)) 2
      then pos 0
      else quot_ℤ
          (accumulate (λ s. squared_diff mean (price_of s)) (pos 0) (values gs.chain_states))
          (pos (length (values gs.chain_states)))

  price_variance-fresh :
      calculate_price_variance gs ≡ returns (variance_of (average (values gs.chain_states)))
  unfolding calculate_price_variance variance_of
  price_variance-fresh = ground (arith, fresh.average_fresh)

  spread-eq-sqrt : (mean : ℤ) → spread (values gs.chain_states) mean ≡ sqrt (variance_of mean)
  unfolding variance_of
  spread-eq-sqrt mean = ground (
    arith,
    sqrt_zero,
    length-map price_of (values gs.chain_states),
    accumulate-map price_of (squared_diff mean) (pos 0) (values gs.chain_states),
  )

  liquidity_imbalance-fresh :
      eq_ℤ (total (values gs.chain_states)) (pos 0) ≡ false
      → (x : ℤ) × (calculate_liquidity_imbalance gs ≡ returns x)
  unfolding calculate_liquidity_imbalance div_ℤ
  liquidity_imbalance-fresh h = elim (Bool-cases (ltb (length (values gs.chain_states)) 2)) [
    | inl few ↦ (pos 0, rw few)
    | inr many ↦ (
      quot_ℤ
          (accumulate
              (deviation
                (quot_ℤ (total (values gs.chain_states)) (pos (length (values gs.chain_states)))))
              (pos 0) (values gs.chain_states)
            *ℤ pos 100)
          (total (values gs.chain_states)),
      ground (arith, fresh.total_fresh),
    )
  ]

-- What the metrics say of the pool: the pool's own total and average, and a price variance whose square
-- root is the pool's imbalance score.
abbrev pub Reports : GlobalPoolState → Option AggregatedMetrics → Type 0
Reports gs none = ⊥
Reports gs (some m) =
    (m.total_liquidity ≡ gs.total_liquidity)
    × (m.average_price ≡ gs.average_price)
    × ((v : ℤ) × (m.price_variance ≡ some v) × (gs.imbalance_score ≡ some (sqrt v)))

-- Of a pool with fresh metrics and a total that is not zero, `CalculateAggregatedMetrics` returns metrics
-- and does not panic; they repeat the pool's total and average, and the pool's imbalance score is the
-- square root of the price variance that they give.
pub calculate_aggregated_metrics-Reports :
    (pool : String) (gs : GlobalPoolState) (a : Aggregator)
    → lookup pool a.pool_states ≡ some gs
    → IsFresh gs
    → eq_ℤ (total (values gs.chain_states)) (pos 0) ≡ false
    → Returns (calculate_aggregated_metrics pool a) (Reports gs)
unfolding calculate_aggregated_metrics
calculate_aggregated_metrics-Reports pool gs a found fresh weighted =
    let (x, imbalance) = liquidity_imbalance-fresh gs fresh weighted in
    let mean = average (values gs.chain_states) in
    rw (found, calculate_aggregated_metrics, price_variance-fresh gs fresh, imbalance)
      (
        refl,
        refl,
        (
          variance_of gs fresh mean,
          refl,
          fresh.spread_fresh ∙ ap some (spread-eq-sqrt gs fresh mean),
        ),
      )
