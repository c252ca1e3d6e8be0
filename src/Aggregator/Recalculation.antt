-- ===== src/Aggregator/Recalculation.antt =====
-- What `recalculateGlobalMetrics` of AVS/pkg/state/aggregator.go leaves on each of its branches.
use sync_hook.Prelude.{
  ◌≡◌, ◌≢◌, refl, inl, inr, List, [], ◌∷◌, map, Option, none, some, true, false, if◌then◌else◌, ltb,
  length, ℤ, pos, quot_ℤ, eq_ℤ, returns, arith, values, Bool-cases,
}
use sync_hook.Numeric.{accumulate}
use sync_hook.Pool.{PoolState, GlobalPoolState, PoolError, zero_weight, no_chain_states}
use sync_hook.Aggregator.{
  liquidity, weighted_price, price_of, squared_diff, latest_block, sqrt, recalculate_global_metrics,
}

module _ (ss : List PoolState) where
  abbrev pub total : ℤ
  total = accumulate liquidity (pos 0) ss

  -- The mean of the prices, weighted by liquidity.
  abbrev pub average : ℤ
  average = quot_ℤ (accumulate weighted_price (pos 0) ss) total

  -- The standard deviation of the prices from `mean`; of one chain it is 0.
  abbrev pub spread : ℤ → ℤ
  spread mean =
      if ltb (length ss) 2
      then pos 0
      else sqrt (
          quot_ℤ (accumulate (squared_diff mean) (pos 0) (map price_of ss))
            (pos (length (map price_of ss))))

-- The state with every metric computed from its chain states.
abbrev pub refreshed : GlobalPoolState → GlobalPoolState
refreshed gs =
    let ss = values gs.chain_states in
    record gs {
      total_liquidity = some (total ss);
      average_price = some (average ss);
      imbalance_score = some (spread ss (average ss));
      last_update_block = latest_block 0 ss;
    }

-- Chains with some weight among them: every metric is computed, with no error and no nil read.
pub recalculate-weighted :
    (gs : GlobalPoolState)
    → values gs.chain_states ≢ []
    → eq_ℤ (total (values gs.chain_states)) (pos 0) ≡ false
    → recalculate_global_metrics gs ≡ returns (refreshed gs, none)
unfolding recalculate_global_metrics
recalculate-weighted gs some_chain weighted = ground arith

-- Chains with no weight: the total is stored, and nothing else changes.
pub recalculate-weightless :
    (gs : GlobalPoolState)
    → values gs.chain_states ≢ []
    → eq_ℤ (total (values gs.chain_states)) (pos 0) ≡ true
    → recalculate_global_metrics gs
      ≡ returns
          (record gs { total_liquidity = some (total (values gs.chain_states)) }, some zero_weight)
unfolding recalculate_global_metrics
recalculate-weightless gs some_chain weightless = ground arith

-- No chain: nothing changes.
pub recalculate-chainless :
    (gs : GlobalPoolState)
    → values gs.chain_states ≡ []
    → recalculate_global_metrics gs ≡ returns (gs, some no_chain_states)
unfolding recalculate_global_metrics
recalculate-chainless gs e = ground arith

-- Recalculation never panics: the average is there when the imbalance score reads it.
pub recalculate-total :
    (gs : GlobalPoolState)
    → (r : GlobalPoolState × Option PoolError) × (recalculate_global_metrics gs ≡ returns r)
recalculate-total gs = by_chains (values gs.chain_states) refl
  where
    by_chains :
        (ss : List PoolState)
        → values gs.chain_states ≡ ss
        → (r : GlobalPoolState × Option PoolError) × (recalculate_global_metrics gs ≡ returns r)
    by_chains [] e = (_, recalculate-chainless gs e)
    by_chains (s ∷ ss) e = elim (Bool-cases (eq_ℤ (total (values gs.chain_states)) (pos 0))) [
      | inl weightless ↦ (_, recalculate-weightless gs (λ n. ground arith) weightless)
      | inr weighted ↦ (_, recalculate-weighted gs (λ n. ground arith) weighted)
    ]
