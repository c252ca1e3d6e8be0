-- ===== src/Aggregator/Views.antt =====
-- The aggregator of AVS/pkg/state/aggregator.go as its callers see it: a quotient forgets the order in
-- which the maps list the pools and their chain states.
use mathlib.Core.Quot
use mathlib.Core.Quot.{Quot}
use mathlib.Core.List.{Permᴰ}
use native.Mathlib.Decide.{ℕ_discrete}
use sync_hook.Prelude.{
  ℕ, ◌≡◌, refl, sym, ap, String, List, [], ◌∷◌, Option, none, some, ℤ, pos, Run, returns, ◌>>=◌,
  length, Map, values,
}
use sync_hook.Numeric.{accumulate}
use sync_hook.Numeric.Order.{values-permᴰ, accumulate-permᴰ, length-permᴰ}
use sync_hook.Pool.{PoolState, GlobalPoolState, AggregatedMetrics, PoolError}
use sync_hook.Aggregator.{
  Aggregator, update_pool_state, calculate_aggregated_metrics, calculate_price_variance, metrics_of,
  calculate_liquidity_imbalance, calculate24h_metrics,
}
use sync_hook.Aggregator.Ranging.{reordered}
use sync_hook.Aggregator.Update.{AllSettled}
use sync_hook.Aggregator.Unordered.{Same, SameFound, update_pool_state-Same}

-- The aggregators, with a settled one identified with every one that has the same pools.
abbrev pub View : Type 0
View = Quot (λ (a b : Aggregator). AllSettled a × Same a b)

abbrev pub view : Aggregator → View
view = Quot.mk

-- One call of `UpdatePoolState`.
pub record Report : Type 0 where
  pub read₁ : ℕ
  pub read₂ : ℕ
  pub pool : String
  pub chain : ℕ
  pub state : PoolState

-- The answer of `CalculateAggregatedMetrics` after the reports, and the errors of the calls.
abbrev pub answer :
    String → List Report → Aggregator → Run (Option AggregatedMetrics × List (Option PoolError))
answer pool [] a = calculate_aggregated_metrics pool a >>= λ m. returns (m, [])
answer pool (r ∷ rs) a = do
  (a', e) ← update_pool_state r.read₁ r.read₂ r.pool r.chain r.state a
  (m, es) ← answer pool rs a'
  returns (m, e ∷ es)

answer-set : IsSet (Run (Option AggregatedMetrics × List (Option PoolError)))
answer-set = hlevel ℕ_discrete

module _ (gs : GlobalPoolState) (cs : Map ℕ PoolState) (p : Permᴰ gs.chain_states cs) where
  same_count : length (values cs) ≡ length (values gs.chain_states)
  same_count = sym (length-permᴰ (values-permᴰ p))

  same_sum :
      (f : PoolState → ℤ)
      → accumulate f (pos 0) (values cs) ≡ accumulate f (pos 0) (values gs.chain_states)
  same_sum f = sym (accumulate-permᴰ f (pos 0) (values-permᴰ p))

  variance-perm : calculate_price_variance (reordered cs gs) ≡ calculate_price_variance gs
  unfolding calculate_price_variance
  variance-perm = simp (same_count, same_sum)

  imbalance-perm :
      calculate_liquidity_imbalance (reordered cs gs) ≡ calculate_liquidity_imbalance gs
  unfolding calculate_liquidity_imbalance
  imbalance-perm = simp (same_count, same_sum)

  totals-perm : calculate24h_metrics (reordered cs gs) ≡ calculate24h_metrics gs
  unfolding calculate24h_metrics
  totals-perm = simp same_sum

  metrics_of-perm : metrics_of (reordered cs gs) ≡ metrics_of gs
  metrics_of-perm = simp (variance-perm, imbalance-perm, totals-perm, sym (length-permᴰ p))

answer-found :
    (x y : Option GlobalPoolState)
    → SameFound x y
    → (elim x [ none ↦ returns none | some gs ↦ metrics_of gs ])
      ≡ (elim y [ none ↦ returns none | some gs ↦ metrics_of gs ])
answer-found none none h = refl
answer-found none (some hs) h = absurd h
answer-found (some gs) none h = absurd h
answer-found (some gs) (some hs) h =
    rw (h.metrics) (sym (metrics_of-perm gs hs.chain_states h.chains))

answer-Same :
    (pool : String) (rs : List Report) (a b : Aggregator)
    → AllSettled a
    → Same a b
    → answer pool rs a ≡ answer pool rs b
unfolding calculate_aggregated_metrics
answer-Same pool [] a b settled same =
    ap (λ (r : Run (Option AggregatedMetrics)). r >>= λ m. returns (m, []))
      (answer-found _ _ (same pool))
answer-Same pool (r ∷ rs) a b settled same =
    let (a', b', e, left, right, settled', same') =
      update_pool_state-Same r.read₁ r.read₂ r.pool r.chain r.state a b settled same in
    rw (left, right, answer-Same pool rs a' b' settled' same')

-- Two aggregators with the same view give the same errors for any reports, and
-- `CalculateAggregatedMetrics` of any pool after the reports gives the same on both.
pub answer-view :
    (pool : String) (rs : List Report) (a b : Aggregator)
    → view a ≡ view b
    → answer pool rs a ≡ answer pool rs b
answer-view pool rs a b h =
    ap
      (Quot.lift answer-set (answer pool rs)
        λ a b (settled, same). answer-Same pool rs a b settled same)
      h
