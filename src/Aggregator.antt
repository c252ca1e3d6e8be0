-- ===== src/Aggregator.antt =====
-- `Aggregator` of AVS/pkg/state/aggregator.go: the pools, each with the states that its chains report,
-- and the metrics over them. A method takes the readings of `time.Now()` that it makes, and returns
-- the aggregator after the call beside its results; a write through a pool's pointer is an `insert`.
pub mod Recalculation
pub mod Average
pub mod Update
pub mod Reports
pub mod Ranging
pub mod Unordered
pub mod Views
pub mod Roots
pub mod Copies
use sync_hook.Prelude.{
  ℕ, ◌%◌, ◌^◌, String, List, [], ◌∷◌, map, Option, none, some, if◌then◌else◌, ltb, nat_beq, length,
  ℤ, pos, ◌+ℤ◌, ◌-ℤ◌, ◌*ℤ◌, abs, quot_ℤ, div_ℤ, leb_ℤ, eq_ℤ, Run, returns, panics, deref, ◌>>=◌,
  ◌>>◌, Map, values, lookup, insert, nat_eq, string_eq,
}
use sync_hook.Numeric.{accumulate, root_search}
use sync_hook.Pool.{
  PoolState, GlobalPoolState, AggregatedMetrics, PoolError, no_chain_states, zero_weight,
  pool_not_found,
}

-- `Aggregator`: the lock is taken for the whole of each method, so a method is one step.
pub record Aggregator : Type 0 where
  pub pool_states : Map String GlobalPoolState

unfoldable pub new_aggregator : Aggregator
new_aggregator = record { pool_states = [] }

unfoldable pub sqrt : ℤ → ℤ
sqrt n = if leb_ℤ n (pos 0) then pos 0 else root_search n

abbrev pub liquidity : PoolState → ℤ
liquidity s = s.total_liquidity

abbrev pub weighted_price : PoolState → ℤ
weighted_price s = s.price *ℤ s.total_liquidity

abbrev pub price_of : PoolState → ℤ
price_of s = s.price

-- `diff * diff` at a mean.
abbrev pub squared_diff : ℤ → ℤ → ℤ
squared_diff mean p = (p -ℤ mean) *ℤ (p -ℤ mean)

unfoldable pub calculate_weighted_average_price :
    List PoolState → GlobalPoolState → GlobalPoolState × Option PoolError
calculate_weighted_average_price chain_states gs =
    let total_weight = accumulate liquidity (pos 0) chain_states in
    let weighted_price_sum = accumulate weighted_price (pos 0) chain_states in
    if nat_beq (length chain_states) 0
    then (gs, some no_chain_states)
    else if eq_ℤ total_weight (pos 0)
    then (gs, some zero_weight)
    else (record gs { average_price = some (quot_ℤ weighted_price_sum total_weight) }, none)

-- `mean` is read in the loop over the prices, which has two rounds at least.
unfoldable pub calculate_imbalance_score : List PoolState → GlobalPoolState → Run GlobalPoolState
unfolding sqrt
calculate_imbalance_score chain_states gs =
    let prices = map price_of chain_states in
    if ltb (length chain_states) 2
    then returns (record gs { imbalance_score = some (pos 0) })
    else deref gs.average_price >>= λ mean.
        let variance =
          quot_ℤ (accumulate (squared_diff mean) (pos 0) prices) (pos (length prices)) in
        returns (record gs { imbalance_score = some (sqrt variance) })

-- The loop that looks for the latest block of any chain.
abbrev pub latest_block : ℕ → List PoolState → ℕ
latest_block latest [] = latest
latest_block latest (s ∷ ss) =
    latest_block (if ltb latest s.block_number then s.block_number else latest) ss

abbrev finish_recalculation :
    List PoolState → GlobalPoolState × Option PoolError → Run (GlobalPoolState × Option PoolError)
finish_recalculation chain_states (gs, some e) = returns (gs, some e)
finish_recalculation chain_states (gs, none) = do
  gs' ← calculate_imbalance_score chain_states gs
  returns (record gs' { last_update_block = latest_block 0 chain_states }, none)

unfoldable pub recalculate_global_metrics :
    GlobalPoolState → Run (GlobalPoolState × Option PoolError)
unfolding calculate_weighted_average_price calculate_imbalance_score
recalculate_global_metrics gs =
    let chain_states = values gs.chain_states in
    let total = accumulate liquidity (pos 0) chain_states in
    if nat_beq (length chain_states) 0
    then returns (gs, some no_chain_states)
    else finish_recalculation chain_states
        (calculate_weighted_average_price chain_states (record gs { total_liquidity = some total }))

-- The state that `UpdatePoolState` makes for a pool that it meets first.
unfoldable pub new_global_state : String → GlobalPoolState
new_global_state pool = record {
  pool_id = pool;
  total_liquidity = none;
  average_price = none;
  imbalance_score = none;
  last_update_block = 0;
  chain_states = [];
  last_updated = 0;
}

abbrev pub get_or_new : String → Option GlobalPoolState → GlobalPoolState
get_or_new pool none = new_global_state pool
get_or_new pool (some gs) = gs

-- The pool with the chain's report entered, before its metrics are computed again.
unfoldable pub enter_report : ℕ → ℕ → ℕ → PoolState → GlobalPoolState → GlobalPoolState
enter_report now₁ now₂ chain s gs = record gs {
  chain_states = insert chain (record s { last_updated = now₁ }) gs.chain_states;
  last_updated = now₂;
}

unfoldable pub update_pool_state :
    ℕ → ℕ → String → ℕ → PoolState → Aggregator → Run (Aggregator × Option PoolError)
unfolding new_global_state enter_report recalculate_global_metrics
update_pool_state now₁ now₂ pool chain s a =
    let gs = enter_report now₁ now₂ chain s (get_or_new pool (lookup pool a.pool_states)) in
    recalculate_global_metrics gs >>= λ (gs', e).
    returns (record { pool_states = insert pool gs' a.pool_states }, e)

unfoldable pub get_global_pool_state : String → Aggregator → Option GlobalPoolState
get_global_pool_state pool a = lookup pool a.pool_states

abbrev copy_from :
    Map String GlobalPoolState → Map String GlobalPoolState → Map String GlobalPoolState
copy_from result [] = result
copy_from result ((k, v) ∷ m) = copy_from (insert k v result) m

unfoldable pub get_all_pool_states : Aggregator → Map String GlobalPoolState
get_all_pool_states a = copy_from [] a.pool_states

unfoldable pub calculate_price_variance : GlobalPoolState → Run ℤ
calculate_price_variance gs =
    let chain_states = values gs.chain_states in
    if ltb (length chain_states) 2
    then returns (pos 0)
    else deref gs.average_price >>= λ mean. returns (
        quot_ℤ (accumulate (λ s. squared_diff mean (price_of s)) (pos 0) chain_states)
          (pos (length chain_states)))

-- The distance of a chain's liquidity from its expected share.
abbrev pub deviation : ℤ → PoolState → ℤ
deviation expected s = abs (s.total_liquidity -ℤ expected)

unfoldable pub calculate_liquidity_imbalance : GlobalPoolState → Run ℤ
calculate_liquidity_imbalance gs =
    let chain_states = values gs.chain_states in
    if ltb (length chain_states) 2
    then returns (pos 0)
    else deref gs.total_liquidity >>= λ total.
        let expected = quot_ℤ total (pos (length chain_states)) in
        div_ℤ (accumulate (deviation expected) (pos 0) chain_states *ℤ pos 100) total

unfoldable pub calculate24h_metrics : GlobalPoolState → ℤ × ℤ
calculate24h_metrics gs =
    let chain_states = values gs.chain_states in
    (
      accumulate (λ s. s.volume24h) (pos 0) chain_states,
      accumulate (λ s. s.fees24h) (pos 0) chain_states,
    )

abbrev metrics_of : GlobalPoolState → Run (Option AggregatedMetrics)
metrics_of gs = do
  variance ← calculate_price_variance gs
  imbalance ← calculate_liquidity_imbalance gs
  let totals = calculate24h_metrics gs
  returns (
      some (record {
        total_liquidity = gs.total_liquidity;
        average_price = gs.average_price;
        price_variance = some variance;
        liquidity_imbalance = some imbalance;
        volume24h = some totals.0;
        fees24h = some totals.1;
        active_chains = length gs.chain_states % 2 ^ 32;
      }))

-- `none` is the error `pool state not found`.
unfoldable pub calculate_aggregated_metrics : String → Aggregator → Run (Option AggregatedMetrics)
unfolding calculate_price_variance calculate_liquidity_imbalance calculate24h_metrics
calculate_aggregated_metrics pool a = elim (lookup pool a.pool_states) [
  | none ↦ returns none
  | some gs ↦ metrics_of gs
]
