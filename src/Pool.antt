-- ===== src/Pool.antt =====
-- The pool states of AVS/pkg/state/aggregator.go. An amount that a chain reports is there; a metric of
-- the global state is nil until it is first computed, hence `Option`. `uint32` and `uint64` fields are
-- numbers, and a `time.Time` is its count of nanoseconds.
use sync_hook.Prelude.{ℕ, ℤ, String, Option, Map}

pub record PoolState : Type 0 where
  pub chain_id : ℕ
  pub total_liquidity : ℤ
  pub price : ℤ
  pub volume24h : ℤ
  pub fees24h : ℤ
  pub timestamp : ℕ
  pub block_number : ℕ
  pub last_updated : ℕ

pub record GlobalPoolState : Type 0 where
  pub pool_id : String
  pub total_liquidity : Option ℤ
  pub average_price : Option ℤ
  pub imbalance_score : Option ℤ
  pub last_update_block : ℕ
  pub chain_states : Map ℕ PoolState
  pub last_updated : ℕ

pub record AggregatedMetrics : Type 0 where
  pub total_liquidity : Option ℤ
  pub average_price : Option ℤ
  pub price_variance : Option ℤ
  pub liquidity_imbalance : Option ℤ
  pub volume24h : Option ℤ
  pub fees24h : Option ℤ
  pub active_chains : ℕ

-- The errors that the aggregation reports, without the texts that wrap them.
pub data PoolError : Type 0 where
  no_chain_states zero_weight pool_not_found : PoolError
