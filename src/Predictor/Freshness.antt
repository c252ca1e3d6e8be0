-- ===== src/Predictor/Freshness.antt =====
-- The confidence of AVS/pkg/state/predictor.go, and the age that it is lowered by.
use sync_hook.Prelude.{ℕ, ◌+◌, ◌-◌, ◌≤◌, ◌<◌, ◌≡◌, length, arith}
use sync_hook.Words.{u64_mod, sub64}
use sync_hook.Floats.{Float64}
use sync_hook.Pool.{GlobalPoolState}
use sync_hook.Predictor.{MarketTrend, chain_factor, age_factor, calculate_confidence}

sub64-le : (now block : ℕ) → block ≤ now → now < u64_mod → sub64 now block ≡ now - block
unfolding sub64
sub64-le now block h fits = omega arith

module _ (fl : Float64) where
  open fl use {literal, mul}

  age_factor-stale : (age : ℕ) → 600 ≤ age → age_factor fl age ≡ literal 6 1
  age_factor-stale age h = ground arith

  -- The age that the confidence is lowered by is taken from the latest block number, as if it were a time
  -- in seconds: whenever that number is at least 600 below the clock, the confidence has the factor of
  -- stale data, whatever the times of the chain states.
  pub calculate_confidence-stale :
      (now : ℕ) (gs : GlobalPoolState) (trend : MarketTrend fl.Float)
      → gs.last_update_block + 600 ≤ now
      → now < u64_mod
      → calculate_confidence fl now gs trend
        ≡ mul (mul trend.confidence (chain_factor fl (length gs.chain_states))) (literal 6 1)
  unfolding calculate_confidence
  calculate_confidence-stale now gs trend old fits =
      let age = sub64-le now gs.last_update_block (omega arith) fits in
      rw (calculate_confidence, age, age_factor-stale (now - gs.last_update_block) (omega arith))
