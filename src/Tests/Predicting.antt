-- ===== src/Tests/Predicting.antt =====
-- AVS/pkg/state/predictor.go, run on a pool of two chains.
use sync_hook.Prelude.{refl, [], ◌∷◌, some, ℤ, pos, Returns}
use sync_hook.Pool.{GlobalPoolState}
use sync_hook.Predictor.{MarketTrend, up, predict_pool_state}
use sync_hook.Predictor.Prices.{IsPlausible, predict_pool_state-IsPlausible}
use sync_hook.Tests.Samples.{decimals, report}

abbrev priced_pool : GlobalPoolState
priced_pool = record {
  pool_id = "pool";
  total_liquidity = some (pos 400);
  average_price = some (pos 17);
  imbalance_score = some (pos 5);
  last_update_block = 9;
  chain_states = (1, report 1 100 10 7) ∷ (2, report 2 300 20 9) ∷ [];
  last_updated = 0;
}

predict_pool_state-IsPlausible_example :
    Returns (predict_pool_state decimals 1000 1000 priced_pool 600) (IsPlausible (pos 17) (pos 400))
predict_pool_state-IsPlausible_example =
    predict_pool_state-IsPlausible decimals 1000 1000 600 priced_pool (pos 17) (pos 400) refl refl

abbrev rising : MarketTrend ℤ
rising = record { direction = up; strength = pos 700_000; confidence = pos 800_000; duration = 300 }
