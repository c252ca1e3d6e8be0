-- ===== src/Predictor.antt =====
-- `Predictor` of AVS/pkg/state/predictor.go: the trend over the chains' prices, the predicted price and
-- liquidity, and the rebalancing need. `float64` is a parameter; `now` is a reading of the clock in
-- seconds.
mod Trend
unfoldable pub use Trend.*
pub mod Prices
pub mod Amounts
pub mod Freshness
use sync_hook.Prelude.{
  ℕ, ◌+◌, ◌*◌, ◌/◌, ◌%◌, ◌^◌, List, [], ◌∷◌, map, Option, none, some, Bool, true, false,
  if◌then◌else◌, ltb, leb, nat_beq, length, count_if, ℤ, pos, ◌+ℤ◌, ◌-ℤ◌, ◌*ℤ◌, abs, quot_ℤ, ltb_ℤ,
  leb_ℤ, eq_ℤ, Run, returns, panics, deref, ◌>>=◌, ◌>>◌, values,
}
use sync_hook.Words.{sub64, int64}
use sync_hook.Floats.{Float64}
use sync_hook.Numeric.{accumulate, root_search}
use sync_hook.Pool.{PoolState, GlobalPoolState}

pub record PredictionResult (F : Type 0) : Type 0 where
  pub predicted_price : ℤ
  pub predicted_liquidity : ℤ
  pub confidence : F
  pub time_horizon : ℕ
  pub timestamp : ℕ

pub data PredictionError : Type 0 where
  no_current_price no_current_liquidity : PredictionError

pub data Predicted (A : Type 0) : Type 0 where
  ok : A → Predicted A
  failed : PredictionError → Predicted A

unfoldable pub calculate_imbalance : GlobalPoolState → Run ℤ
calculate_imbalance gs =
    let chain_states = values gs.chain_states in
    if ltb (length chain_states) 2
    then returns (pos 0)
    else deref gs.total_liquidity >>= λ total.
        let expected = quot_ℤ total (pos (length chain_states)) in
        returns (accumulate (λ s. abs (s.total_liquidity -ℤ expected)) (pos 0) chain_states)

-- The current imbalance is taken to continue.
unfoldable pub predict_imbalance : GlobalPoolState → ℕ → Run ℤ
unfolding calculate_imbalance
predict_imbalance gs horizon = calculate_imbalance gs

abbrev pub one_token : ℤ
one_token = pos 1_000_000_000_000_000_000

unfoldable pub calculate_rebalancing_amount : GlobalPoolState → ℤ → Run ℤ
calculate_rebalancing_amount gs imbalance = do
  total ← deref gs.total_liquidity
  let half = quot_ℤ imbalance (pos 2)
  let most = quot_ℤ total (pos 10)
  let raised = if ltb_ℤ half one_token then one_token else half
  returns (if ltb_ℤ most raised then most else raised)

-- The predicted price before and after the guard against a negative one.
abbrev moved_price : Direction → ℤ → ℤ → ℤ
moved_price up price change = price +ℤ change
moved_price down price change = price -ℤ change
moved_price sideways price change = price

abbrev pub one_if_negative : ℤ → ℤ
one_if_negative x = if ltb_ℤ x (pos 0) then pos 1 else x

unfoldable pub predict_liquidity : GlobalPoolState → ℤ → ℕ → Run (Predicted ℤ)
predict_liquidity gs predicted_price horizon = do
  liquidity ← deref gs.total_liquidity
  if eq_ℤ liquidity (pos 0)
      then returns (failed no_current_liquidity)
      else deref gs.average_price >>= λ price.
          if eq_ℤ price (pos 0)
          then returns (ok liquidity)
          else let percent = quot_ℤ ((predicted_price -ℤ price) *ℤ pos 100) price in
            let change = quot_ℤ (liquidity *ℤ percent) (pos 200) in
            returns (ok (one_if_negative (liquidity +ℤ change)))

module _ (fl : Float64) where
  open fl use {Float, literal, of_int, to_int, mul, div, sub, neg, lt}

  -- The change before it is capped.
  unfoldable pub raw_change : MarketTrend Float → ℕ → Float
  raw_change trend horizon =
      mul
        (mul (of_int (to_int (mul trend.strength (literal 100 0))))
          (div (of_int (pos horizon)) (literal 300 0)))
        trend.confidence

  abbrev cap_above : Float → Float
  cap_above change = if lt (literal 10 0) change then literal 10 0 else change

  abbrev cap_below : Float → Float
  cap_below change = if lt change (neg (literal 10 0)) then neg (literal 10 0) else change

  unfoldable pub calculate_price_change_percent : MarketTrend Float → ℕ → ℤ
  calculate_price_change_percent trend horizon =
      to_int (cap_below (cap_above (raw_change trend horizon)))

  unfoldable pub predict_price : GlobalPoolState → MarketTrend Float → ℕ → Run (Predicted ℤ)
  predict_price gs trend horizon = do
    price ← deref gs.average_price
    let change = quot_ℤ (price *ℤ calculate_price_change_percent trend horizon) (pos 100)
    if eq_ℤ price (pos 0)
        then returns (failed no_current_price)
        else returns (ok (one_if_negative (moved_price trend.direction price change)))

  abbrev pub chain_factor : ℕ → Float
  chain_factor n = if leb 3 n then literal 1 0 else if nat_beq n 2 then literal 8 1 else literal 5 1

  abbrev pub age_factor : ℕ → Float
  age_factor age =
      if ltb age 60
      then literal 1 0
      else if ltb age 300
      then literal 9 1
      else if ltb age 600
      then literal 8 1
      else literal 6 1

  -- The age is that of a block number, read as a time.
  unfoldable pub calculate_confidence : ℕ → GlobalPoolState → MarketTrend Float → Float
  calculate_confidence now gs trend =
      mul (mul trend.confidence (chain_factor (length gs.chain_states)))
        (age_factor (sub64 now gs.last_update_block))

  abbrev finish_prediction :
      ℕ
      → ℕ
      → ℕ
      → GlobalPoolState
      → MarketTrend Float
      → ℤ
      → Predicted ℤ
      → Predicted (PredictionResult Float)
  finish_prediction now₁ now₂ horizon gs trend price (failed e) = failed e
  finish_prediction now₁ now₂ horizon gs trend price (ok liquidity) = ok (record {
    predicted_price = price;
    predicted_liquidity = liquidity;
    confidence = calculate_confidence now₁ gs trend;
    time_horizon = horizon;
    timestamp = now₂;
  })

  abbrev then_liquidity :
      ℕ
      → ℕ
      → ℕ
      → GlobalPoolState
      → MarketTrend Float
      → Predicted ℤ
      → Run (Predicted (PredictionResult Float))
  then_liquidity now₁ now₂ horizon gs trend (failed e) = returns (failed e)
  then_liquidity now₁ now₂ horizon gs trend (ok price) = do
    liquidity ← predict_liquidity gs price horizon
    returns (finish_prediction now₁ now₂ horizon gs trend price liquidity)

  unfoldable pub predict_pool_state :
      ℕ → ℕ → GlobalPoolState → ℕ → Run (Predicted (PredictionResult Float))
  unfolding analyze_trend predict_price predict_liquidity
  predict_pool_state now₁ now₂ gs horizon = do
    let trend = analyze_trend fl gs
    price ← predict_price gs trend horizon
    then_liquidity now₁ now₂ horizon gs trend price

  unfoldable pub calculate_imbalance_percent : ℤ → Option ℤ → Run Float
  unfolding int64
  calculate_imbalance_percent imbalance total_liquidity = do
    total ← deref total_liquidity
    if eq_ℤ total (pos 0)
        then returns (literal 0 0)
        else returns (of_int (int64 (quot_ℤ (imbalance *ℤ pos 100) total)))

  -- Whether to rebalance, and the amount if so.
  unfoldable pub predict_rebalancing_need : GlobalPoolState → Float → Run (Bool × Option ℤ)
  unfolding predict_imbalance calculate_imbalance_percent calculate_rebalancing_amount
  predict_rebalancing_need gs threshold = do
    calculate_imbalance gs
    future ← predict_imbalance gs 300
    percent ← calculate_imbalance_percent future gs.total_liquidity
    if lt threshold percent
        then (calculate_rebalancing_amount gs future >>= λ amount. returns (true, some amount))
        else returns (false, none)
