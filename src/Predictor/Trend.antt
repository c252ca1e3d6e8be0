-- ===== src/Predictor/Trend.antt =====
-- The trend of AVS/pkg/state/predictor.go: its direction and confidence, from the prices of the chains.
use sync_hook.Prelude.{
  ℕ, List, map, if◌then◌else◌, ltb, nat_beq, length, count_if, ℤ, pos, ◌-ℤ◌, ◌*ℤ◌, quot_ℤ, ltb_ℤ,
  leb_ℤ, eq_ℤ, values,
}
use sync_hook.Words.{int64}
use sync_hook.Floats.{Float64}
use sync_hook.Numeric.{accumulate, root_search}
use sync_hook.Pool.{PoolState, GlobalPoolState}

pub data Direction : Type 0 where
  up down sideways : Direction

pub record MarketTrend (F : Type 0) : Type 0 where
  pub direction : Direction
  pub strength : F
  pub confidence : F
  pub duration : ℕ

unfoldable pub sqrt : ℤ → ℤ
sqrt n = if leb_ℤ n (pos 0) then pos 0 else root_search n

unfoldable pub calculate_average : List ℤ → ℤ
calculate_average vs =
    if nat_beq (length vs) 0
    then pos 0
    else quot_ℤ (accumulate (λ v. v) (pos 0) vs) (pos (length vs))

unfoldable pub calculate_standard_deviation : List ℤ → ℤ → ℤ
unfolding sqrt
calculate_standard_deviation vs mean =
    if nat_beq (length vs) 0
    then pos 0
    else sqrt (quot_ℤ (accumulate (λ v. (v -ℤ mean) *ℤ (v -ℤ mean)) (pos 0) vs) (pos (length vs)))

module _ (fl : Float64) where
  open fl use {Float, literal, of_int, div, sub, lt}

  -- `stdDev.Cmp(threshold) < 0` makes the trend flat; else it follows the share of prices above average.
  unfoldable pub calculate_trend_direction : List ℤ → Direction × Float
  unfolding sqrt
  calculate_trend_direction prices =
      let avg = quot_ℤ (accumulate (λ p. p) (pos 0) prices) (pos (length prices)) in
      let variance =
        quot_ℤ (accumulate (λ p. (p -ℤ avg) *ℤ (p -ℤ avg)) (pos 0) prices) (pos (length prices)) in
      let above = count_if (λ p. ltb_ℤ avg p) prices in
      let strength = div (of_int (pos above)) (of_int (pos (length prices))) in
      if ltb (length prices) 2
      then (sideways, literal 0 0)
      else if ltb_ℤ (sqrt variance) (quot_ℤ avg (pos 100))
      then (sideways, literal 0 0)
      else if lt (literal 6 1) strength
      then (up, strength)
      else if lt strength (literal 4 1)
      then (down, sub (literal 1 0) strength)
      else (sideways, literal 0 0)

  unfoldable pub calculate_trend_confidence : List PoolState → Float
  unfolding calculate_average calculate_standard_deviation int64
  calculate_trend_confidence chain_states =
      let prices = map (λ (s : PoolState). s.price) chain_states in
      let avg = calculate_average prices in
      let cv = of_int (int64 (quot_ℤ (calculate_standard_deviation prices avg *ℤ pos 100) avg)) in
      if ltb (length chain_states) 2
      then literal 0 0
      else if eq_ℤ avg (pos 0)
      then literal 0 0
      else if lt (literal 10 0) cv
      then literal 0 0
      else if lt (literal 5 0) cv
      then literal 5 1
      else if lt (literal 2 0) cv
      then literal 8 1
      else literal 1 0

  unfoldable pub analyze_trend : GlobalPoolState → MarketTrend Float
  unfolding calculate_trend_direction calculate_trend_confidence
  analyze_trend gs =
      let chain_states = values gs.chain_states in
      let (direction, strength) =
        calculate_trend_direction (map (λ (s : PoolState). s.price) chain_states) in
      if ltb (length chain_states) 2
      then record {
        direction = sideways;
        strength = literal 0 0;
        confidence = literal 0 0;
        duration = 0;
      }
      else record {
        direction = direction;
        strength = strength;
        confidence = calculate_trend_confidence chain_states;
        duration = 300;
      }
