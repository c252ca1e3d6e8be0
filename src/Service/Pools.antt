-- ===== src/Service/Pools.antt =====
-- The pool states of AVS/aggregator/aggregator.go: their aggregation, ageing and rebalancing check.
use sync_hook.Prelude.{
  ℕ, ◌+◌, ◌-◌, List, [], ◌∷◌, map, String, Option, none, some, Bool, if◌then◌else◌, ltb, nat_beq,
  length, ℤ, pos, ◌*ℤ◌, ◌-ℤ◌, abs, quot_ℤ, leb_ℤ, eq_ℤ, Map, values, Run, returns, deref, ◌>>=◌,
}
use sync_hook.Words.{int64}
use sync_hook.Floats.{Float64}
use sync_hook.Numeric.{accumulate, root_search}
use sync_hook.Pool.{PoolState, PoolError, no_chain_states, zero_weight}

pub record GlobalPoolState : Type 0 where
  pub pool_id : String
  pub total_liquidity : Option ℤ
  pub average_price : Option ℤ
  pub imbalance_score : Option ℤ
  pub last_update_block : ℕ
  pub chain_states : Map ℕ PoolState
  pub last_updated : ℕ
  pub consensus_reached : Bool

unfoldable pub sqrt : ℤ → ℤ
sqrt n = if leb_ℤ n (pos 0) then pos 0 else root_search n

unfoldable pub calculate_weighted_average_price :
    List PoolState → GlobalPoolState → GlobalPoolState × Option PoolError
calculate_weighted_average_price chain_states gs =
    let total_weight = accumulate (λ s. s.total_liquidity) (pos 0) chain_states in
    let weighted_price_sum = accumulate (λ s. s.price *ℤ s.total_liquidity) (pos 0) chain_states in
    if nat_beq (length chain_states) 0
    then (gs, some no_chain_states)
    else if eq_ℤ total_weight (pos 0)
    then (gs, some zero_weight)
    else (record gs { average_price = some (quot_ℤ weighted_price_sum total_weight) }, none)

unfoldable pub calculate_imbalance_score : List PoolState → GlobalPoolState → Run GlobalPoolState
unfolding sqrt
calculate_imbalance_score chain_states gs =
    let prices = map (λ (s : PoolState). s.price) chain_states in
    if ltb (length chain_states) 2
    then returns (record gs { imbalance_score = some (pos 0) })
    else deref gs.average_price >>= λ mean.
        let variance =
          quot_ℤ (accumulate (λ p. (p -ℤ mean) *ℤ (p -ℤ mean)) (pos 0) prices)
            (pos (length prices)) in
        returns (record gs { imbalance_score = some (sqrt variance) })

abbrev pub latest_block : ℕ → List PoolState → ℕ
latest_block latest [] = latest
latest_block latest (s ∷ ss) =
    latest_block (if ltb latest s.block_number then s.block_number else latest) ss

abbrev pub finish_aggregation :
    ℕ
    → List PoolState
    → GlobalPoolState × Option PoolError
    → Run (GlobalPoolState × Option PoolError)
finish_aggregation now chain_states (gs, some e) = returns (gs, some e)
finish_aggregation now chain_states (gs, none) = do
  gs' ← calculate_imbalance_score chain_states gs
  returns (record gs' { last_update_block = latest_block 0 chain_states; last_updated = now }, none)

-- `now` is the reading of the clock at the end.
unfoldable pub aggregate_chain_states :
    ℕ → GlobalPoolState → Run (GlobalPoolState × Option PoolError)
unfolding calculate_weighted_average_price calculate_imbalance_score
aggregate_chain_states now gs =
    let chain_states = values gs.chain_states in
    let total = accumulate (λ s. s.total_liquidity) (pos 0) chain_states in
    if nat_beq (length chain_states) 0
    then returns (gs, some no_chain_states)
    else finish_aggregation now chain_states
        (calculate_weighted_average_price chain_states (record gs { total_liquidity = some total }))

unfoldable pub calculate_imbalance : GlobalPoolState → Run ℤ
calculate_imbalance gs =
    let chain_states = values gs.chain_states in
    if ltb (length chain_states) 2
    then returns (pos 0)
    else deref gs.total_liquidity >>= λ total.
        let expected = quot_ℤ total (pos (length chain_states)) in
        returns (accumulate (λ s. abs (s.total_liquidity -ℤ expected)) (pos 0) chain_states)

abbrev pub count_update : Option PoolError → ℕ → ℕ
count_update none n = n + 1
count_update (some _) n = n

module _ (fl : Float64) where
  open fl use {Float, literal, of_int, lt}

  unfoldable pub calculate_imbalance_percent : ℤ → Option ℤ → Run Float
  unfolding int64
  calculate_imbalance_percent imbalance total_liquidity = do
    total ← deref total_liquidity
    if eq_ℤ total (pos 0)
        then returns (literal 0 0)
        else returns (of_int (int64 (quot_ℤ (imbalance *ℤ pos 100) total)))

  -- `seconds` is `Seconds` of a `time.Duration`, and `stamp` the clock's reading at each pool.
  module _ (seconds : ℕ → Float) where
    abbrev pub is_too_old : ℕ → ℕ → GlobalPoolState → Bool
    is_too_old max_state_age now gs =
        lt (of_int (pos max_state_age)) (seconds (now - gs.last_updated))

    -- The loop over the pools: it deletes those too old, and counts those that it has aggregated.
    unfoldable pub aggregate_states :
        ℕ → ℕ → (String → ℕ) → Map String GlobalPoolState → ℕ → Run (Map String GlobalPoolState × ℕ)
    unfolding aggregate_chain_states
    aggregate_states max_state_age now stamp [] updates = returns ([], updates)
    aggregate_states max_state_age now stamp ((pool, gs) ∷ m) updates =
        let removed = aggregate_states max_state_age now stamp m updates in
        let kept = aggregate_chain_states (stamp pool) gs >>= λ (gs', e).
        aggregate_states max_state_age now stamp m (count_update e updates) >>= λ (m', n).
        returns ((pool, gs') ∷ m', n) in
        if is_too_old max_state_age now gs then removed else kept

  -- The loop over the pools, which counts those that need rebalancing.
  unfoldable pub check_rebalancing_needs : Float → Map String GlobalPoolState → ℕ → Run ℕ
  unfolding calculate_imbalance calculate_imbalance_percent
  check_rebalancing_needs threshold [] ops = returns ops
  check_rebalancing_needs threshold ((pool, gs) ∷ m) ops = do
    imbalance ← calculate_imbalance gs
    percent ← calculate_imbalance_percent imbalance gs.total_liquidity
    check_rebalancing_needs threshold m (if lt threshold percent then ops + 1 else ops)
