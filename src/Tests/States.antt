-- ===== src/Tests/States.antt =====
-- AVS/pkg/state/aggregator.go, run on a pool of two chains.
use mathlib.Core.List.{Permᴰ}
use mathlib.Core.Quot
use sync_hook.Prelude.{
  inl, inr, Bool-cases, List, ℕ, ◌≡◌, ◌≤◌, refl, [], ◌∷◌, none, some, false, pos, eq_ℤ, ◌+ℤ◌, ◌-ℤ◌,
  ◌*ℤ◌, quot_ℤ, returns, panics, Returns, ◌>>=◌, arith, Map, values, string_eq, nat_eq,
}
use native.Mathlib.Decide.{dec_le}
use sync_hook.Numeric.{IsRoot, root_search}
use sync_hook.Pool.{PoolState, GlobalPoolState, zero_weight}
use sync_hook.Aggregator.{
  Aggregator, new_aggregator, sqrt, calculate_weighted_average_price, update_pool_state,
  recalculate_global_metrics, calculate_aggregated_metrics, new_global_state,
}
use sync_hook.Aggregator.Recalculation.{total}
use sync_hook.Aggregator.Average.{calculate_weighted_average_price_bounds}
use sync_hook.Aggregator.Update.{
  IsFresh, Stores, Reachable, IsSettled, fresh, updated, update_pool_state-Stores,
  Reachable-IsSettled, Reachable-AllSettled,
}
use sync_hook.Aggregator.Reports.{
  Reports, calculate_aggregated_metrics-Reports, update_pool_state-zero_weight-panics,
}
use sync_hook.Aggregator.Ranging.{reordered, recalculate_global_metrics-perm}
use sync_hook.Aggregator.Unordered.{Same, SamePool}
use sync_hook.Aggregator.Views.{Report, view, answer, answer-view}
use sync_hook.Aggregator.Roots.{sqrt-IsRoot}
use sync_hook.Pipeline.{IsUsable, update_pool_state-IsUsable}
use sync_hook.Service.Pools
use sync_hook.Predictor
use sync_hook.Tests.Samples.{report, decimals}

-- A pool that the first chain has reported to, with the metrics of that chain.
abbrev one_chain : GlobalPoolState
one_chain = record {
  pool_id = "pool";
  total_liquidity = some (pos 100);
  average_price = some (pos 10);
  imbalance_score = some (pos 0);
  last_update_block = 7;
  chain_states = (1, report 1 100 10 7) ∷ [];
  last_updated = 0;
}

abbrev two_chains : GlobalPoolState
two_chains = record {
  pool_id = "pool";
  total_liquidity = some (pos 400);
  average_price = some (pos 17);
  imbalance_score = some (pos 5);
  last_update_block = 9;
  chain_states = (1, report 1 100 10 7) ∷ (2, report 2 300 20 9) ∷ [];
  last_updated = 0;
}

-- A pool whose chains have no liquidity: its total is known, and nothing else.
abbrev weightless : Map ℕ PoolState → GlobalPoolState
weightless cs = record (new_global_state "pool") {
  total_liquidity = some (pos 0);
  chain_states = cs;
}

abbrev weightless_chain : GlobalPoolState
weightless_chain = weightless ((1, report 1 0 10 7) ∷ [])

abbrev weightless_chains : GlobalPoolState
weightless_chains = weightless ((1, report 1 0 10 7) ∷ (2, report 2 0 20 9) ∷ [])

abbrev holding : GlobalPoolState → Aggregator
holding gs = record { pool_states = ("pool", gs) ∷ [] }

-- The run that the metrics of the pool of two chains come from.
update_run :
    update_pool_state 0 0 "pool" 2 (report 2 300 20 9) (holding one_chain)
    ≡ returns (holding two_chains, none)
unfolding update_pool_state ◌+ℤ◌ quot_ℤ ◌*ℤ◌ ◌-ℤ◌ root_search dec_le
update_run = refl

-- The report of a chain with no liquidity, which is an error for a new pool.
weightless_run :
    update_pool_state 0 0 "pool" 2 (report 2 0 20 9) (holding weightless_chain)
    ≡ returns (holding weightless_chains, some zero_weight)
unfolding update_pool_state ◌+ℤ◌ quot_ℤ ◌*ℤ◌ ◌-ℤ◌
weightless_run = refl

two_chains-IsFresh : IsFresh two_chains
unfolding sqrt ◌+ℤ◌ quot_ℤ ◌*ℤ◌ ◌-ℤ◌ root_search dec_le
two_chains-IsFresh = record {
  total_fresh = refl;
  average_fresh = refl;
  spread_fresh = refl;
  block_fresh = refl;
}

update_pool_state-Stores_example :
    Returns
      (update_pool_state 0 0 "pool" 2 (report 2 300 20 9) (holding one_chain))
      (Stores 0 0 "pool" 2 (report 2 300 20 9) (holding one_chain))
update_pool_state-Stores_example =
    update_pool_state-Stores 0 0 "pool" 2 (report 2 300 20 9) (holding one_chain)

holding_one_run :
    update_pool_state 0 0 "pool" 1 (report 1 100 10 7) new_aggregator
    ≡ returns (holding one_chain, none)
unfolding update_pool_state new_aggregator ◌+ℤ◌ quot_ℤ ◌*ℤ◌ ◌-ℤ◌
holding_one_run = refl

two_chains-Reachable : Reachable (holding two_chains)
two_chains-Reachable =
    updated 0 0 "pool" 2 (report 2 300 20 9) none
      (updated 0 0 "pool" 1 (report 1 100 10 7) none fresh holding_one_run) update_run

Reachable-IsSettled_example : IsSettled two_chains
Reachable-IsSettled_example = Reachable-IsSettled "pool" two_chains two_chains-Reachable refl

swapped : Permᴰ two_chains.chain_states ((2, report 2 300 20 9) ∷ (1, report 1 100 10 7) ∷ [])
swapped = Permᴰ.swap refl refl

recalculate_global_metrics-perm_example :
    recalculate_global_metrics
      (reordered ((2, report 2 300 20 9) ∷ (1, report 1 100 10 7) ∷ []) two_chains)
    ≡ (recalculate_global_metrics two_chains >>= λ (gs, e).
        returns (reordered ((2, report 2 300 20 9) ∷ (1, report 1 100 10 7) ∷ []) gs, e))
recalculate_global_metrics-perm_example =
    recalculate_global_metrics-perm two_chains
      ((2, report 2 300 20 9) ∷ (1, report 1 100 10 7) ∷ []) swapped

-- The aggregator of the two chains, with these listed the other way round.
abbrev swapped_chains : Aggregator
swapped_chains =
    holding (reordered ((2, report 2 300 20 9) ∷ (1, report 1 100 10 7) ∷ []) two_chains)

holding-Same : (gs hs : GlobalPoolState) → SamePool gs hs → Same (holding gs) (holding hs)
holding-Same gs hs h pool = elim (Bool-cases (string_eq.beq "pool" pool)) [
  | inl here ↦ rw here h
  | inr apart ↦ rw apart tt
]

same_view : view (holding two_chains) ≡ view swapped_chains
same_view = Quot.sound (
  Reachable-AllSettled two_chains-Reachable,
  holding-Same two_chains _ (record { chains = swapped; metrics = refl }),
)

abbrev later : List Report
later = record { read₁ = 5; read₂ = 6; pool = "pool"; chain = 3; state = report 3 50 12 11 } ∷ []

answer-view_example : answer "pool" later (holding two_chains) ≡ answer "pool" later swapped_chains
answer-view_example = answer-view "pool" later (holding two_chains) swapped_chains same_view

weighted_chains : eq_ℤ (total (values two_chains.chain_states)) (pos 0) ≡ false
unfolding ◌+ℤ◌
weighted_chains = refl

calculate_weighted_average_price_bounds_example :
    let (gs, e) = calculate_weighted_average_price (values two_chains.chain_states) one_chain in
    (e ≡ none) × ((x : ℕ) × (gs.average_price ≡ some (pos x)) × (10 ≤ x) × (x ≤ 20))
calculate_weighted_average_price_bounds_example =
    calculate_weighted_average_price_bounds 10 20 (values two_chains.chain_states) one_chain
      (ground arith) weighted_chains

sqrt-IsRoot_example :
    IsRoot 29 (sqrt (pos 29))
    × (Pools.sqrt (pos 29) ≡ sqrt (pos 29))
    × (Predictor.sqrt (pos 29) ≡ sqrt (pos 29))
sqrt-IsRoot_example = sqrt-IsRoot (pos 29)

calculate_aggregated_metrics-Reports_example :
    Returns (calculate_aggregated_metrics "pool" (holding two_chains)) (Reports two_chains)
calculate_aggregated_metrics-Reports_example =
    calculate_aggregated_metrics-Reports "pool" two_chains (holding two_chains) refl
      two_chains-IsFresh weighted_chains

update_pool_state-zero_weight-panics_example :
    calculate_aggregated_metrics "pool" (holding weightless_chains) ≡ panics
update_pool_state-zero_weight-panics_example =
    update_pool_state-zero_weight-panics 0 0 "pool" 2 (report 2 0 20 9) (holding weightless_chain)
      (holding weightless_chains) weightless_chains weightless_run refl (omega arith)

update_pool_state-IsUsable_example :
    (gs : GlobalPoolState) × IsUsable decimals "pool" (holding two_chains) gs
update_pool_state-IsUsable_example =
    update_pool_state-IsUsable decimals 0 0 "pool" 2 (report 2 300 20 9) (holding one_chain)
      (holding two_chains) update_run
