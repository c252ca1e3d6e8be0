-- ===== src/Tests/Services.antt =====
-- AVS/aggregator/aggregator.go, run on one task and on two pools.
use sync_hook.Prelude.{
  if◌then◌else◌, ◌+◌, ℕ, ◌*◌, ◌≤◌, ◌≡◌, refl, String, [], ◌∷◌, none, some, Bool, true, false, ℤ,
  pos, returns, Returns, Map, nat_eq, string_eq, inl, ◌>>=◌,
}
use sync_hook.Service.Tasks.{SyncHookTask, SyncHookTaskResponse, process_tasks}
use sync_hook.Service.Pools.{
  check_rebalancing_needs, GlobalPoolState, aggregate_states, aggregate_chain_states,
}
use sync_hook.Commands.Aggregating.{default_config}
use sync_hook.Service.Loops.{
  Config, SyncHookAggregator, new_sync_hook_aggregator, task_tick, Steps, processed, here, next,
}
use sync_hook.Service.Consensus.{
  AllBacked, KeptIn, processed_task, process_tasks_lem, Steps-AllBacked, Steps-KeptIn,
}
use sync_hook.Service.Aging.{
  AgedIn, plain, stamped, aggregate_states-AgedIn, aggregate_chain_states-eq,
}
use sync_hook.Aggregator.{recalculate_global_metrics}
use sync_hook.Predictor.{predict_rebalancing_need}
use sync_hook.Predictor.Amounts.{check_rebalancing_needs-predict_rebalancing_need}
use sync_hook.Tests.Samples.{decimals, report}

abbrev answer : Bool → SyncHookTaskResponse
answer ok = record {
  operator_address = 1;
  response = 1 ∷ [];
  signature = [];
  timestamp = 0;
  valid = ok;
}

-- A task whose threshold is 2, with two valid answers of three, until time 50.
abbrev task : Bool → ℕ → SyncHookTask
task reached threshold = record {
  task_id = 7;
  task_type = 0;
  chain_id = 1;
  pool_id = 1;
  payload = [];
  deadline = 50;
  status = 1;
  created_at = 0;
  quorum_numbers = 0 ∷ [];
  quorum_threshold_percentage = threshold;
  responses = ("a", answer true) ∷ ("b", answer false) ∷ ("c", answer true) ∷ [];
  consensus_reached = reached;
  result = [];
}

-- `F` of `decimals`; a duration is a count of seconds.
abbrev config : Config ℤ
config = record (default_config decimals) { max_state_age = 60; rebalancing_threshold = pos 10 }

abbrev seconds : ℕ → ℤ
seconds n = pos (n * 1_000_000)

abbrev service : SyncHookTask → SyncHookAggregator ℤ
service t = record (new_sync_hook_aggregator config) { tasks = (7, t) ∷ [] }

two_ticks-Steps :
    Steps decimals seconds
      (service (task false 2))
      (task_tick decimals seconds 60 (task_tick decimals seconds 40 (service (task false 2))))
two_ticks-Steps = next (next here (processed 40)) (processed 60)

Steps-AllBacked_example :
    AllBacked decimals seconds
      (task_tick decimals seconds 60 (task_tick decimals seconds 40 (service (task false 2))))
Steps-AllBacked_example = Steps-AllBacked decimals seconds two_ticks-Steps (inl refl, tt)

Steps-KeptIn_example :
    KeptIn decimals seconds 7
      (task false 2)
      (task_tick decimals seconds 60 (task_tick decimals seconds 40 (service (task false 2))))
Steps-KeptIn_example = Steps-KeptIn decimals seconds 7 (task false 2) refl two_ticks-Steps

abbrev pool : ℕ → GlobalPoolState
pool updated = record {
  pool_id = "new";
  total_liquidity = none;
  average_price = none;
  imbalance_score = none;
  last_update_block = 0;
  chain_states = (1, report 1 100 10 7) ∷ (2, report 2 300 20 9) ∷ [];
  last_updated = updated;
  consensus_reached = false;
}

-- The first pool is 120 seconds old, the second 20.
abbrev pools : Map String GlobalPoolState
pools = ("old", pool 0) ∷ ("new", pool 100) ∷ []

aggregate_states-AgedIn_example :
    Returns
      (aggregate_states decimals seconds 60 120 (λ p. 121) pools 0)
      (λ (m, n). AgedIn decimals seconds 60 120 (λ p. 121) "new" (pool 100) m × (0 ≤ n))
aggregate_states-AgedIn_example =
    aggregate_states-AgedIn decimals seconds 60 120 (λ p. 121) pools 0 "new" (pool 100)
      (refl, (refl, tt)) refl

process_tasks_lem_example :
    process_tasks 40
      ((7, task false 2) ∷ (8, task true 2) ∷ [])
      (record { completed = 0; failed = 0 })
    ≡ (
      (7, processed_task 40 (task false 2)) ∷ (8, processed_task 40 (task true 2)) ∷ [],
      record { completed = 1; failed = 0 },
    )
process_tasks_lem_example =
    process_tasks_lem 40 ((7, task false 2) ∷ (8, task true 2) ∷ [])
      (record { completed = 0; failed = 0 })

aggregate_chain_states-eq_example :
    (aggregate_chain_states 130 (pool 100) >>= λ (gs, e). returns (plain gs, e))
    ≡ (recalculate_global_metrics (plain (pool 100)) >>= λ r. returns (stamped 130 r))
aggregate_chain_states-eq_example = aggregate_chain_states-eq 130 (pool 100)

-- The two chains hold 100 and 300, so half of the liquidity would have to move.
abbrev known_pool : GlobalPoolState
known_pool = record (pool 100) { total_liquidity = some (pos 400) }

check_rebalancing_needs-predict_rebalancing_need_example :
    check_rebalancing_needs decimals (pos 10_000_000) (("new", known_pool) ∷ []) 3 ≡ (
      predict_rebalancing_need decimals (plain known_pool) (pos 10_000_000) >>= λ (need, amount).
      check_rebalancing_needs decimals (pos 10_000_000) [] (if need then 3 + 1 else 3))
check_rebalancing_needs-predict_rebalancing_need_example =
    check_rebalancing_needs-predict_rebalancing_need decimals (pos 10_000_000) "new" known_pool [] 3
