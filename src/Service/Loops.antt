-- ===== src/Service/Loops.antt =====
-- The loops that `Start` of AVS/aggregator/aggregator.go begins, as steps on the aggregator's state: each
-- tick of a loop's timer is one step, since it holds the lock of what it works on.
use sync_hook.Prelude.{ℕ, ◌≡◌, String, Bool, true, [], Map, Run, returns, ◌>>=◌}
use sync_hook.Floats.{Float64}
use sync_hook.Service.Tasks.{SyncHookTask, TaskCounts, process_tasks}
use sync_hook.Service.Pools.{GlobalPoolState, aggregate_states, check_rebalancing_needs}

-- A number of seconds, a port or a count is not negative.
pub record Config (F : Type 0) : Type 0 where
  pub server_ip_port_address : String
  pub enable_grpc : Bool
  pub enable_http : Bool
  pub http_port : ℕ
  pub registry_coordinator_address : String
  pub operator_state_retriever_address : String
  pub eth_rpc_url : String
  pub eth_ws_url : String
  pub sync_avs_address : String
  pub across_address : String
  pub task_timeout : ℕ
  pub max_concurrent_tasks : ℕ
  pub task_retry_attempts : ℕ
  pub task_retry_delay : ℕ
  pub state_update_interval : ℕ
  pub state_validation_threshold : F
  pub max_state_age : ℕ
  pub rebalancing_enabled : Bool
  pub rebalancing_threshold : F
  pub max_rebalancing_amount : String
  pub min_rebalancing_amount : String
  pub rebalancing_timeout : ℕ
  pub enable_metrics : Bool
  pub metrics_port : ℕ
  pub enable_health_check : Bool
  pub health_check_interval : ℕ
  pub log_level : String
  pub log_format : String

pub record SyncHookAggregator (F : Type 0) : Type 0 where
  pub config : Config F
  pub tasks_total : ℕ
  pub task_counts : TaskCounts
  pub state_updates : ℕ
  pub rebalancing_ops : ℕ
  pub pool_states : Map String GlobalPoolState
  pub tasks : Map ℕ SyncHookTask

-- `NewSyncHookAggregator`
unfoldable pub new_sync_hook_aggregator : {F : Type 0} → Config F → SyncHookAggregator F
new_sync_hook_aggregator cfg = record {
  config = cfg;
  tasks_total = 0;
  task_counts = record { completed = 0; failed = 0 };
  state_updates = 0;
  rebalancing_ops = 0;
  pool_states = [];
  tasks = [];
}

module _ (fl : Float64) (seconds : ℕ → fl.Float) where
  unfoldable pub task_tick : ℕ → SyncHookAggregator fl.Float → SyncHookAggregator fl.Float
  unfolding process_tasks
  task_tick now v =
      let (ts, n) = process_tasks now v.tasks v.task_counts in
      record v { tasks = ts; task_counts = n }

  unfoldable pub state_tick :
      ℕ → (String → ℕ) → SyncHookAggregator fl.Float → Run (SyncHookAggregator fl.Float)
  unfolding aggregate_states
  state_tick now stamp v =
      aggregate_states fl seconds v.config.max_state_age now stamp v.pool_states v.state_updates
      >>= λ (ps, n). returns (record v { pool_states = ps; state_updates = n })

  unfoldable pub rebalancing_tick : SyncHookAggregator fl.Float → Run (SyncHookAggregator fl.Float)
  unfolding check_rebalancing_needs
  rebalancing_tick v =
      check_rebalancing_needs fl v.config.rebalancing_threshold v.pool_states v.rebalancing_ops
      >>= λ n. returns (record v { rebalancing_ops = n })

  -- The steps of a started aggregator. A loop that the configuration leaves out makes no step; a health
  -- check changes nothing.
  pub data Step (v : SyncHookAggregator fl.Float) : SyncHookAggregator fl.Float → Type 0 where
    processed : (now : ℕ) → Step v (task_tick now v)
    aggregated :
        {v' : SyncHookAggregator fl.Float} (now : ℕ) (stamp : String → ℕ)
        → state_tick now stamp v ≡ returns v'
        → Step v v'
    rebalanced :
        {v' : SyncHookAggregator fl.Float}
        → v.config.rebalancing_enabled ≡ true
        → rebalancing_tick v ≡ returns v'
        → Step v v'
    checked : v.config.enable_health_check ≡ true → Step v v

  pub data Steps (v : SyncHookAggregator fl.Float) : SyncHookAggregator fl.Float → Type 0 where
    here : Steps v v
    next : {u w : SyncHookAggregator fl.Float} → Steps v u → Step u w → Steps v w
