-- ===== src/Metrics.antt =====
-- `Metrics` of AVS/pkg/monitoring/metrics.go: what each Prometheus metric of the operator holds. A counter
-- is a number, a histogram the list of what it has observed, the last first. A latency is given in
-- seconds.
pub mod Observing
pub mod Names
use sync_hook.Prelude.{
  ℕ, suc, String, List, [], ◌∷◌, Bool, if◌then◌else◌, ℤ, pos, Run, returns, ◌>>=◌,
}
use sync_hook.Floats.{Float64}
use sync_hook.Monitoring.Registration.{Registry, register_all}

pub record Metrics (F : Type 0) : Type 0 where
  pub operator_uptime : F
  pub operator_status : F
  pub pool_states_total : F
  pub pool_states_active : F
  pub pool_states_stale : F
  pub state_updates_total : ℕ
  pub state_update_latency : List F
  pub state_update_errors : ℕ
  pub rebalancing_requests : ℕ
  pub rebalancing_success : ℕ
  pub rebalancing_failures : ℕ
  pub rebalancing_amount : List F
  pub rebalancing_cost : List F
  pub tasks_total : ℕ
  pub tasks_completed : ℕ
  pub tasks_failed : ℕ
  pub task_processing_time : List F
  pub consensus_reached : ℕ
  pub consensus_failed : ℕ
  pub consensus_latency : List F
  pub cross_chain_ops : ℕ
  pub cross_chain_success : ℕ
  pub cross_chain_failures : ℕ
  pub cross_chain_latency : List F
  pub alerts_total : ℕ
  pub alerts_active : F
  pub alerts_resolved : ℕ
  pub cpu_usage : F
  pub memory_usage : F
  pub disk_usage : F
  pub network_latency : List F

-- The names that `NewMetrics` registers, in its order.
abbrev pub metrics_names : List String
metrics_names =
    "synchook_operator_uptime_seconds" ∷ "synchook_operator_status" ∷ "synchook_pool_states_total"
    ∷ "synchook_pool_states_active" ∷ "synchook_pool_states_stale" ∷ "synchook_state_updates_total"
    ∷ "synchook_state_update_latency_seconds" ∷ "synchook_state_update_errors_total"
    ∷ "synchook_rebalancing_requests_total" ∷ "synchook_rebalancing_success_total"
    ∷ "synchook_rebalancing_failures_total" ∷ "synchook_rebalancing_amount_tokens"
    ∷ "synchook_rebalancing_cost_eth" ∷ "synchook_tasks_total" ∷ "synchook_tasks_completed_total"
    ∷ "synchook_tasks_failed_total" ∷ "synchook_task_processing_time_seconds"
    ∷ "synchook_consensus_reached_total" ∷ "synchook_consensus_failed_total"
    ∷ "synchook_consensus_latency_seconds" ∷ "synchook_cross_chain_operations_total"
    ∷ "synchook_cross_chain_success_total" ∷ "synchook_cross_chain_failures_total"
    ∷ "synchook_cross_chain_latency_seconds" ∷ "synchook_alerts_total" ∷ "synchook_alerts_active"
    ∷ "synchook_alerts_resolved_total" ∷ "synchook_cpu_usage_percent"
    ∷ "synchook_memory_usage_bytes" ∷ "synchook_disk_usage_bytes"
    ∷ "synchook_network_latency_seconds" ∷ []

module _ (fl : Float64) where
  -- The metrics as they are made.
  abbrev pub zero_metrics : Metrics fl.Float
  zero_metrics = record {
    operator_uptime = fl.literal 0 0;
    operator_status = fl.literal 0 0;
    pool_states_total = fl.literal 0 0;
    pool_states_active = fl.literal 0 0;
    pool_states_stale = fl.literal 0 0;
    state_updates_total = 0;
    state_update_latency = [];
    state_update_errors = 0;
    rebalancing_requests = 0;
    rebalancing_success = 0;
    rebalancing_failures = 0;
    rebalancing_amount = [];
    rebalancing_cost = [];
    tasks_total = 0;
    tasks_completed = 0;
    tasks_failed = 0;
    task_processing_time = [];
    consensus_reached = 0;
    consensus_failed = 0;
    consensus_latency = [];
    cross_chain_ops = 0;
    cross_chain_success = 0;
    cross_chain_failures = 0;
    cross_chain_latency = [];
    alerts_total = 0;
    alerts_active = fl.literal 0 0;
    alerts_resolved = 0;
    cpu_usage = fl.literal 0 0;
    memory_usage = fl.literal 0 0;
    disk_usage = fl.literal 0 0;
    network_latency = [];
  }

  unfoldable pub new_metrics : (reg : Registry) → reg.State → Run (Metrics fl.Float × reg.State)
  new_metrics reg r = register_all reg metrics_names r >>= λ r'. returns (zero_metrics, r')

  unfoldable pub record_operator_uptime : fl.Float → Metrics fl.Float → Metrics fl.Float
  record_operator_uptime uptime m = record m { operator_uptime = uptime }

  unfoldable pub record_operator_status : Bool → Metrics fl.Float → Metrics fl.Float
  record_operator_status healthy m = record m {
    operator_status = if healthy then fl.literal 1 0 else fl.literal 0 0;
  }

  unfoldable pub record_pool_states : ℤ → ℤ → ℤ → Metrics fl.Float → Metrics fl.Float
  record_pool_states total active stale m = record m {
    pool_states_total = fl.of_int total;
    pool_states_active = fl.of_int active;
    pool_states_stale = fl.of_int stale;
  }

  unfoldable pub record_state_update : fl.Float → Metrics fl.Float → Metrics fl.Float
  record_state_update latency m = record m {
    state_updates_total = suc m.state_updates_total;
    state_update_latency = latency ∷ m.state_update_latency;
  }

  unfoldable pub record_state_update_error : Metrics fl.Float → Metrics fl.Float
  record_state_update_error m = record m { state_update_errors = suc m.state_update_errors }

  unfoldable pub record_rebalancing_request : fl.Float → Metrics fl.Float → Metrics fl.Float
  record_rebalancing_request amount m = record m {
    rebalancing_requests = suc m.rebalancing_requests;
    rebalancing_amount = amount ∷ m.rebalancing_amount;
  }

  unfoldable pub record_rebalancing_success :
      fl.Float → fl.Float → Metrics fl.Float → Metrics fl.Float
  record_rebalancing_success amount cost m = record m {
    rebalancing_success = suc m.rebalancing_success;
    rebalancing_amount = amount ∷ m.rebalancing_amount;
    rebalancing_cost = cost ∷ m.rebalancing_cost;
  }

  unfoldable pub record_rebalancing_failure : fl.Float → Metrics fl.Float → Metrics fl.Float
  record_rebalancing_failure amount m = record m {
    rebalancing_failures = suc m.rebalancing_failures;
    rebalancing_amount = amount ∷ m.rebalancing_amount;
  }

  unfoldable pub record_task_processed : fl.Float → Metrics fl.Float → Metrics fl.Float
  record_task_processed processing_time m = record m {
    tasks_total = suc m.tasks_total;
    task_processing_time = processing_time ∷ m.task_processing_time;
  }

  unfoldable pub record_task_completed : Metrics fl.Float → Metrics fl.Float
  record_task_completed m = record m { tasks_completed = suc m.tasks_completed }

  unfoldable pub record_task_failed : Metrics fl.Float → Metrics fl.Float
  record_task_failed m = record m { tasks_failed = suc m.tasks_failed }

  unfoldable pub record_consensus_reached : fl.Float → Metrics fl.Float → Metrics fl.Float
  record_consensus_reached latency m = record m {
    consensus_reached = suc m.consensus_reached;
    consensus_latency = latency ∷ m.consensus_latency;
  }

  unfoldable pub record_consensus_failed : Metrics fl.Float → Metrics fl.Float
  record_consensus_failed m = record m { consensus_failed = suc m.consensus_failed }

  unfoldable pub record_cross_chain_operation : fl.Float → Metrics fl.Float → Metrics fl.Float
  record_cross_chain_operation latency m = record m {
    cross_chain_ops = suc m.cross_chain_ops;
    cross_chain_latency = latency ∷ m.cross_chain_latency;
  }

  unfoldable pub record_cross_chain_success : Metrics fl.Float → Metrics fl.Float
  record_cross_chain_success m = record m { cross_chain_success = suc m.cross_chain_success }

  unfoldable pub record_cross_chain_failure : Metrics fl.Float → Metrics fl.Float
  record_cross_chain_failure m = record m { cross_chain_failures = suc m.cross_chain_failures }

  unfoldable pub record_alert : Metrics fl.Float → Metrics fl.Float
  record_alert m = record m { alerts_total = suc m.alerts_total }

  unfoldable pub record_alerts_active : ℤ → Metrics fl.Float → Metrics fl.Float
  record_alerts_active count m = record m { alerts_active = fl.of_int count }

  unfoldable pub record_alert_resolved : Metrics fl.Float → Metrics fl.Float
  record_alert_resolved m = record m { alerts_resolved = suc m.alerts_resolved }

  unfoldable pub record_performance_metrics :
      fl.Float → fl.Float → fl.Float → Metrics fl.Float → Metrics fl.Float
  record_performance_metrics cpu memory disk m = record m {
    cpu_usage = cpu;
    memory_usage = memory;
    disk_usage = disk;
  }

  unfoldable pub record_network_latency : fl.Float → Metrics fl.Float → Metrics fl.Float
  record_network_latency latency m = record m { network_latency = latency ∷ m.network_latency }

  -- 25 %, a gibibyte and ten.
  unfoldable pub collect_system_metrics : Metrics fl.Float → Metrics fl.Float
  unfolding record_performance_metrics
  collect_system_metrics m =
      record_performance_metrics (fl.literal 25 0) (fl.literal 1_073_741_824 0)
        (fl.literal 10_737_418_240 0) m
