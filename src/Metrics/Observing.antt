-- ===== src/Metrics/Observing.antt =====
-- How the histograms and the counters of AVS/pkg/monitoring/metrics.go go together.
use sync_hook.Prelude.{
  ◌+◌, Bool, ℤ, ◌≡◌, ap, subst, returns, >>=-returns, returns-injective, length, arith,
}
use sync_hook.Floats.{Float64}
use sync_hook.Monitoring.Registration.{Registry, register_all}
use sync_hook.Metrics.{
  Metrics, metrics_names, new_metrics, record_operator_uptime, record_operator_status,
  record_pool_states, record_state_update, record_state_update_error, record_rebalancing_request,
  record_rebalancing_success, record_rebalancing_failure, record_task_processed,
  record_task_completed, record_task_failed, record_consensus_reached, record_consensus_failed,
  record_cross_chain_operation, record_cross_chain_success, record_cross_chain_failure,
  record_alert, record_alerts_active, record_alert_resolved, record_performance_metrics,
  record_network_latency, collect_system_metrics,
}

-- A histogram of each kind of work has as many observations as its counters count: the amounts are those
-- of the requests, of the successes and of the failures, and a cost is observed for each success.
pub record IsObserved {F : Type 0} (m : Metrics F) : Type 0 where
  pub updates : length m.state_update_latency ≡ m.state_updates_total
  pub amounts :
      length m.rebalancing_amount
      ≡ m.rebalancing_requests + m.rebalancing_success + m.rebalancing_failures
  pub costs : length m.rebalancing_cost ≡ m.rebalancing_success
  pub processed : length m.task_processing_time ≡ m.tasks_total
  pub reached : length m.consensus_latency ≡ m.consensus_reached
  pub crossed : length m.cross_chain_latency ≡ m.cross_chain_ops

module _ (fl : Float64) where
  -- What is recorded while the operator runs.
  pub data Recording (m : Metrics fl.Float) : Metrics fl.Float → Type 0 where
    operator_uptime_recorded :
        (uptime : fl.Float) → Recording m (record_operator_uptime fl uptime m)
    operator_status_recorded : (healthy : Bool) → Recording m (record_operator_status fl healthy m)
    pool_states_recorded :
        (total : ℤ) (active : ℤ) (stale : ℤ)
        → Recording m (record_pool_states fl total active stale m)
    state_update_recorded : (latency : fl.Float) → Recording m (record_state_update fl latency m)
    state_update_error_recorded : Recording m (record_state_update_error fl m)
    rebalancing_request_recorded :
        (amount : fl.Float) → Recording m (record_rebalancing_request fl amount m)
    rebalancing_success_recorded :
        (amount : fl.Float) (cost : fl.Float)
        → Recording m (record_rebalancing_success fl amount cost m)
    rebalancing_failure_recorded :
        (amount : fl.Float) → Recording m (record_rebalancing_failure fl amount m)
    task_processed_recorded :
        (processing_time : fl.Float) → Recording m (record_task_processed fl processing_time m)
    task_completed_recorded : Recording m (record_task_completed fl m)
    task_failed_recorded : Recording m (record_task_failed fl m)
    consensus_reached_recorded :
        (latency : fl.Float) → Recording m (record_consensus_reached fl latency m)
    consensus_failed_recorded : Recording m (record_consensus_failed fl m)
    cross_chain_operation_recorded :
        (latency : fl.Float) → Recording m (record_cross_chain_operation fl latency m)
    cross_chain_success_recorded : Recording m (record_cross_chain_success fl m)
    cross_chain_failure_recorded : Recording m (record_cross_chain_failure fl m)
    alert_recorded : Recording m (record_alert fl m)
    alerts_active_recorded : (count : ℤ) → Recording m (record_alerts_active fl count m)
    alert_resolved_recorded : Recording m (record_alert_resolved fl m)
    performance_metrics_recorded :
        (cpu : fl.Float) (memory : fl.Float) (disk : fl.Float)
        → Recording m (record_performance_metrics fl cpu memory disk m)
    network_latency_recorded :
        (latency : fl.Float) → Recording m (record_network_latency fl latency m)
    collected : Recording m (collect_system_metrics fl m)

  pub data Recordings (m : Metrics fl.Float) : Metrics fl.Float → Type 0 where
    here : Recordings m m
    next : {u w : Metrics fl.Float} → Recordings m u → Recording u w → Recordings m w

  Recording-IsObserved : {m w : Metrics fl.Float} → Recording m w → IsObserved m → IsObserved w
  unfolding record_operator_uptime record_operator_status record_pool_states record_state_update
      record_state_update_error record_rebalancing_request record_rebalancing_success
      record_rebalancing_failure record_task_processed record_task_completed record_task_failed
      record_consensus_reached record_consensus_failed record_cross_chain_operation
      record_cross_chain_success record_cross_chain_failure record_alert record_alerts_active
      record_alert_resolved record_performance_metrics record_network_latency collect_system_metrics
  Recording-IsObserved (operator_uptime_recorded uptime) h = ground arith
  Recording-IsObserved _ h = ground arith

  Recordings-IsObserved : {m w : Metrics fl.Float} → Recordings m w → IsObserved m → IsObserved w
  Recordings-IsObserved here h = h
  Recordings-IsObserved (next r s) h = Recording-IsObserved s (Recordings-IsObserved r h)

  new_metrics-IsObserved :
      (reg : Registry) (r r' : reg.State) (m : Metrics fl.Float)
      → new_metrics fl reg r ≡ returns (m, r')
      → IsObserved m
  unfolding new_metrics
  new_metrics-IsObserved reg r r' m e =
      let (r'', registered, made) = >>=-returns (register_all reg metrics_names r) _ e in
      subst IsObserved (ap (λ x. x.0) (returns-injective _ _ made)) (omega arith)

  -- From the construction of the metrics on, whatever is recorded, each histogram of updates, tasks,
  -- consensus and operations between chains has as many observations as its counter counts, one cost is
  -- observed for each successful rebalancing, and one amount for each request, each success and each
  -- failure.
  pub Recordings-new_metrics-IsObserved :
      (reg : Registry) (r r' : reg.State) {m w : Metrics fl.Float}
      → new_metrics fl reg r ≡ returns (m, r')
      → Recordings m w
      → IsObserved w
  Recordings-new_metrics-IsObserved reg r r' {m} made run =
      Recordings-IsObserved run (new_metrics-IsObserved reg r r' m made)
