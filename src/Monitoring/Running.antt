-- ===== src/Monitoring/Running.antt =====
-- What the loops and the callers of a `Monitor` of AVS/pkg/monitoring/monitor.go do, one step at a time.
use sync_hook.Prelude.{ℕ, ◌≤◌, String, ℤ, Map}
use sync_hook.Alerts.{Message, Datum}
use sync_hook.Monitoring.{
  Monitor, record_state_update, record_rebalancing_request, record_rebalancing_success,
  record_rebalancing_failure, update_pool_states_count, create_alert, resolve_alert, uptime_tick,
  process_expired_alerts, calculate_performance_metrics,
}

module _ {F : Type 0} where
  -- What a started monitor does, at clock readings not before `since`.
  pub data Step (since : ℕ) (m : Monitor F) : Monitor F → Type 0 where
    updated : (now : ℕ) (latency : F) → Step since m (record_state_update now latency m)
    requested : Step since m (record_rebalancing_request m)
    succeeded : Step since m (record_rebalancing_success m)
    failed :
        (id : String) (now : ℕ) (pool : String) (amount : ℤ) (error : String)
        → since ≤ now
        → Step since m (record_rebalancing_failure id now pool amount error m)
    counted : (count : F) → Step since m (update_pool_states_count count m)
    created :
        (id : String) (now : ℕ) (alert_type severity : String) (message : Message F)
        (metadata : Map String (Datum F))
        → since ≤ now
        → Step since m (create_alert id now alert_type severity message metadata m)
    resolution : (now : ℕ) (id : String) → Step since m (resolve_alert now id m).0
    uptime_read : (uptime : F) → Step since m (uptime_tick uptime m)
    expired : (now : ℕ) → Step since m (process_expired_alerts now m)
    calculated : Step since m (calculate_performance_metrics m)

  pub data Steps (since : ℕ) (m : Monitor F) : Monitor F → Type 0 where
    here : Steps since m m
    next : {u w : Monitor F} → Steps since m u → Step since u w → Steps since m w
