-- ===== src/Monitoring.antt =====
-- `Monitor` of AVS/pkg/monitoring/monitor.go: the counts of rebalancing operations, the alerts, which
-- expire after a day, and the health of the operator. A latency is given in seconds, and an `int64` count
-- of operations is a number. The readings of the clock are arguments.
pub mod Registration
pub mod Running
pub mod HealthCheck
pub mod Expiry
pub mod Counting
use sync_hook.Prelude.{
  ℕ, suc, ◌-◌, ◌≤◌, String, List, [], ◌∷◌, Option, none, some, Bool, true, false, not, ◌&&◌, ◌||◌,
  if◌then◌else◌, ltb, length, ◌==◌, string_eq, ℤ, Run, returns, ◌>>=◌, Map, values, map_values,
  lookup, insert,
}
use sync_hook.Words.{sub64}
use sync_hook.Floats.{Float64}
use sync_hook.Decimal.{to_string}
use sync_hook.Alerts.{Alert, Message, rebalancing_failed, Datum, given, printed}
use sync_hook.Alerts.Reading.{other_severity, same_bool}
use sync_hook.Monitoring.Registration.{Registry, register_all}

-- `last_update` is `none` while it is the zero `time.Time`; else it is in nanoseconds.
pub record PerformanceTracker (F : Type 0) : Type 0 where
  pub state_updates : ℕ
  pub rebalancing_ops : ℕ
  pub successful_ops : ℕ
  pub failed_ops : ℕ
  pub average_latency : F
  pub uptime : F
  pub last_update : Option ℕ

pub record Monitor (F : Type 0) : Type 0 where
  pub pool_states_total : F
  pub rebalancing_requests : ℕ
  pub rebalancing_success : ℕ
  pub rebalancing_failures : ℕ
  pub state_update_latency : List F
  pub operator_uptime : F
  pub alerts : Map String (Alert F)
  pub performance : PerformanceTracker F

-- The names that `NewMonitor` registers, in its order.
abbrev pub monitor_names : List String
monitor_names =
    "synchook_pool_states_total" ∷ "synchook_rebalancing_requests_total"
    ∷ "synchook_rebalancing_success_total" ∷ "synchook_rebalancing_failures_total"
    ∷ "synchook_state_update_latency_seconds" ∷ "synchook_operator_uptime_seconds" ∷ []

-- A day.
abbrev pub expired_threshold : ℕ
expired_threshold = 86_400

module _ {F : Type 0} where
  abbrev pub zero_tracker : F → PerformanceTracker F
  zero_tracker z = record {
    state_updates = 0;
    rebalancing_ops = 0;
    successful_ops = 0;
    failed_ops = 0;
    average_latency = z;
    uptime = z;
    last_update = none;
  }

  -- `z` is the zero of `float64`.
  unfoldable pub new_monitor : (reg : Registry) → F → reg.State → Run (Monitor F × reg.State)
  unfolding register_all
  new_monitor reg z r = register_all reg monitor_names r >>= λ r'. returns (
    record {
      pool_states_total = z;
      rebalancing_requests = 0;
      rebalancing_success = 0;
      rebalancing_failures = 0;
      state_update_latency = [];
      operator_uptime = z;
      alerts = [];
      performance = zero_tracker z;
    },
    r',
  )

  unfoldable pub record_state_update : ℕ → F → Monitor F → Monitor F
  record_state_update now latency m = record m {
    state_update_latency = latency ∷ m.state_update_latency;
    performance = record m.performance {
      state_updates = suc m.performance.state_updates;
      last_update = some now;
    };
  }

  unfoldable pub record_rebalancing_request : Monitor F → Monitor F
  record_rebalancing_request m = record m {
    rebalancing_requests = suc m.rebalancing_requests;
    performance = record m.performance { rebalancing_ops = suc m.performance.rebalancing_ops };
  }

  unfoldable pub record_rebalancing_success : Monitor F → Monitor F
  record_rebalancing_success m = record m {
    rebalancing_success = suc m.rebalancing_success;
    performance = record m.performance { successful_ops = suc m.performance.successful_ops };
  }

  -- `id` is the text of the type and of the clock in nanoseconds.
  unfoldable pub create_alert :
      String → ℕ → String → String → Message F → Map String (Datum F) → Monitor F → Monitor F
  create_alert id now alert_type severity message metadata m = record m {
    alerts =
        insert id
          (record {
            id = id;
            alert_type = alert_type;
            severity = severity;
            message = message;
            timestamp = now;
            resolved = false;
            resolved_at = 0;
            metadata = metadata;
            source = "";
            tags = [];
          })
          m.alerts;
  }

  unfoldable pub record_rebalancing_failure :
      String → ℕ → String → ℤ → String → Monitor F → Monitor F
  unfolding create_alert
  record_rebalancing_failure id now pool amount error m =
      create_alert id now "rebalancing_failure" "high" (rebalancing_failed pool error)
        (("poolID", given pool)
          ∷ ("amount", printed (to_string amount))
          ∷ ("error", given error)
          ∷ [])
        (record m {
          rebalancing_failures = suc m.rebalancing_failures;
          performance = record m.performance { failed_ops = suc m.performance.failed_ops };
        })

  unfoldable pub update_pool_states_count : F → Monitor F → Monitor F
  update_pool_states_count count m = record m { pool_states_total = count }

  abbrev pub resolve_found : ℕ → String → Option (Alert F) → Monitor F → Monitor F × Bool
  resolve_found now id none m = (m, false)
  resolve_found now id (some a) m = (
    record m { alerts = insert id (record a { resolved = true; resolved_at = now }) m.alerts },
    true,
  )

  -- `false` is the error `alert not found`.
  unfoldable pub resolve_alert : ℕ → String → Monitor F → Monitor F × Bool
  resolve_alert now id m = resolve_found now id (lookup id m.alerts) m

  -- The loop of `GetAlerts`, with its two `continue`s.
  abbrev pub filter_alerts : String → Bool → List (Alert F) → List (Alert F)
  filter_alerts severity resolved [] = []
  filter_alerts severity resolved (a ∷ list) =
      let rest = filter_alerts severity resolved list in
      if other_severity severity a
      then rest
      else if not (same_bool a.resolved resolved)
      then rest
      else a ∷ rest

  unfoldable pub get_alerts : String → Bool → Monitor F → List (Alert F)
  get_alerts severity resolved m = filter_alerts severity resolved (values m.alerts)

  unfoldable pub get_performance_metrics : Monitor F → PerformanceTracker F
  get_performance_metrics m = m.performance

  -- A tick of `trackUptime`, with the seconds since the start.
  unfoldable pub uptime_tick : F → Monitor F → Monitor F
  uptime_tick uptime m = record m {
    operator_uptime = uptime;
    performance = record m.performance { uptime = uptime };
  }

  abbrev pub expire : ℕ → Alert F → Alert F
  expire now a =
      if not a.resolved && ltb expired_threshold (sub64 now a.timestamp)
      then record a { resolved = true; resolved_at = now }
      else a

  -- A tick of `processAlerts`: what `processCriticalAlerts` does is to log.
  unfoldable pub process_expired_alerts : ℕ → Monitor F → Monitor F
  unfolding sub64
  process_expired_alerts now m = record m { alerts = map_values (expire now) m.alerts }

  -- The rate of success is logged; then the counts are reset.
  unfoldable pub calculate_performance_metrics : Monitor F → Monitor F
  calculate_performance_metrics m =
      if ltb 1000 m.performance.state_updates
      then record m {
        performance = record m.performance {
          state_updates = 0;
          rebalancing_ops = 0;
          successful_ops = 0;
          failed_ops = 0;
        };
      }
      else m
