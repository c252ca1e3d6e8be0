-- ===== src/Monitoring/HealthCheck.antt =====
-- `HealthCheck` of AVS/pkg/monitoring/monitor.go.
use sync_hook.Prelude.{
  ℕ, ◌-◌, ◌≤◌, String, List, [], ◌∷◌, Option, none, some, Bool, true, false, not, ltb, length,
  string_eq, values, arith,
}
use sync_hook.Alerts.{Alert}
use sync_hook.Monitoring.{Monitor, filter_alerts, get_alerts}

-- Five minutes in nanoseconds.
abbrev pub five_minutes : ℕ
five_minutes = 300_000_000_000

pub record Health (F : Type 0) : Type 0 where
  pub healthy : Bool
  pub uptime : F
  pub last_update : Option ℕ
  pub state_updates : ℕ
  pub rebalancing_ops : ℕ
  pub successful_ops : ℕ
  pub failed_ops : ℕ
  pub active_alerts : ℕ
  pub critical_alerts : ℕ

-- The time since the zero `time.Time` is the longest `time.Duration`.
abbrev pub is_overdue : ℕ → Option ℕ → Bool
is_overdue now none = true
is_overdue now (some t) = ltb five_minutes (now - t)

module _ {F : Type 0} where
  unfoldable pub health_check : ℕ → Monitor F → Health F
  unfolding get_alerts
  health_check now m = record {
    healthy = not (is_overdue now m.performance.last_update);
    uptime = m.performance.uptime;
    last_update = m.performance.last_update;
    state_updates = m.performance.state_updates;
    rebalancing_ops = m.performance.rebalancing_ops;
    successful_ops = m.performance.successful_ops;
    failed_ops = m.performance.failed_ops;
    active_alerts = length (get_alerts "" false m);
    critical_alerts = length (get_alerts "critical" false m);
  }

  filter_alerts-le :
      (severity : String) (resolved : Bool) (list : List (Alert F))
      → length (filter_alerts severity resolved list) ≤ length (filter_alerts "" resolved list)
  filter_alerts-le severity resolved [] = omega arith
  filter_alerts-le severity resolved (a ∷ list) =
      ground (arith, filter_alerts-le severity resolved list)

  -- Every alert that is counted as critical is counted as active.
  pub critical-le-active :
      (now : ℕ) (m : Monitor F)
      → (health_check now m).critical_alerts ≤ (health_check now m).active_alerts
  unfolding health_check get_alerts
  critical-le-active now m = filter_alerts-le "critical" false (values m.alerts)
