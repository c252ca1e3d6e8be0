-- ===== src/Tests/Monitored.antt =====
-- AVS/pkg/monitoring/monitor.go and metrics.go, run with a registry that is the list of its names; and
-- AVS/pkg/utils/bigint.go.
use sync_hook.Prelude.{
  ◌≡◌, refl, String, List, [], ◌∷◌, false, ◌||◌, if◌then◌else◌, ◌>>=◌, ◌==◌, string_eq, ℤ, pos,
  returns, panics, Returns, arith,
}
use sync_hook.Alerts.{Alert, text}
use sync_hook.Monitoring.Registration.{Registry, IsLawful, is_in, register_all}
use sync_hook.Monitoring.{
  Monitor, zero_tracker, monitor_names, new_monitor, create_alert, record_state_update,
  record_rebalancing_failure, process_expired_alerts,
}
use sync_hook.Monitoring.Running.{updated, failed, here, next}
use sync_hook.Monitoring.Expiry.{Has, IsSettled, process_expired_alerts-Settles}
use sync_hook.Monitoring.Counting.{IsConsistent, Steps-new_monitor-IsConsistent}
use sync_hook.Metrics.{new_metrics}
use sync_hook.Metrics.Names.{new_monitor-new_metrics-panics}
use sync_hook.Tests.Samples.{decimals}

abbrev pub names : Registry
names = record {
  State = List String;
  has = is_in;
  must_register = λ name r. if is_in name r then panics else returns (name ∷ r);
}

names-fresh :
    (name : String) (r : List String)
    → is_in name r ≡ false
    → Returns
        (names.must_register name r)
        (λ r'. (other : String) → is_in other r' ≡ (name == other || is_in other r))
names-fresh name r free = rw free (λ other. refl)

pub names-IsLawful : IsLawful names
names-IsLawful = record { again = λ name r taken. rw taken refl; fresh = names-fresh }

new_monitor-new_metrics-panics_example :
    ((new_monitor names (pos 0) [] >>= λ (m, r'). new_metrics decimals names r') ≡ panics)
    × ((new_metrics decimals names [] >>= λ (m, r'). new_monitor names (pos 0) r') ≡ panics)
new_monitor-new_metrics-panics_example =
    new_monitor-new_metrics-panics names names-IsLawful decimals (pos 0) []

-- What is registered is in front of what was.
abbrev reversed : List String → List String → List String
reversed [] r = r
reversed (n ∷ ns) r = reversed ns (n ∷ r)

abbrev fresh_monitor : Monitor ℤ
fresh_monitor = record {
  pool_states_total = pos 0;
  rebalancing_requests = 0;
  rebalancing_success = 0;
  rebalancing_failures = 0;
  state_update_latency = [];
  operator_uptime = pos 0;
  alerts = [];
  performance = zero_tracker (pos 0);
}

new_monitor_runs : new_monitor names (pos 0) [] ≡ returns (fresh_monitor, reversed monitor_names [])
unfolding new_monitor register_all
new_monitor_runs = refl

abbrev busy_monitor : Monitor ℤ
busy_monitor =
    record_state_update 9 (pos 2)
      (record_rebalancing_failure "f" 7 "pool" (pos 1) "late" fresh_monitor)

Steps-new_monitor-IsConsistent_example : IsConsistent busy_monitor
Steps-new_monitor-IsConsistent_example =
    Steps-new_monitor-IsConsistent names (pos 0) [] (reversed monitor_names []) new_monitor_runs
      (next (next here (failed "f" 7 "pool" (pos 1) "late" (omega arith))) (updated 9 (pos 2)))

abbrev raised_alert : Alert ℤ
raised_alert = record {
  id = "a";
  alert_type = "stale";
  severity = "high";
  message = text "stale";
  timestamp = 100;
  resolved = false;
  resolved_at = 0;
  metadata = [];
  source = "";
  tags = [];
}

abbrev alerted_monitor : Monitor ℤ
alerted_monitor = create_alert "a" 100 "stale" "high" (text "stale") [] fresh_monitor

process_expired_alerts-Settles_example :
    Has
      (IsSettled 90_000)
      "a"
      (record_state_update 90_001 (pos 1) (process_expired_alerts 90_000 alerted_monitor)).alerts
unfolding create_alert
process_expired_alerts-Settles_example =
    process_expired_alerts-Settles {v = alerted_monitor} 90_000 "a" raised_alert refl here
      (omega arith) (next here (updated 90_001 (pos 1)))
