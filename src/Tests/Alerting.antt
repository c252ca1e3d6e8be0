-- ===== src/Tests/Alerting.antt =====
-- AVS/pkg/monitoring/alerts.go, run on a few alerts.
use sync_hook.Prelude.{
  ℕ, ◌≡◌, refl, String, [], ◌∷◌, ◌++◌, some, Bool, true, false, ℤ, pos, Map, string_eq, arith, keep,
  List, ltb_ℤ,
}
use sync_hook.Alerts.{
  Alert, AlertManager, AlertThresholds, text, create_alert, resolve_alert, get_alert,
  cleanup_old_alerts, new_alert_manager,
}
use sync_hook.Alerts.Checks.{check_thresholds}
use sync_hook.Alerts.Lifecycle.{Resolves, resolve_alert-Resolves}
use sync_hook.Alerts.Handling.{AlertHandler, handle_alert, Life, Handled, Life-Handled}
use sync_hook.Alerts.Handling
use sync_hook.Alerts.Cleaning.{unless_stale, cleanup_old_alerts_lem}
use sync_hook.Alerts.Thresholds.{Limit, limits, is_breached, Raises, check_thresholds-Raises}
use sync_hook.Tests.Samples.{decimals}

abbrev uptime_alert : String → Bool → ℕ → Alert ℤ
uptime_alert id done at = record {
  id = id;
  alert_type = "uptime";
  severity = "critical";
  message = text "down";
  timestamp = 0;
  resolved = done;
  resolved_at = at;
  metadata = [];
  source = "monitoring";
  tags = [];
}

abbrev loose : AlertThresholds ℤ
loose = record {
  price_deviation = pos 100_000;
  liquidity_imbalance = pos 200_000;
  response_time = 30;
  error_rate = pos 50_000;
  uptime = pos 990_000;
  memory_usage = pos 800_000;
  cpu_usage = pos 800_000;
}

-- One alert active, and one that was resolved at time 5.
abbrev two_alerts : AlertManager ℤ
two_alerts = record {
  alerts = ("a", uptime_alert "a" false 0) ∷ ("b", uptime_alert "b" true 5) ∷ [];
  alert_chan = [];
  resolve_chan = [];
  thresholds = loose;
}

resolve_alert-Resolves_example :
    Resolves 9 "a" two_alerts (some (uptime_alert "a" false 0)) (resolve_alert 9 "a" two_alerts)
unfolding get_alert
resolve_alert-Resolves_example = resolve_alert-Resolves 9 "a" two_alerts

-- The alert that was resolved at time 5 is gone seven days later.
cleanup_old_alerts_lem_example :
    get_alert "b" (cleanup_old_alerts 604_900 two_alerts)
    ≡ unless_stale 100 (get_alert "b" two_alerts)
cleanup_old_alerts_lem_example =
    cleanup_old_alerts_lem 604_900 "b" two_alerts (refl, (refl, tt)) (omega arith) (omega arith)

abbrev measured : Map String ℤ
measured = ("uptime", pos 500_000) ∷ ("error_rate", pos 40_000) ∷ ("cpu_usage", pos 900_000) ∷ []

abbrev breaches : List (Limit ℤ)
breaches =
    record { metric = "uptime"; severity = "critical"; beyond = λ v. ltb_ℤ v loose.uptime }
    ∷ record { metric = "cpu_usage"; severity = "medium"; beyond = ltb_ℤ loose.cpu_usage }
    ∷ []

-- The uptime is too low, and the load of the processor too high.
measured-breaches : keep (is_breached decimals measured) (limits decimals loose) ≡ breaches
measured-breaches = refl

check_thresholds-Raises_example :
    Raises decimals
      (λ t n. t)
      (λ t. (1, 1))
      breaches
      two_alerts
      (check_thresholds decimals (λ t n. t) (λ t. (1, 1)) measured two_alerts)
check_thresholds-Raises_example =
    check_thresholds-Raises decimals (λ t n. t) (λ t. (1, 1)) measured two_alerts (omega arith)

-- A handler that notes its name and the id, and one that does so and fails.
abbrev noting : String → Bool → AlertHandler (List String)
noting name fails = record {
  handle_alert = λ id w. (w ++ (name ∷ id ∷ []), fails);
  handle_alert_resolved = λ id w. (w ++ (name ∷ "resolved" ∷ id ∷ []), fails);
}

abbrev two_handlers : List (AlertHandler (List String))
two_handlers = noting "first" true ∷ noting "second" false ∷ []

-- Two alerts, of which the first is handed on.
abbrev handing : AlertManager ℤ
handing =
    record (create_alert "b" 4 "uptime" "critical" (text "down") "monitoring" [] [] (
      create_alert "a" 3 "uptime" "critical" (text "down") "monitoring" [] []
        (new_alert_manager loose))) { alert_chan = "b" ∷ [] }

abbrev noted : List String
noted = "first" ∷ "a" ∷ "second" ∷ "a" ∷ []

handing-Life : Life two_handlers loose [] handing ("a" ∷ "b" ∷ []) [] noted
unfolding create_alert new_alert_manager handle_alert
handing-Life = Handling.alert_received "a" ("b" ∷ []) refl (
    Handling.created "b" 4 "uptime" "critical" (text "down") "monitoring" [] []
      (Handling.created "a" 3 "uptime" "critical" (text "down") "monitoring" [] [] Handling.start))

Life-Handled_example : Handled two_handlers loose [] handing ("a" ∷ "b" ∷ []) [] noted
Life-Handled_example = Life-Handled two_handlers loose [] handing-Life
