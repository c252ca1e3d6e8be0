-- ===== src/Alerts/Reading.antt =====
-- `GetAlerts`, `GetActiveAlerts`, `GetCriticalAlerts` and `GetAlertStats` of AVS/pkg/monitoring/alerts.go.
use sync_hook.Prelude.{
  ℕ, suc, String, List, [], ◌∷◌, ◌++◌, Bool, true, false, not, ◌&&◌, ◌||◌, if◌then◌else◌, ◌==◌,
  string_eq, ℤ, pos, ltb_ℤ, leb_ℤ, values,
}
use sync_hook.Alerts.{Alert, AlertManager}

pub record AlertStats : Type 0 where
  pub total : ℕ
  pub active : ℕ
  pub resolved : ℕ
  pub critical : ℕ
  pub high : ℕ
  pub medium : ℕ
  pub low : ℕ

-- `==` on `bool`
abbrev pub same_bool : Bool → Bool → Bool
same_bool true b = b
same_bool false b = not b

module _ {F : Type 0} where
  -- The tests that make the loop go on with the next alert: the severity is not the one asked for, or
  -- the alert is not as resolved as asked for.
  abbrev pub other_severity : String → Alert F → Bool
  other_severity severity a = not (severity == "") && not (a.severity == severity)

  -- The loop of `GetAlerts`, from the alerts filtered so far and their count.
  abbrev pub filter_alerts :
      String → Bool → ℤ → List (Alert F) → ℕ → List (Alert F) → List (Alert F)
  filter_alerts severity resolved limit filtered count [] = filtered
  filter_alerts severity resolved limit filtered count (a ∷ list) =
      let skipped = other_severity severity a || not (same_bool a.resolved resolved) in
      let rest =
        filter_alerts severity resolved limit (if skipped then filtered else filtered ++ (a ∷ []))
          (if skipped then count else suc count) list in
      if ltb_ℤ (pos 0) limit && leb_ℤ limit (pos count) then filtered else rest

  unfoldable pub get_alerts : String → Bool → ℤ → AlertManager F → List (Alert F)
  get_alerts severity resolved limit am =
      filter_alerts severity resolved limit [] 0 (values am.alerts)

  unfoldable pub get_active_alerts : AlertManager F → List (Alert F)
  unfolding get_alerts
  get_active_alerts am = get_alerts "" false (pos 0) am

  unfoldable pub get_critical_alerts : AlertManager F → List (Alert F)
  unfolding get_alerts
  get_critical_alerts am = get_alerts "critical" false (pos 0) am

  -- One alert, counted by its state and by its severity.
  abbrev pub count_alert : Alert F → AlertStats → AlertStats
  count_alert a n =
      let counted = record n {
        total = suc n.total;
        resolved = if a.resolved then suc n.resolved else n.resolved;
        active = if a.resolved then n.active else suc n.active;
      } in
      if a.severity == "critical"
      then record counted { critical = suc n.critical }
      else if a.severity == "high"
      then record counted { high = suc n.high }
      else if a.severity == "medium"
      then record counted { medium = suc n.medium }
      else if a.severity == "low"
      then record counted { low = suc n.low }
      else counted

  abbrev pub count_alerts : AlertStats → List (Alert F) → AlertStats
  count_alerts n [] = n
  count_alerts n (a ∷ list) = count_alerts (count_alert a n) list

  unfoldable pub get_alert_stats : AlertManager F → AlertStats
  get_alert_stats am =
      count_alerts
        (record {
          total = 0;
          active = 0;
          resolved = 0;
          critical = 0;
          high = 0;
          medium = 0;
          low = 0;
        })
        (values am.alerts)
