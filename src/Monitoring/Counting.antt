-- ===== src/Monitoring/Counting.antt =====
-- How the counts of `PerformanceTracker` and those of the metrics of AVS/pkg/monitoring/monitor.go go
-- together.
use sync_hook.Prelude.{
  ℕ, suc, ◌<◌, ◌≤◌, ◌≡◌, refl, subst, String, [], ◌∷◌, Option, none, some, ltb, length, string_eq,
  Map, lookup, IsMap, insert-IsMap, map_values, returns, >>=-returns, returns-injective, ap, arith,
  Bool-cases, inl, inr,
}
use sync_hook.Alerts.{Alert}
use sync_hook.Monitoring.Registration.{Registry, register_all}
use sync_hook.Monitoring.{
  Monitor, monitor_names, new_monitor, record_state_update, record_rebalancing_request,
  record_rebalancing_success, record_rebalancing_failure, create_alert, update_pool_states_count,
  uptime_tick, resolve_found, resolve_alert, expire, process_expired_alerts,
  calculate_performance_metrics,
}
use sync_hook.Monitoring.Running.{
  Step, updated, requested, succeeded, failed, counted, created, resolution, uptime_read, expired,
  calculated, Steps, here, next,
}

lookup-map_values-none {ℓ} :
    {V : Type ℓ} (f : V → V) (k : String) (m : Map String V)
    → lookup k m ≡ none
    → lookup k (map_values f m) ≡ none
lookup-map_values-none f k [] e = refl
lookup-map_values-none f k ((j, v) ∷ m) e = ground (arith, lookup-map_values-none f k m)

map_values-IsMap {ℓ} :
    {V : Type ℓ} (f : V → V) (m : Map String V) → IsMap m → IsMap (map_values f m)
map_values-IsMap f [] h = tt
map_values-IsMap f ((k, v) ∷ m) h = (lookup-map_values-none f k m h.0, map_values-IsMap f m h.1)

-- A count of the tracker does not exceed that of the metrics, and is the same while at most 1,000 updates
-- of the state have been recorded.
abbrev pub Tracks : ℕ → ℕ → ℕ → Type 0
Tracks recorded count total = (count ≤ total) × (recorded ≤ 1000 → count ≡ total)

later-Tracks : {n c t : ℕ} → Tracks n c t → Tracks (suc n) c t
later-Tracks h = (h.0, λ few. h.1 (omega arith))

start-Tracks : Tracks 0 0 0
start-Tracks = (omega arith, λ few. refl)

suc-Tracks : {n c t : ℕ} → Tracks n c t → Tracks n (suc c) (suc t)
suc-Tracks h = (omega (arith, h.0), λ few. ap suc (h.1 few))

-- A reset needs more than 1,000 updates.
reset-Tracks : {n : ℕ} (t : ℕ) → 1000 < n → Tracks n 0 t
reset-Tracks t many = (omega arith, λ few. absurd (omega arith))

module _ {F : Type 0} where
  -- Every count tracks its metric, and no id stands twice among the alerts.
  pub record IsConsistent (m : Monitor F) : Type 0 where
    pub updates :
        Tracks
          (length m.state_update_latency)
          m.performance.state_updates
          (length m.state_update_latency)
    pub requests :
        Tracks (length m.state_update_latency) m.performance.rebalancing_ops m.rebalancing_requests
    pub successes :
        Tracks (length m.state_update_latency) m.performance.successful_ops m.rebalancing_success
    pub failures :
        Tracks (length m.state_update_latency) m.performance.failed_ops m.rebalancing_failures
    pub ids_differ : IsMap m.alerts

  build :
      (m : Monitor F)
      → Tracks
          (length m.state_update_latency)
          m.performance.state_updates
          (length m.state_update_latency)
      → Tracks (length m.state_update_latency) m.performance.rebalancing_ops m.rebalancing_requests
      → Tracks (length m.state_update_latency) m.performance.successful_ops m.rebalancing_success
      → Tracks (length m.state_update_latency) m.performance.failed_ops m.rebalancing_failures
      → IsMap m.alerts
      → IsConsistent m
  build m u r s f d = record {
    updates = u;
    requests = r;
    successes = s;
    failures = f;
    ids_differ = d;
  }

  alerts-IsConsistent :
      (m : Monitor F) (alerts : Map String (Alert F))
      → IsMap alerts
      → IsConsistent m
      → IsConsistent (record m { alerts = alerts })
  alerts-IsConsistent m alerts d h = build _ h.updates h.requests h.successes h.failures d

  resolve_found-IsConsistent :
      (now : ℕ) (id : String) (o : Option (Alert F)) (m : Monitor F)
      → IsConsistent m
      → IsConsistent (resolve_found now id o m).0
  resolve_found-IsConsistent now id none m h = h
  resolve_found-IsConsistent now id (some a) m h =
      alerts-IsConsistent m _ (insert-IsMap id _ m.alerts h.ids_differ) h

  Step-IsConsistent :
      {since : ℕ} {m m' : Monitor F} → Step since m m' → IsConsistent m → IsConsistent m'
  unfolding record_state_update record_rebalancing_request record_rebalancing_success
      record_rebalancing_failure update_pool_states_count uptime_tick create_alert resolve_alert
      calculate_performance_metrics process_expired_alerts
  Step-IsConsistent {m = m} (updated now latency) h =
      build _ (suc-Tracks (later-Tracks h.updates)) (later-Tracks h.requests)
        (later-Tracks h.successes) (later-Tracks h.failures) h.ids_differ
  Step-IsConsistent {m = m} requested h =
      build _ h.updates (suc-Tracks h.requests) h.successes h.failures h.ids_differ
  Step-IsConsistent {m = m} succeeded h =
      build _ h.updates h.requests (suc-Tracks h.successes) h.failures h.ids_differ
  Step-IsConsistent {m = m} (failed id now pool amount error late) h =
      build _ h.updates h.requests h.successes (suc-Tracks h.failures)
        (insert-IsMap id _ m.alerts h.ids_differ)
  Step-IsConsistent {m = m} (counted count) h =
      build _ h.updates h.requests h.successes h.failures h.ids_differ
  Step-IsConsistent {m = m} (created id now alert_type severity message metadata late) h =
      alerts-IsConsistent m _ (insert-IsMap id _ m.alerts h.ids_differ) h
  Step-IsConsistent {m = m} (resolution now id) h =
      resolve_found-IsConsistent now id (lookup id m.alerts) m h
  Step-IsConsistent (uptime_read uptime) h =
      build _ h.updates h.requests h.successes h.failures h.ids_differ
  Step-IsConsistent {m = m} (expired now) h =
      alerts-IsConsistent m _ (map_values-IsMap (expire now) m.alerts h.ids_differ) h
  Step-IsConsistent {m = m} calculated h =
      elim (Bool-cases (ltb 1000 m.performance.state_updates)) [
        | inl many ↦
            let over : 1000 < length m.state_update_latency = ground (arith, h.updates.0) in
            rw (calculate_performance_metrics, many)
              (build _ (reset-Tracks _ over) (reset-Tracks _ over) (reset-Tracks _ over)
                (reset-Tracks _ over) h.ids_differ)
        | inr few ↦ rw (calculate_performance_metrics, few) h
      ]

  Steps-IsConsistent :
      {since : ℕ} {m m' : Monitor F} → Steps since m m' → IsConsistent m → IsConsistent m'
  Steps-IsConsistent here h = h
  Steps-IsConsistent (next r s) h = Step-IsConsistent s (Steps-IsConsistent r h)

  new_monitor-IsConsistent :
      (reg : Registry) (z : F) (r r' : reg.State) (m : Monitor F)
      → new_monitor reg z r ≡ returns (m, r')
      → IsConsistent m
  unfolding new_monitor
  new_monitor-IsConsistent reg z r r' m e =
      let (r'', registered, made) = >>=-returns (register_all reg monitor_names r) _ e in
      subst IsConsistent (ap (λ x. x.0) (returns-injective _ _ made))
        (build _ start-Tracks start-Tracks start-Tracks start-Tracks tt)

  -- From its construction on, whatever the monitor does, every count of the tracker is at most that of its
  -- metric, and the same as long as at most 1,000 updates of the state have been recorded; and no id
  -- stands twice among the alerts.
  pub Steps-new_monitor-IsConsistent :
      (reg : Registry) (z : F) (r r' : reg.State) {m w : Monitor F}
      → new_monitor reg z r ≡ returns (m, r')
      → Steps 0 m w
      → IsConsistent w
  Steps-new_monitor-IsConsistent reg z r r' {m} made run =
      Steps-IsConsistent run (new_monitor-IsConsistent reg z r r' m made)
