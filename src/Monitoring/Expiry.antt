-- ===== src/Monitoring/Expiry.antt =====
-- What becomes of the alerts of AVS/pkg/monitoring/monitor.go while a monitor runs.
use sync_hook.Prelude.{
  ℕ, ◌+◌, ◌<◌, ◌≤◌, ◌≡◌, subst, ◌⊎◌, refl, String, Option, none, some, true, ltb, ◌==◌, string_eq,
  Map, lookup, insert, lookup-insert, lookup-map_values, arith, Bool-cases, inl, inr,
}
use sync_hook.Words.{u64_mod, sub64}
use sync_hook.Alerts.{Alert}
use sync_hook.Monitoring.{
  Monitor, expired_threshold, record_state_update, record_rebalancing_request,
  record_rebalancing_success, update_pool_states_count, uptime_tick, record_rebalancing_failure,
  create_alert, resolve_found, resolve_alert, expire, process_expired_alerts,
  calculate_performance_metrics,
}
use sync_hook.Monitoring.Running.{
  Step, updated, requested, succeeded, failed, counted, created, resolution, uptime_read, expired,
  calculated, Steps, here, next,
}

module _ {F : Type 0} where
  -- An alert with this property stands under the id.
  abbrev pub Has : (Alert F → Type 0) → String → Map String (Alert F) → Type 0
  Has P id m = (a : Alert F) × (lookup id m ≡ some a) × P a

  insert-Has :
      (P : Alert F → Type 0) (id j : String) (b : Alert F) (m : Map String (Alert F))
      → P b
      → Has P id m
      → Has P id (insert j b m)
  insert-Has P id j b m p (a, found, q) = elim (Bool-cases (j == id)) [
    | inl same ↦ (b, rw (lookup-insert j id b m, same), p)
    | inr apart ↦ (a, rw (lookup-insert j id b m, apart) found, q)
  ]

  -- What every change of an alert keeps, and every alert from `since` on has.
  pub record IsKept (since : ℕ) (P : Alert F → Type 0) : Type 0 where
    pub expiry : (now : ℕ) (a : Alert F) → P a → P (expire now a)
    pub resolving :
        (now : ℕ) (a : Alert F) → P a → P (record a { resolved = true; resolved_at = now })
    pub raising : (a : Alert F) → since ≤ a.timestamp → P a

  module _ {since : ℕ} (P : Alert F → Type 0) (k : IsKept since P) (id : String) where
    resolve_found-Has :
        (now : ℕ) (j : String) (m : Monitor F) (o : Option (Alert F))
        → lookup j m.alerts ≡ o
        → Has P id m.alerts
        → Has P id (resolve_found now j o m).0.alerts
    resolve_found-Has now j m none e h = h
    resolve_found-Has now j m (some a) e (b, found, p) = elim (Bool-cases (j == id)) [
      | inl same ↦
          let at_id : lookup id m.alerts ≡ some a =
            subst (λ i. lookup i m.alerts ≡ some a) ((string_eq.beq_iff j id).0 same) e in
          let b-eq : b ≡ a = cc in
          insert-Has P id j _ m.alerts (k.resolving now a (subst P b-eq p)) (b, found, p)
      | inr apart ↦ (
        b,
        rw (lookup-insert j id (record a { resolved = true; resolved_at = now }) m.alerts, apart)
            found,
        p,
      )
    ]

    tick-Has :
        (now : ℕ) (m : Monitor F)
        → Has P id m.alerts
        → Has P id (process_expired_alerts now m).alerts
    unfolding process_expired_alerts
    tick-Has now m (a, found, p) =
        (expire now a, lookup-map_values (expire now) id m.alerts a found, k.expiry now a p)

    Step-Has : {m m' : Monitor F} → Step since m m' → Has P id m.alerts → Has P id m'.alerts
    unfolding record_state_update record_rebalancing_request record_rebalancing_success
        record_rebalancing_failure update_pool_states_count uptime_tick create_alert resolve_alert
        calculate_performance_metrics
    Step-Has (updated now latency) h = h
    Step-Has requested h = h
    Step-Has succeeded h = h
    Step-Has {m} (failed j now pool amount error late) h =
        insert-Has P id j _ m.alerts (k.raising _ late) h
    Step-Has (counted count) h = h
    Step-Has {m} (created j now alert_type severity message metadata late) h =
        insert-Has P id j _ m.alerts (k.raising _ late) h
    Step-Has {m} (resolution now j) h = resolve_found-Has now j m (lookup j m.alerts) refl h
    Step-Has (uptime_read uptime) h = h
    Step-Has {m} (expired now) h = tick-Has now m h
    Step-Has {m} calculated h = elim (Bool-cases (ltb 1000 m.performance.state_updates)) [
      | inl many ↦ rw (calculate_performance_metrics, many) h
      | inr few ↦ rw (calculate_performance_metrics, few) h
    ]

    Steps-Has : {m m' : Monitor F} → Steps since m m' → Has P id m.alerts → Has P id m'.alerts
    Steps-Has here h = h
    Steps-Has (next r s) h = Step-Has s (Steps-Has r h)

  -- Resolved, or raised at most a day before `now`.
  abbrev pub IsSettled : ℕ → Alert F → Type 0
  IsSettled now a = (a.resolved ≡ true) ⊎ (now ≤ a.timestamp + expired_threshold)

  IsSettled-IsKept : (now : ℕ) → IsKept now (IsSettled now)
  IsSettled-IsKept now = record {
    expiry = λ t a s. ground arith;
    resolving = λ t a s. inl refl;
    raising = λ a h. inr (omega arith);
  }

  any-IsKept : IsKept 0 (λ a. Unit {0})
  any-IsKept = record { expiry = λ t a s. tt; resolving = λ t a s. tt; raising = λ a h. tt }

  expire-IsSettled : (now : ℕ) (a : Alert F) → now < u64_mod → IsSettled now (expire now a)
  unfolding sub64
  expire-IsSettled now a fits = ground arith

  -- An alert outlives whatever else the monitor does, and expires: once an alert has been raised under an
  -- id, then after the first tick of the expiry at `now` and for ever, one stands under that id that is
  -- resolved, or that was raised at most a day before `now`. What is raised after the tick has a time
  -- stamp not before `now`, which is a `uint64`.
  pub process_expired_alerts-Settles :
      {v u w : Monitor F} (now : ℕ) (id : String) (a : Alert F)
      → lookup id v.alerts ≡ some a
      → Steps 0 v u
      → now < u64_mod
      → Steps now (process_expired_alerts now u) w
      → Has (IsSettled now) id w.alerts
  unfolding process_expired_alerts
  process_expired_alerts-Settles {v} {u} now id a raised before fits after =
      let (b, found, _) = Steps-Has (λ x. Unit {0}) any-IsKept id before (a, raised, tt) in
      Steps-Has (IsSettled now) (IsSettled-IsKept now) id after (
        expire now b,
        lookup-map_values (expire now) id u.alerts b found,
        expire-IsSettled now b fits,
      )
