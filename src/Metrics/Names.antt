-- ===== src/Metrics/Names.antt =====
-- When `NewMetrics` of AVS/pkg/monitoring/metrics.go and `NewMonitor` of AVS/pkg/monitoring/monitor.go can
-- register their metrics.
use sync_hook.Prelude.{
  String, ◌≡◌, ◌↔◌, refl, true, false, Run, returns, panics, ◌>>=◌, Run-cases, List, Bool-cases,
  inl, inr, arith,
}
use sync_hook.Floats.{Float64}
use sync_hook.Monitoring.Registration.{
  Registry, IsLawful, is_in, distinct, register_all, register_all-panics, register_all-has,
  register_all-returns,
}
use sync_hook.Monitoring.{monitor_names, new_monitor}
use sync_hook.Metrics.{Metrics, zero_metrics, metrics_names, new_metrics}

metrics_names-distinct : distinct metrics_names ≡ true
metrics_names-distinct = refl

panics-ne-returns {ℓ} : {A : Type ℓ} {a : A} → panics ≡ returns a → ⊥
panics-ne-returns e = cc

module _ (reg : Registry) (law : IsLawful reg) where
  -- A constructor that registers names and returns a value.
  abbrev construct {ℓ} : {A : Type ℓ} → List String → A → reg.State → Run (A × reg.State)
  construct names x r = register_all reg names r >>= λ r'. returns (x, r')

  -- Two constructors that share a name, one after the other.
  shared-panics {ℓ κ} :
      {A : Type ℓ} {B : Type κ} (x : A) (y : B) (name : String) (names others : List String)
      (r : reg.State)
      → is_in name names ≡ true
      → is_in name others ≡ true
      → (construct names x r >>= λ made. construct others y made.1) ≡ panics
  shared-panics x y name names others r a b = elim (Run-cases (register_all reg names r)) [
    | inl panic ↦ rw panic refl
    | inr (r', e) ↦
        let taken : reg.has name r' ≡ true =
          ground (arith, register_all-has reg law names r r' name e) in
        rw (e, register_all-panics reg law name others r' b taken) refl
  ]

  module _ (fl : Float64) where
    -- `NewMetrics` returns exactly when none of its names is registered yet.
    pub new_metrics-returns :
        (r : reg.State)
        → ((m : Metrics fl.Float) × (r' : reg.State) × (new_metrics fl reg r ≡ returns (m, r')))
          ↔ ((name : String) → is_in name metrics_names ≡ true → reg.has name r ≡ false)
    unfolding new_metrics
    new_metrics-returns r = (
      λ (m, r', e) name listed. elim (Bool-cases (reg.has name r)) [
        | inl taken ↦ absurd (
            panics-ne-returns
              (rw (register_all-panics reg law name metrics_names r listed taken) at e))
        | inr free ↦ free
      ],
      λ free.
          let (r', e) = register_all-returns reg law metrics_names r metrics_names-distinct free in
          (zero_metrics fl, r', rw e refl),
    )

    -- `NewMetrics` panics after `NewMonitor` on one registry, and `NewMonitor` panics after `NewMetrics`.
    pub new_monitor-new_metrics-panics :
        (z : fl.Float) (r : reg.State)
        → ((new_monitor reg z r >>= λ (m, r'). new_metrics fl reg r') ≡ panics)
          × ((new_metrics fl reg r >>= λ (m, r'). new_monitor reg z r') ≡ panics)
    unfolding new_metrics new_monitor
    new_monitor-new_metrics-panics z r = (
      shared-panics _ _ "synchook_pool_states_total" monitor_names metrics_names r refl refl,
      shared-panics _ _ "synchook_pool_states_total" metrics_names monitor_names r refl refl,
    )
