-- ===== src/Alerts/Lifecycle.antt =====
-- `ResolveAlert` of AVS/pkg/monitoring/alerts.go, on every branch.
use sync_hook.Prelude.{
  ℕ, ◌≡◌, refl, String, Option, none, some, true, if◌then◌else◌, ◌==◌, string_eq, lookup,
  lookup-insert, Bool-cases, Option-cases, inl, inr,
}
use sync_hook.Alerts.{
  Alert, AlertManager, AlertError, alert_not_found, alert_already_resolved, resolve_found,
  resolve_alert, get_alert,
}

module _ {F : Type 0} where
  -- What `ResolveAlert` leaves, by what stands under the id before.
  abbrev pub Resolves :
      ℕ → String → AlertManager F → Option (Alert F) → AlertManager F × Option AlertError → Type 0
  Resolves now id am none (am', e) = (am' ≡ am) × (e ≡ some alert_not_found)
  Resolves now id am (some a) (am', e) =
      if a.resolved
      then (am' ≡ am) × (e ≡ some alert_already_resolved)
      else (e ≡ none)
        × ((other : String)
            → get_alert other am' ≡ (
                if id == other
                then some (record a { resolved = true; resolved_at = now })
                else get_alert other am))

  resolve_found-Resolves :
      (now : ℕ) (id : String) (a : Alert F) (am : AlertManager F)
      → Resolves now id am (some a) (resolve_found now id a am)
  unfolding get_alert
  resolve_found-Resolves now id a am = elim (Bool-cases a.resolved) [
    | inl already ↦ rw already (refl, refl)
    | inr active ↦ rw active (
      refl,
      λ other. lookup-insert id other (record a { resolved = true; resolved_at = now }) am.alerts,
    )
  ]

  -- `ResolveAlert` on every branch: an unknown id and an alert that is already resolved are errors that
  -- change nothing; an active alert becomes resolved at the time of the call, and every other alert stays.
  pub resolve_alert-Resolves :
      (now : ℕ) (id : String) (am : AlertManager F)
      → Resolves now id am (get_alert id am) (resolve_alert now id am)
  unfolding resolve_alert get_alert
  resolve_alert-Resolves now id am = elim (Option-cases (lookup id am.alerts)) [
    | inl missing ↦ rw (resolve_alert, missing) (refl, refl)
    | inr (a, found) ↦ rw (resolve_alert, found) (resolve_found-Resolves now id a am)
  ]
