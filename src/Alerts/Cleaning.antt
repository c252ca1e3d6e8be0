-- ===== src/Alerts/Cleaning.antt =====
-- `cleanupOldAlerts` of AVS/pkg/monitoring/alerts.go: which alerts it deletes.
use sync_hook.Prelude.{
  ℕ, ◌+◌, ◌-◌, ◌%◌, ◌≤◌, ◌<◌, ◌≡◌, refl, ◌∙◌, subst, String, List, [], ◌∷◌, Option, none, some,
  Bool, false, ◌||◌, if◌then◌else◌, ◌==◌, string_eq, Map, lookup, IsMap, arith, Bool-cases, inl,
  inr,
}
use sync_hook.Words.{u64_mod, sub64}
use sync_hook.Alerts.{
  Alert, AlertManager, retention, is_stale, to_delete, delete, delete_all, cleanup_old_alerts,
  get_alert,
}

abbrev listed : String → List String → Bool
listed id [] = false
listed id (j ∷ ids) = j == id || listed id ids

module _ {F : Type 0} where
  -- What is left of an alert that is looked up.
  abbrev pub unless_stale : ℕ → Option (Alert F) → Option (Alert F)
  unless_stale cutoff none = none
  unless_stale cutoff (some a) = if is_stale cutoff a then none else some a

  pub lookup-delete :
      (id j : String) (m : Map String (Alert F))
      → lookup id (delete j m) ≡ (if j == id then none else lookup id m)
  lookup-delete id j [] = ground arith
  lookup-delete id j ((i, a) ∷ m) = ground (
    arith,
    string_eq.beq_iff i j,
    string_eq.beq_iff i id,
    string_eq.beq_iff j id,
    lookup-delete id j m,
  )

  lookup-delete_all :
      (id : String) (ids : List String) (m : Map String (Alert F))
      → lookup id (delete_all ids m) ≡ (if listed id ids then none else lookup id m)
  lookup-delete_all id [] m = refl
  lookup-delete_all id (j ∷ ids) m =
      ground (arith, lookup-delete_all id ids (delete j m), lookup-delete id j m)

  listed_absent :
      (cutoff : ℕ) (id : String) (m : Map String (Alert F))
      → lookup id m ≡ none
      → listed id (to_delete cutoff m) ≡ false
  listed_absent cutoff id [] e = refl
  listed_absent cutoff id ((j, a) ∷ m) e = ground (arith, listed_absent cutoff id m)

  listed-to_delete :
      (cutoff : ℕ) (id : String) (m : Map String (Alert F))
      → IsMap m
      → (if listed id (to_delete cutoff m) then none else lookup id m)
        ≡ unless_stale cutoff (lookup id m)
  listed-to_delete cutoff id [] h = refl
  listed-to_delete cutoff id ((j, a) ∷ m) h = elim (Bool-cases (j == id)) [
    | inl same ↦
        let absent =
          listed_absent cutoff id m
            (subst (λ k. lookup k m ≡ none) ((string_eq.beq_iff j id).0 same) h.0) in
        ground (arith, absent)
    | inr apart ↦ ground (arith, listed-to_delete cutoff id m h.1)
  ]

  -- A clean-up deletes exactly the alerts that were resolved more than seven days ago: looking up an id
  -- finds what it found before, unless that alert is resolved and its time of resolution is before the
  -- cutoff.
  pub cleanup_old_alerts_lem :
      (now : ℕ) (id : String) (am : AlertManager F)
      → IsMap am.alerts
      → retention ≤ now
      → now < u64_mod
      → get_alert id (cleanup_old_alerts now am) ≡ unless_stale (now - retention) (get_alert id am)
  unfolding cleanup_old_alerts sub64 get_alert
  cleanup_old_alerts_lem now id am h late fits =
      let cutoff : (now + u64_mod - retention) % u64_mod ≡ now - retention = omega arith in
      rw (cleanup_old_alerts, cutoff)
        (lookup-delete_all id (to_delete (now - retention) am.alerts) am.alerts
          ∙ listed-to_delete (now - retention) id am.alerts h)
