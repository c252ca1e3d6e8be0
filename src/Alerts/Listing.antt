-- ===== src/Alerts/Listing.antt =====
-- `GetAlerts` and `GetAlertStats` of AVS/pkg/monitoring/alerts.go against descriptions with no loop.
use sync_hook.Prelude.{
  ℕ, zero, suc, ◌+◌, ◌≤◌, ◌<◌, ◌≡◌, refl, ◌∙◌, sym, ap, String, List, [], ◌∷◌, ◌++◌, Bool, false,
  not, ◌&&◌, if◌then◌else◌, length, take, keep, count_if, length-keep, ℤ, pos, negsuc, ltb_ℤ,
  values, arith, Bool-cases, inl, inr,
}
use sync_hook.Alerts.{Alert, AlertManager}
use sync_hook.Alerts.Reading.{
  AlertStats, other_severity, same_bool, filter_alerts, get_alerts, get_active_alerts,
  get_alert_stats, count_alert, count_alerts,
}

module _ {F : Type 0} where
  -- The alerts that a filter is meant to find.
  abbrev pub matches : String → Bool → Alert F → Bool
  matches severity resolved a = not (other_severity severity a) && same_bool a.resolved resolved

  -- The first `limit` of a list, or all of it if the limit is not above 0.
  abbrev pub up_to : ℤ → List (Alert F) → List (Alert F)
  up_to (pos zero) list = list
  up_to (pos (suc n)) list = take (suc n) list
  up_to (negsuc n) list = list

  append_nil : (list : List (Alert F)) → list ++ [] ≡ list
  append_nil [] = refl
  append_nil (a ∷ list) = ap (λ x. a ∷ x) (append_nil list)

  append_assoc :
      (list : List (Alert F)) (b : Alert F) (cs : List (Alert F))
      → (list ++ (b ∷ [])) ++ cs ≡ list ++ (b ∷ cs)
  append_assoc [] b cs = refl
  append_assoc (a ∷ list) b cs = ap (λ x. a ∷ x) (append_assoc list b cs)

  filter_alerts-unlimited :
      (severity : String) (resolved : Bool) (limit : ℤ) (filtered : List (Alert F)) (count : ℕ)
      (list : List (Alert F))
      → ltb_ℤ (pos 0) limit ≡ false
      → filter_alerts severity resolved limit filtered count list
        ≡ filtered ++ keep (matches severity resolved) list
  filter_alerts-unlimited severity resolved limit filtered count [] h = sym (append_nil filtered)
  filter_alerts-unlimited severity resolved limit filtered count (a ∷ list) h = ground (
    arith,
    filter_alerts-unlimited severity resolved limit filtered count list h,
    filter_alerts-unlimited severity resolved limit (filtered ++ (a ∷ [])) (suc count) list h,
    append_assoc filtered a (keep (matches severity resolved) list),
  )

  -- One round of the loop, while there is room.
  filter_alerts-cons :
      (severity : String) (resolved : Bool) (limit count : ℕ) (filtered : List (Alert F))
      (a : Alert F) (list : List (Alert F))
      → count < limit
      → filter_alerts severity resolved (pos limit) filtered count (a ∷ list) ≡ (
          if matches severity resolved a
          then filter_alerts severity resolved (pos limit) (filtered ++ (a ∷ [])) (suc count) list
          else filter_alerts severity resolved (pos limit) filtered count list)
  filter_alerts-cons severity resolved limit count filtered a list h = ground arith

  filter_alerts-full :
      (severity : String) (resolved : Bool) (limit count : ℕ) (filtered list : List (Alert F))
      → 0 < limit
      → limit ≤ count
      → filter_alerts severity resolved (pos limit) filtered count list ≡ filtered
  filter_alerts-full severity resolved limit count filtered [] h k = refl
  filter_alerts-full severity resolved limit count filtered (a ∷ list) h k = ground arith

  -- With room for more alerts.
  filter_alerts-limited :
      (severity : String) (resolved : Bool) (limit room count : ℕ) (filtered list : List (Alert F))
      → 0 < limit
      → limit ≡ count + room
      → filter_alerts severity resolved (pos limit) filtered count list
        ≡ filtered ++ take room (keep (matches severity resolved) list)
  filter_alerts-limited severity resolved limit zero count filtered list h k =
      filter_alerts-full severity resolved limit count filtered list h (omega arith)
      ∙ sym (append_nil filtered)
  filter_alerts-limited severity resolved limit (suc room) count filtered [] h k =
      sym (append_nil filtered)
  filter_alerts-limited severity resolved limit (suc room) count filtered (a ∷ list) h k =
      let round = filter_alerts-cons severity resolved limit count filtered a list (omega arith) in
      elim (Bool-cases (matches severity resolved a)) [
        | inl kept ↦
            rw (round, kept)
              (filter_alerts-limited severity resolved limit room (suc count) (filtered ++ (a ∷ []))
                  list h (omega arith)
                ∙ append_assoc filtered a (take room (keep (matches severity resolved) list)))
        | inr skip ↦
            rw (round, skip)
              (filter_alerts-limited severity resolved limit (suc room) count filtered list h k)
      ]

  -- `GetAlerts` returns the alerts that match its filter, in the order of the map: the first `limit` of
  -- them, or all if the limit is not above 0.
  pub get_alerts_lem :
      (severity : String) (resolved : Bool) (limit : ℤ) (am : AlertManager F)
      → get_alerts severity resolved limit am
        ≡ up_to limit (keep (matches severity resolved) (values am.alerts))
  unfolding get_alerts
  get_alerts_lem severity resolved (pos zero) am =
      filter_alerts-unlimited severity resolved (pos 0) [] 0 (values am.alerts) refl
  get_alerts_lem severity resolved (pos (suc n)) am =
      filter_alerts-limited severity resolved (suc n) (suc n) 0 [] (values am.alerts) (omega arith)
        (omega arith)
  get_alerts_lem severity resolved (negsuc n) am =
      filter_alerts-unlimited severity resolved (negsuc n) [] 0 (values am.alerts) (ground arith)

  -- How many alerts a list adds to a count.
  count_alerts_lem :
      (n : AlertStats) (list : List (Alert F))
      → let m = count_alerts n list in
        (m.total ≡ n.total + length list)
        × (m.resolved ≡ n.resolved + count_if (λ a. a.resolved) list)
        × (m.active ≡ n.active + count_if (λ a. not a.resolved) list)
        × (m.critical + m.high + m.medium + m.low
            ≤ n.critical + n.high + n.medium + n.low + length list)
  count_alerts_lem n [] = omega arith
  count_alerts_lem n (a ∷ list) = ground (arith, count_alerts_lem (count_alert a n) list)

  active-or-resolved :
      (list : List (Alert F))
      → count_if (λ a. not a.resolved) list + count_if (λ a. a.resolved) list ≡ length list
  active-or-resolved [] = refl
  active-or-resolved (a ∷ list) = ground (arith, active-or-resolved list)

  active_matches :
      (list : List (Alert F))
      → count_if (matches "" false) list ≡ count_if (λ a. not a.resolved) list
  active_matches [] = refl
  active_matches (a ∷ list) = ground (arith, active_matches list)

  length-get_active_alerts :
      (am : AlertManager F)
      → length (get_active_alerts am) ≡ count_if (λ a. not a.resolved) (values am.alerts)
  unfolding get_active_alerts
  length-get_active_alerts am =
      ap length (get_alerts_lem "" false (pos 0) am)
      ∙ length-keep (matches "" false) (values am.alerts)
      ∙ active_matches (values am.alerts)

  -- The statistics agree with the lists: the total is the number of alerts, each alert is active or
  -- resolved, the active ones are those that `GetActiveAlerts` returns, and the four severities do not
  -- exceed the total.
  pub get_alert_stats_lem :
      (am : AlertManager F)
      → let n = get_alert_stats am in
        (n.total ≡ length (values am.alerts))
        × (n.active ≡ length (get_active_alerts am))
        × (n.active + n.resolved ≡ n.total)
        × (n.critical + n.high + n.medium + n.low ≤ n.total)
  unfolding get_alert_stats
  get_alert_stats_lem am =
      let zeros : AlertStats = record {
        total = 0;
        active = 0;
        resolved = 0;
        critical = 0;
        high = 0;
        medium = 0;
        low = 0;
      } in
      omega (
        arith,
        count_alerts_lem zeros (values am.alerts),
        length-get_active_alerts am,
        active-or-resolved (values am.alerts),
      )
