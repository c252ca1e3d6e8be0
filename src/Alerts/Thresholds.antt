-- ===== src/Alerts/Thresholds.antt =====
-- `CheckThresholds` of AVS/pkg/monitoring/alerts.go: which alerts it raises.
use mathlib.Core.List.{append_assoc, append-nil}
use sync_hook.Prelude.{
  ℕ, ◌+◌, ◌≤◌, ◌<◌, ◌≡◌, refl, ◌∙◌, sym, ap, map, String, List, [], ◌∷◌, ◌++◌, none, some, Bool,
  true, false, length, length-snoc, keep, pos, Map, map_values, insert, lookup, string_eq, arith,
  Bool-cases, Option-cases, ◌⊎◌, inl, inr,
}
use sync_hook.Floats.{Float64}
use sync_hook.Alerts.{Alert, AlertManager, AlertThresholds, channel_size, send, create_alert}
use sync_hook.Alerts.Checks.{Check, checks, raise, check_metric, check_all, check_thresholds}

-- A metric, the severity of its alerts, and when it is beyond its threshold.
pub record Limit (F : Type 0) : Type 0 where
  pub metric : String
  pub severity : String
  pub beyond : F → Bool

-- What an alert says of its metric: its type, its severity, and that it is resolved or not.
abbrev pub Summary : Type 0
Summary = String × String × Bool

abbrev pub summary : {F : Type 0} → Alert F → Summary
summary a = (a.alert_type, a.severity, a.resolved)

abbrev pub summaries : {F : Type 0} → AlertManager F → Map String Summary
summaries am = map_values summary am.alerts

map_values-insert :
    {F : Type 0} (id : String) (a : Alert F) (m : Map String (Alert F))
    → map_values summary (insert id a m) ≡ insert id (summary a) (map_values summary m)
map_values-insert id a [] = refl
map_values-insert id a ((j, b) ∷ m) = elim (Bool-cases (string_eq.beq j id)) [
  | inl same ↦ rw same refl
  | inr apart ↦ rw apart (ap (λ l. (j, summary b) ∷ l) (map_values-insert id a m))
]

module _ (fl : Float64) where
  open fl use {Float, of_int, lt}

  -- A metric that is there and beyond its threshold.
  abbrev pub is_breached : Map String Float → Limit Float → Bool
  is_breached metrics l = elim (lookup l.metric metrics) [ none ↦ false | some v ↦ l.beyond v ]

  -- The seven metrics: all but the uptime are to be at most their thresholds.
  abbrev pub limits : AlertThresholds Float → List (Limit Float)
  limits th =
      record { metric = "price_deviation"; severity = "high"; beyond = lt th.price_deviation }
      ∷ record {
        metric = "liquidity_imbalance";
        severity = "high";
        beyond = lt th.liquidity_imbalance;
      }
      ∷ record {
        metric = "response_time";
        severity = "medium";
        beyond = lt (of_int (pos th.response_time));
      }
      ∷ record { metric = "error_rate"; severity = "high"; beyond = lt th.error_rate }
      ∷ record { metric = "uptime"; severity = "critical"; beyond = λ v. lt v th.uptime }
      ∷ record { metric = "memory_usage"; severity = "medium"; beyond = lt th.memory_usage }
      ∷ record { metric = "cpu_usage"; severity = "medium"; beyond = lt th.cpu_usage }
      ∷ []

  limit_of : Check Float → Limit Float
  limit_of c = record { metric = c.metric; severity = c.severity; beyond = c.beyond }

  module _ (format_id : String → ℕ → String) (clock : String → ℕ × ℕ) where
    -- The id of an alert of a metric.
    abbrev pub id_of : Limit Float → String
    id_of l = format_id l.metric (clock l.metric).0

    -- The alerts with an active one entered for each of the limits in turn.
    abbrev pub enter_all : List (Limit Float) → Map String Summary → Map String Summary
    enter_all [] m = m
    enter_all (l ∷ ls) m = enter_all ls (insert (id_of l) (l.metric, l.severity, false) m)

    -- What the limits that are breached make of a manager.
    abbrev pub Raises : List (Limit Float) → AlertManager Float → AlertManager Float → Type 0
    Raises breached am am' =
        (am'.alert_chan ≡ am.alert_chan ++ map id_of breached)
        × (summaries am' ≡ enter_all breached (summaries am))

    -- A check whose limit is breached raises an alert, and any other does nothing.
    check_metric-cases :
        (metrics : Map String Float) (c : Check Float) (am : AlertManager Float)
        → ((is_breached metrics (limit_of c) ≡ false)
            × (check_metric fl format_id clock metrics c am ≡ am))
          ⊎ ((v : Float) × (is_breached metrics (limit_of c) ≡ true)
              × (check_metric fl format_id clock metrics c am ≡ raise fl format_id clock c v am))
    unfolding check_metric limit_of
    check_metric-cases metrics c am = elim (Option-cases (lookup c.metric metrics)) [
      | inl missing ↦ inl (rw (is_breached, missing) refl, rw (check_metric, missing) refl)
      | inr (v, found) ↦ elim (Bool-cases (c.beyond v)) [
        | inl high ↦ inr (v, rw (is_breached, found) high, rw (check_metric, found, high) refl)
        | inr low ↦ inl (rw (is_breached, found) low, rw (check_metric, found, low) refl)
      ]
    ]

    raise-chan :
        (c : Check Float) (v : Float) (am : AlertManager Float)
        → length am.alert_chan < channel_size
        → (raise fl format_id clock c v am).alert_chan ≡ am.alert_chan ++ (id_of (limit_of c) ∷ [])
    unfolding create_alert send limit_of
    raise-chan c v am h = ground arith

    raise-summaries :
        (c : Check Float) (v : Float) (am : AlertManager Float)
        → summaries (raise fl format_id clock c v am) ≡ enter_all (limit_of c ∷ []) (summaries am)
    unfolding create_alert limit_of
    raise-summaries c v am = map_values-insert (id_of (limit_of c)) _ am.alerts

    check_all-Raises :
        (metrics : Map String Float) (cs : List (Check Float)) (am : AlertManager Float)
        → length am.alert_chan + length cs ≤ channel_size
        → Raises
            (keep (is_breached metrics) (map limit_of cs))
            am
            (check_all fl format_id clock metrics cs am)
    check_all-Raises metrics [] am h = (sym (append-nil am.alert_chan), refl)
    check_all-Raises metrics (c ∷ cs) am h = elim (check_metric-cases metrics c am) [
      | inl (low, kept) ↦ rw (low, check_all, kept) (check_all-Raises metrics cs am (omega arith))
      | inr (v, high, raised) ↦
          let sent = raise-chan c v am (omega arith) in
          let (chan, entered) =
            check_all-Raises metrics cs (raise fl format_id clock c v am)
              (omega (arith, ap length sent, length-snoc am.alert_chan (id_of (limit_of c)))) in
          let rest = keep (is_breached metrics) (map limit_of cs) in
          rw (high, check_all, raised)
            (
              chan
                  ∙ ap (λ q. q ++ map id_of rest) sent
                  ∙ append_assoc am.alert_chan (id_of (limit_of c) ∷ []) (map id_of rest),
              entered ∙ ap (enter_all rest) (raise-summaries c v am),
            )
    ]

    -- While the channel has room for seven alerts more, a check of the thresholds raises one alert for each
    -- metric that is beyond its threshold, above it or below it for the uptime, in the order of the
    -- metrics, and none else: the ids of these are sent on the channel, and under each of them an active
    -- alert with the metric as its type and with the severity of the metric is entered.
    pub check_thresholds-Raises :
        (metrics : Map String Float) (am : AlertManager Float)
        → length am.alert_chan + 7 ≤ channel_size
        → Raises
            (keep (is_breached metrics) (limits am.thresholds))
            am
            (check_thresholds fl format_id clock metrics am)
    unfolding check_thresholds limit_of
    check_thresholds-Raises metrics am h = check_all-Raises metrics (checks fl am.thresholds) am h
