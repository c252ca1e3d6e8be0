-- ===== src/Alerts/Checks.antt =====
-- `CheckThresholds` of AVS/pkg/monitoring/alerts.go, and the default thresholds.
use sync_hook.Prelude.{
  ℕ, String, List, [], ◌∷◌, none, some, Bool, if◌then◌else◌, pos, Map, lookup, string_eq,
}
use sync_hook.Floats.{Float64}
use sync_hook.Alerts.{
  AlertManager, AlertThresholds, Message, exceeded, exceeded_seconds, below, Datum, float, int,
  create_alert,
}

-- One of the checks of `CheckThresholds`: a metric, when it is beyond its threshold, and the alert to
-- raise.
pub record Check (F : Type 0) : Type 0 where
  pub metric : String
  pub severity : String
  pub beyond : F → Bool
  pub message : F → Message F
  pub threshold : Datum F
  pub tags : List String

module _ (fl : Float64) where
  open fl use {Float, of_int, lt}

  -- The checks, in the order of the code.
  abbrev pub checks : AlertThresholds Float → List (Check Float)
  checks th =
      record {
        metric = "price_deviation";
        severity = "high";
        beyond = λ v. lt th.price_deviation v;
        message = λ v. exceeded "price_deviation" v th.price_deviation;
        threshold = float th.price_deviation;
        tags = "price" ∷ "deviation" ∷ [];
      }
      ∷ record {
        metric = "liquidity_imbalance";
        severity = "high";
        beyond = λ v. lt th.liquidity_imbalance v;
        message = λ v. exceeded "liquidity_imbalance" v th.liquidity_imbalance;
        threshold = float th.liquidity_imbalance;
        tags = "liquidity" ∷ "imbalance" ∷ [];
      }
      ∷ record {
        metric = "response_time";
        severity = "medium";
        beyond = λ v. lt (of_int (pos th.response_time)) v;
        message = λ v. exceeded_seconds v th.response_time;
        threshold = int th.response_time;
        tags = "response" ∷ "time" ∷ [];
      }
      ∷ record {
        metric = "error_rate";
        severity = "high";
        beyond = λ v. lt th.error_rate v;
        message = λ v. exceeded "error_rate" v th.error_rate;
        threshold = float th.error_rate;
        tags = "error" ∷ "rate" ∷ [];
      }
      ∷ record {
        metric = "uptime";
        severity = "critical";
        beyond = λ v. lt v th.uptime;
        message = λ v. below "uptime" v th.uptime;
        threshold = float th.uptime;
        tags = "uptime" ∷ [];
      }
      ∷ record {
        metric = "memory_usage";
        severity = "medium";
        beyond = λ v. lt th.memory_usage v;
        message = λ v. exceeded "memory_usage" v th.memory_usage;
        threshold = float th.memory_usage;
        tags = "memory" ∷ "usage" ∷ [];
      }
      ∷ record {
        metric = "cpu_usage";
        severity = "medium";
        beyond = λ v. lt th.cpu_usage v;
        message = λ v. exceeded "cpu_usage" v th.cpu_usage;
        threshold = float th.cpu_usage;
        tags = "cpu" ∷ "usage" ∷ [];
      }
      ∷ []

  -- `clock` gives the two readings, in nanoseconds and in seconds, that an alert of a type is made with.
  module _ (format_id : String → ℕ → String) (clock : String → ℕ × ℕ) where
    abbrev pub raise : Check Float → Float → AlertManager Float → AlertManager Float
    raise c v am =
        create_alert (format_id c.metric (clock c.metric).0) (clock c.metric).1 c.metric c.severity
          (c.message v) "monitoring" ((c.metric, float v) ∷ ("threshold", c.threshold) ∷ []) c.tags
          am

    -- A metric that is not there raises nothing.
    unfoldable pub check_metric :
        Map String Float → Check Float → AlertManager Float → AlertManager Float
    unfolding create_alert
    check_metric metrics c am = elim (lookup c.metric metrics) [
      | none ↦ am
      | some v ↦ if c.beyond v then raise c v am else am
    ]

    abbrev pub check_all :
        Map String Float → List (Check Float) → AlertManager Float → AlertManager Float
    check_all metrics [] am = am
    check_all metrics (c ∷ cs) am = check_all metrics cs (check_metric metrics c am)

    unfoldable pub check_thresholds : Map String Float → AlertManager Float → AlertManager Float
    unfolding check_metric
    check_thresholds metrics am = check_all metrics (checks am.thresholds) am

unfoldable pub default_thresholds : (fl : Float64) → AlertThresholds fl.Float
default_thresholds fl = record {
  price_deviation = fl.literal 1 1;
  liquidity_imbalance = fl.literal 2 1;
  response_time = 30;
  error_rate = fl.literal 5 2;
  uptime = fl.literal 99 2;
  memory_usage = fl.literal 8 1;
  cpu_usage = fl.literal 8 1;
}
