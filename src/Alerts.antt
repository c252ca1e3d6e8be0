-- ===== src/Alerts.antt =====
-- `AlertManager` of AVS/pkg/monitoring/alerts.go. The alerts stand in a map by id; what is sent on the
-- two channels is the id, and a full channel drops it. `fmt.Sprintf` of an id is a parameter, the text of
-- a message is the numbers that it prints, and the readings of the clock are arguments.
pub mod Checks
pub mod Reading
pub mod Lifecycle
pub mod Listing
pub mod Cleaning
pub mod Thresholds
pub mod Handling
use sync_hook.Prelude.{
  ℕ, zero, suc, ◌+◌, String, List, [], ◌∷◌, ◌++◌, Option, none, some, Bool, true, false, not, ◌&&◌,
  ◌||◌, if◌then◌else◌, ltb, leb, ◌==◌, string_eq, length, ℤ, pos, pos_part, ltb_ℤ, leb_ℤ, Map,
  values, lookup, insert, ◌≡◌,
}
use sync_hook.Words.{sub64}
use sync_hook.Floats.{Float64}

-- What a message says: a text, or a metric beyond its threshold, with both values.
pub data Message (F : Type 0) : Type 0 where
  text : String → Message F
  exceeded : String → F → F → Message F
  exceeded_seconds : F → ℕ → Message F
  below : String → F → F → Message F
  rebalancing_failed : String → String → Message F

-- What `map[string]interface{}` holds of an alert: a `float64`, an `int`, or a text, given or printed.
pub data Datum (F : Type 0) : Type 0 where
  float : F → Datum F
  int : ℕ → Datum F
  given : String → Datum F
  printed : List ℕ → Datum F

pub record Alert (F : Type 0) : Type 0 where
  pub id : String
  pub alert_type : String
  pub severity : String
  pub message : Message F
  pub timestamp : ℕ
  pub resolved : Bool
  pub resolved_at : ℕ
  pub metadata : Map String (Datum F)
  pub source : String
  pub tags : List String

pub record AlertThresholds (F : Type 0) : Type 0 where
  pub price_deviation : F
  pub liquidity_imbalance : F
  pub response_time : ℕ
  pub error_rate : F
  pub uptime : F
  pub memory_usage : F
  pub cpu_usage : F

pub record AlertManager (F : Type 0) : Type 0 where
  pub alerts : Map String (Alert F)
  pub alert_chan : List String
  pub resolve_chan : List String
  pub thresholds : AlertThresholds F

pub data AlertError : Type 0 where
  alert_not_found alert_already_resolved : AlertError

abbrev pub channel_size : ℕ
channel_size = 100

-- `select { case c <- x: default: }`
unfoldable pub send : String → List String → List String
send x c = if ltb (length c) channel_size then c ++ (x ∷ []) else c

-- Seven days.
abbrev pub retention : ℕ
retention = 604_800

module _ {F : Type 0} where
  unfoldable pub new_alert_manager : AlertThresholds F → AlertManager F
  new_alert_manager th = record { alerts = []; alert_chan = []; resolve_chan = []; thresholds = th }

  -- `id` is the text of the type and of the clock in nanoseconds.
  unfoldable pub create_alert :
      String
      → ℕ
      → String
      → String
      → Message F
      → String
      → Map String (Datum F)
      → List String
      → AlertManager F
      → AlertManager F
  unfolding send
  create_alert id now alert_type severity message source metadata tags am = record am {
    alerts =
        insert id
          (record {
            id = id;
            alert_type = alert_type;
            severity = severity;
            message = message;
            timestamp = now;
            resolved = false;
            resolved_at = 0;
            metadata = metadata;
            source = source;
            tags = tags;
          })
          am.alerts;
    alert_chan = send id am.alert_chan;
  }

  abbrev pub resolve_found :
      ℕ → String → Alert F → AlertManager F → AlertManager F × Option AlertError
  resolve_found now id a am = if a.resolved then (am, some alert_already_resolved) else (
    record am {
      alerts = insert id (record a { resolved = true; resolved_at = now }) am.alerts;
      resolve_chan = send id am.resolve_chan;
    },
    none,
  )

  unfoldable pub resolve_alert : ℕ → String → AlertManager F → AlertManager F × Option AlertError
  unfolding send
  resolve_alert now id am = elim (lookup id am.alerts) [
    | none ↦ (am, some alert_not_found)
    | some a ↦ resolve_found now id a am
  ]

  -- `none` is the error `alert not found`.
  unfoldable pub get_alert : String → AlertManager F → Option (Alert F)
  get_alert id am = lookup id am.alerts

  abbrev pub is_stale : ℕ → Alert F → Bool
  is_stale cutoff a = a.resolved && ltb a.resolved_at cutoff

  -- The loop that collects the keys to delete.
  abbrev pub to_delete : ℕ → Map String (Alert F) → List String
  to_delete cutoff [] = []
  to_delete cutoff ((id, a) ∷ m) =
      if is_stale cutoff a then id ∷ to_delete cutoff m else to_delete cutoff m

  -- `delete(m, id)`, and the loop of it.
  abbrev pub delete : String → Map String (Alert F) → Map String (Alert F)
  delete id [] = []
  delete id ((j, a) ∷ m) = if j == id then delete id m else (j, a) ∷ delete id m

  abbrev pub delete_all : List String → Map String (Alert F) → Map String (Alert F)
  delete_all [] m = m
  delete_all (id ∷ ids) m = delete_all ids (delete id m)

  unfoldable pub cleanup_old_alerts : ℕ → AlertManager F → AlertManager F
  unfolding sub64
  cleanup_old_alerts now am =
      let cutoff = sub64 now retention in
      record am { alerts = delete_all (to_delete cutoff am.alerts) am.alerts }
