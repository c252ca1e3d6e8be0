-- ===== src/Settings/Loading.antt =====
-- `Load` and `setDefaults` of AVS/internal/config/config.go, over viper as the record `Viper`. The `.env`
-- file is optional: what it adds to the environment is part of the store that `Load` begins with.
pub mod Accepting
use sync_hook.Prelude.{ℕ, String, [], ◌∷◌, Option, none, some, Map, Result, ok, err, and_then}
use sync_hook.Floats.{Float64}
use sync_hook.Settings.{Config, ConfigError, validate}

pub data Value (F : Type 0) : Type 0 where
  text : String → Value F
  number : ℕ → Value F
  decimal : F → Value F

-- Whether `ReadInConfig` fails for lack of a file or otherwise.
pub data ReadError : Type 0 where
  not_found unreadable : ReadError

pub data LoadError : Type 0 where
  read_failed unmarshal_failed : LoadError
  invalid : ConfigError → LoadError

-- What `Load` calls. The store is the state of the package.
pub record Viper (F : Type 0) : Type 1 where
  pub Store : Type 0
  pub set_config_file : String → Store → Store
  pub set_config_type : String → Store → Store
  pub automatic_env : Store → Store
  pub set_default : String → Value F → Store → Store
  pub read_in_config : Store → Store × Option ReadError
  pub unmarshal : Store → Option (Config F)

-- The calls of `SetDefault` in `setDefaults`, in order.
abbrev pub defaults : (fl : Float64) → Map String (Value fl.Float)
defaults fl =
    ("server.host", text "0.0.0.0")
    ∷ ("server.port", number 8080)
    ∷ ("database.host", text "localhost")
    ∷ ("database.port", number 5432)
    ∷ ("database.user", text "synchook")
    ∷ ("database.dbname", text "synchook")
    ∷ ("database.sslmode", text "disable")
    ∷ ("log.level", text "info")
    ∷ ("log.format", text "json")
    ∷ ("log.output", text "stdout")
    ∷ ("operator.state_update_interval", text "30s")
    ∷ ("operator.rebalance_threshold", decimal (fl.literal 2 1))
    ∷ ("operator.max_rebalance_amount", text "1000000000000000000000")
    ∷ ("operator.min_rebalance_amount", text "1000000000000000000")
    ∷ ("operator.rebalance_cooldown", text "300s")
    ∷ []

module _ {F : Type 0} (v : Viper F) where
  unfoldable pub set_defaults : Map String (Value F) → v.Store → v.Store
  set_defaults [] s = s
  set_defaults ((key, value) ∷ ds) s = set_defaults ds (v.set_default key value s)

  -- A file that is not found is no error.
  abbrev pub after_reading : Option ReadError → v.Store → Result LoadError v.Store
  after_reading none s = ok s
  after_reading (some not_found) s = ok s
  after_reading (some unreadable) s = err read_failed

  abbrev pub accept : Config F → Option ConfigError → Result LoadError (Config F)
  accept cfg none = ok cfg
  accept cfg (some e) = err (invalid e)

  -- `Unmarshal` and the check.
  unfoldable pub decode : v.Store → Result LoadError (Config F)
  unfolding validate
  decode t = elim (v.unmarshal t) [
    | none ↦ err unmarshal_failed
    | some cfg ↦ accept cfg (validate cfg)
  ]

  -- `Load`, with the calls of `setDefaults`.
  unfoldable pub load :
      Map String (Value F) → String → v.Store → v.Store × Result LoadError (Config F)
  unfolding set_defaults decode
  load ds file s =
      let prepared =
        set_defaults ds (v.automatic_env (v.set_config_type "yaml" (v.set_config_file file s))) in
      let (read, error) = v.read_in_config prepared in
      (read, and_then (after_reading error read) decode)
