-- ===== src/Commands/Operating.antt =====
-- `runOperator` of AVS/cmd/operator/main.go: load the configuration, make a logger and the operator, and
-- run it. The signals that end the run are those of its context.
pub mod Running
use sync_hook.Prelude.{
  ℕ, String, List, [], ◌∷◌, Option, none, some, Bool, true, false, if◌then◌else◌, Map, Result, ok,
  err, ℤ, pos, leb_ℤ, Run, returns, panics,
}
use sync_hook.Floats.{Float64}
use sync_hook.Chain.{Ethereum, Chain}
use sync_hook.Operator.{Operator, Part, Event, OperatorError, new_operator, run}
use sync_hook.Settings.{Config, get_database_dsn}
use sync_hook.Settings.Loading.{Viper, LoadError, defaults, load}
use sync_hook.Logging.{Logger, new_logger}

pub data CommandError : Type 0 where
  load_failed : LoadError → CommandError
  logger_failed : CommandError
  creation_failed : OperatorError → CommandError
  operator_failed : Part → CommandError

abbrev pub keys : {V : Type 0} → Map ℕ V → List ℕ
keys [] = []
keys ((k, x) ∷ m) = k ∷ keys m

-- What a process finds around it: what logrus and strings compute, the password of the environment,
-- whether a database is opened, which connections are made, and which parts start.
pub record Surroundings (eth : Ethereum) : Type 1 where
  pub Level : Type 0
  pub parse_level : String → Option Level
  pub to_lower : String → String
  pub database_password : String
  pub opens : List ℕ → Bool
  pub dial : String → Option eth.Connection
  pub starts : Part → Bool

-- The parts that are started and stopped, and the error that `runOperator` returns.
abbrev pub Outcome : Type 0
Outcome = List Event × Option CommandError

module _ (eth : Ethereum) (env : Surroundings eth) where
  abbrev pub failure_of : Option Part → Option CommandError
  failure_of none = none
  failure_of (some p) = some (operator_failed p)

  -- Once all parts have started, `Run` begins the goroutine of the updates, and waits. If their interval is
  -- not positive, `time.NewTicker` panics in that goroutine, which ends the process.
  abbrev pub after_run : ℤ → List Event × Option Part → Run Outcome
  after_run interval (events, some p) = returns (events, failure_of (some p))
  after_run interval (events, none) =
      if leb_ℤ interval (pos 0) then panics else returns (events, none)

  -- What is done with an operator, or with the error of `New`.
  abbrev pub run_made : {F : Type 0} → Config F → Result OperatorError (Operator eth) → Run Outcome
  run_made cfg (err e) = returns ([], some (creation_failed e))
  run_made cfg (ok o) =
      after_run cfg.operator.state_update_interval (run env.starts (keys o.chains))

  abbrev pub make : {F : Type 0} → Config F → Result OperatorError (Operator eth)
  make cfg =
      new_operator eth (env.opens (get_database_dsn env.database_password cfg)) env.dial cfg.across
        cfg.chains

  abbrev pub run_logged : {F : Type 0} → Config F → Option (Logger env.Level) → Run Outcome
  run_logged cfg none = returns ([], some logger_failed)
  run_logged cfg (some log) = run_made cfg (make cfg)

  abbrev pub run_loaded : {F : Type 0} → Result LoadError (Config F) → Run Outcome
  run_loaded (err e) = returns ([], some (load_failed e))
  run_loaded (ok cfg) = run_logged cfg (new_logger env.parse_level env.to_lower cfg.log)

  -- `runOperator`; it panics if a goroutine of the operator does.
  unfoldable pub run_operator : (fl : Float64) (v : Viper fl.Float) → String → v.Store → Run Outcome
  unfolding load run new_operator new_logger get_database_dsn
  run_operator fl v file s = run_loaded (load v (defaults fl) file s).1
