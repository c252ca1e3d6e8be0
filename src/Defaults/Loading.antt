-- ===== src/Defaults/Loading.antt =====
-- `LoadConfig` and `LoadAggregatorConfig` of AVS/pkg/config/config.go, which decode a file.
use sync_hook.Prelude.{Option, Result, err, or_err}
use sync_hook.Defaults.{Config, AggregatorConfig}

-- What stands at a path: nothing, a file that cannot be opened, or one with what `Decode` of encoding/json
-- makes of it.
pub data FileAt (A : Type 0) : Type 0 where
  missing locked : FileAt A
  opened : Option A → FileAt A

pub data LoadError : Type 0 where
  open_failed decode_failed : LoadError

module _ {F : Type 0} where
  unfoldable pub load_config : FileAt (Config F) → Result LoadError (Config F)
  load_config missing = err open_failed
  load_config locked = err open_failed
  load_config (opened decoded) = or_err decode_failed decoded

  unfoldable pub load_aggregator_config :
      FileAt (AggregatorConfig F) → Result LoadError (AggregatorConfig F)
  load_aggregator_config missing = err open_failed
  load_aggregator_config locked = err open_failed
  load_aggregator_config (opened decoded) = or_err decode_failed decoded
