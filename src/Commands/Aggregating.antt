-- ===== src/Commands/Aggregating.antt =====
-- `loadConfig` of AVS/cmd/aggregator/main.go, and how its defaults compare with those of
-- AVS/pkg/config/config.go, which the command does not use.
use sync_hook.Prelude.{◌≡◌, ◌≢◌, refl, none, some, true, Result, ok, err, or_err}
use sync_hook.Floats.{Float64}
use sync_hook.Service.Loops.{Config}
use sync_hook.Defaults.Loading.{
  FileAt, missing, locked, opened, LoadError, open_failed, decode_failed, load_aggregator_config,
}
use sync_hook.Defaults.{AggregatorConfig, validate_aggregator_config}
use sync_hook.Defaults.Values.{get_default_aggregator_config}

-- The defaults of the command.
abbrev pub default_config : (fl : Float64) → Config fl.Float
default_config fl = record {
  server_ip_port_address = "localhost:8090";
  enable_grpc = true;
  enable_http = true;
  http_port = 8080;
  registry_coordinator_address = "0x0000000000000000000000000000000000000000";
  operator_state_retriever_address = "0x0000000000000000000000000000000000000000";
  eth_rpc_url = "http://localhost:8545";
  eth_ws_url = "ws://localhost:8546";
  sync_avs_address = "0x0000000000000000000000000000000000000000";
  across_address = "0x0000000000000000000000000000000000000000";
  task_timeout = 300;
  max_concurrent_tasks = 100;
  task_retry_attempts = 3;
  task_retry_delay = 30;
  state_update_interval = 30;
  state_validation_threshold = fl.literal 8 1;
  max_state_age = 600;
  rebalancing_enabled = true;
  rebalancing_threshold = fl.literal 5 2;
  max_rebalancing_amount = "1000000000000000000000000";
  min_rebalancing_amount = "1000000000000000000000";
  rebalancing_timeout = 1800;
  enable_metrics = true;
  metrics_port = 9090;
  enable_health_check = true;
  health_check_interval = 30;
  log_level = "info";
  log_format = "json";
}

unfoldable pub load_config :
    (fl : Float64) → FileAt (Config fl.Float) → Result LoadError (Config fl.Float)
load_config fl missing = ok (default_config fl)
load_config fl locked = err open_failed
load_config fl (opened decoded) = or_err decode_failed decoded

-- The fields of a configuration of AVS/pkg/config that AVS/aggregator has too.
abbrev pub shared_fields : {F : Type 0} → AggregatorConfig F → Config F
shared_fields c = record {
  server_ip_port_address = c.server_ip_port_address;
  enable_grpc = c.enable_grpc;
  enable_http = c.enable_http;
  http_port = c.http_port;
  registry_coordinator_address = c.registry_coordinator_address;
  operator_state_retriever_address = c.operator_state_retriever_address;
  eth_rpc_url = c.eth_rpc_url;
  eth_ws_url = c.eth_ws_url;
  sync_avs_address = c.sync_avs_address;
  across_address = c.across_address;
  task_timeout = c.task_timeout;
  max_concurrent_tasks = c.max_concurrent_tasks;
  task_retry_attempts = c.task_retry_attempts;
  task_retry_delay = c.task_retry_delay;
  state_update_interval = c.state_update_interval;
  state_validation_threshold = c.state_validation_threshold;
  max_state_age = c.max_state_age;
  rebalancing_enabled = c.rebalancing_enabled;
  rebalancing_threshold = c.rebalancing_threshold;
  max_rebalancing_amount = c.max_rebalancing_amount;
  min_rebalancing_amount = c.min_rebalancing_amount;
  rebalancing_timeout = c.rebalancing_timeout;
  enable_metrics = c.enable_metrics;
  metrics_port = c.metrics_port;
  enable_health_check = c.enable_health_check;
  health_check_interval = c.health_check_interval;
  log_level = c.log_level;
  log_format = c.log_format;
}

-- The same file, decoded for the other type.
abbrev pub shared_file : {F : Type 0} → FileAt (AggregatorConfig F) → FileAt (Config F)
shared_file missing = missing
shared_file locked = locked
shared_file (opened none) = opened none
shared_file (opened (some c)) = opened (some (shared_fields c))

abbrev pub shared_result :
    {F : Type 0} → Result LoadError (AggregatorConfig F) → Result LoadError (Config F)
shared_result (ok c) = ok (shared_fields c)
shared_result (err e) = err e

-- Where there is a file, the command loads what `LoadAggregatorConfig` loads, and fails with it; where
-- there is none, it takes the defaults of AVS/pkg/config, which their `Validate` accepts, and does not
-- fail.
pub load_config-load_aggregator_config :
    (fl : Float64) (file : FileAt (AggregatorConfig fl.Float))
    → ((file ≢ missing)
        → load_config fl (shared_file file) ≡ shared_result (load_aggregator_config file))
      × (load_config fl missing ≡ ok (shared_fields (get_default_aggregator_config fl)))
      × (validate_aggregator_config (get_default_aggregator_config fl) ≡ none)
unfolding load_config load_aggregator_config get_default_aggregator_config
    validate_aggregator_config
load_config-load_aggregator_config fl missing = (λ h. absurd (h refl), refl, refl)
load_config-load_aggregator_config fl locked = (λ h. refl, refl, refl)
load_config-load_aggregator_config fl (opened none) = (λ h. refl, refl, refl)
load_config-load_aggregator_config fl (opened (some c)) = (λ h. refl, refl, refl)
