-- ===== src/Defaults/Values.antt =====
-- `GetDefaultConfig` and `GetDefaultAggregatorConfig` of AVS/pkg/config/config.go.
use sync_hook.Prelude.{[], ◌∷◌, true, false, pos}
use sync_hook.Floats.{Float64}
use sync_hook.Decimal.{bytes}
use sync_hook.Defaults.{Config, AggregatorConfig}

module _ (fl : Float64) where
  unfoldable pub get_default_config : Config fl.Float
  get_default_config = record {
    ecdsa_private_key_store_path = "./keys/operator.ecdsa.key.json";
    bls_private_key_store_path = "./keys/operator.bls.key.json";
    eth_rpc_url = "http://localhost:8545";
    eth_ws_url = "ws://localhost:8546";
    registry_coordinator_address = "0x0000000000000000000000000000000000000000";
    operator_state_retriever_address = "0x0000000000000000000000000000000000000000";
    aggregator_server_ip_port_addr = "localhost:8090";
    register_operator_on_startup = true;
    eigen_metrics_ip_port_address = "localhost:9090";
    enable_metrics = true;
    node_api_ip_port_address = "localhost:9091";
    enable_node_api = true;
    sync_avs_address = "0x0000000000000000000000000000000000000000";
    across_address = "0x0000000000000000000000000000000000000000";
    supported_chains =
        record {
          chain_id = 1;
          name = "Ethereum";
          rpc_url = "http://localhost:8545";
          block_time = 12;
          gas_price = pos 20000000000;
        }
        ∷ record {
          chain_id = 42161;
          name = "Arbitrum";
          rpc_url = "http://localhost:8547";
          block_time = 1;
          gas_price = pos 1000000000;
        }
        ∷ record {
          chain_id = 137;
          name = "Polygon";
          rpc_url = "http://localhost:8548";
          block_time = 2;
          gas_price = pos 30000000000;
        }
        ∷ [];
    state_update_interval = 30;
    rebalancing_threshold = fl.literal 5 2;
    max_rebalancing_amount = bytes "1000000000000000000000000";
    min_rebalancing_amount = bytes "1000000000000000000000";
    enable_monitoring = true;
    alert_thresholds = record {
      price_deviation = fl.literal 1 1;
      liquidity_imbalance = fl.literal 2 1;
      response_time = 30;
    };
    log_level = "info";
    log_format = "json";
  }

  unfoldable pub get_default_aggregator_config : AggregatorConfig fl.Float
  get_default_aggregator_config = record {
    server_ip_port_address = "localhost:8090";
    enable_grpc = true;
    enable_http = true;
    http_port = 8080;
    registry_coordinator_address = "0x0000000000000000000000000000000000000000";
    operator_state_retriever_address = "0x0000000000000000000000000000000000000000";
    eth_rpc_url = "http://localhost:8545";
    eth_ws_url = "ws://localhost:8546";
    sync_avs_address = "0x0000000000000000000000000000000000000000";
    across_address = "0x0000000000000000000000000000000000000000";
    task_timeout = 300;
    max_concurrent_tasks = 100;
    task_retry_attempts = 3;
    task_retry_delay = 30;
    state_update_interval = 30;
    state_validation_threshold = fl.literal 8 1;
    max_state_age = 600;
    rebalancing_enabled = true;
    rebalancing_threshold = fl.literal 5 2;
    max_rebalancing_amount = "1000000000000000000000000";
    min_rebalancing_amount = "1000000000000000000000";
    rebalancing_timeout = 1800;
    enable_metrics = true;
    metrics_port = 9090;
    enable_health_check = true;
    health_check_interval = 30;
    log_level = "info";
    log_format = "json";
    log_file = "./logs/aggregator.log";
    database = record {
      type = "sqlite";
      connection_string = "./data/aggregator.db";
      max_connections = 10;
      connection_timeout = 30;
    };
    enable_tls = false;
    tls_cert_file = "";
    tls_key_file = "";
    api_key_required = false;
    api_key = "";
    max_request_size = 10485760;
    request_timeout = 30;
    response_timeout = 60;
  }
