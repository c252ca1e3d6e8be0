-- ===== src/Defaults.antt =====
-- AVS/pkg/config/config.go: the configurations of the operator and of the aggregator, and which are
-- accepted. A number of seconds, a port or a count is not negative. An amount that is parsed is
-- the list of the bytes of its text. The defaults are in Values, reading a file in Loading.
pub mod Values
pub mod Validity
pub mod Loading
use sync_hook.Prelude.{
  ℕ, ◌*◌, String, List, Option, none, some, Bool, if◌then◌else◌, ◌==◌, string_eq, nat_beq, length,
  ℤ, pos, Result, ok, err, or_err,
}
use sync_hook.Words.{int64}
use sync_hook.Decimal.{set_string}
use sync_hook.Bridge.{ChainConfig}

pub record AlertThresholds (F : Type 0) : Type 0 where
  pub price_deviation : F
  pub liquidity_imbalance : F
  pub response_time : ℕ

pub record DatabaseConfig : Type 0 where
  pub type : String
  pub connection_string : String
  pub max_connections : ℕ
  pub connection_timeout : ℕ

pub record Config (F : Type 0) : Type 0 where
  pub ecdsa_private_key_store_path : String
  pub bls_private_key_store_path : String
  pub eth_rpc_url : String
  pub eth_ws_url : String
  pub registry_coordinator_address : String
  pub operator_state_retriever_address : String
  pub aggregator_server_ip_port_addr : String
  pub register_operator_on_startup : Bool
  pub eigen_metrics_ip_port_address : String
  pub enable_metrics : Bool
  pub node_api_ip_port_address : String
  pub enable_node_api : Bool
  pub sync_avs_address : String
  pub across_address : String
  pub supported_chains : List ChainConfig
  pub state_update_interval : ℕ
  pub rebalancing_threshold : F
  pub max_rebalancing_amount : List ℕ
  pub min_rebalancing_amount : List ℕ
  pub enable_monitoring : Bool
  pub alert_thresholds : AlertThresholds F
  pub log_level : String
  pub log_format : String

pub record AggregatorConfig (F : Type 0) : Type 0 where
  pub server_ip_port_address : String
  pub enable_grpc : Bool
  pub enable_http : Bool
  pub http_port : ℕ
  pub registry_coordinator_address : String
  pub operator_state_retriever_address : String
  pub eth_rpc_url : String
  pub eth_ws_url : String
  pub sync_avs_address : String
  pub across_address : String
  pub task_timeout : ℕ
  pub max_concurrent_tasks : ℕ
  pub task_retry_attempts : ℕ
  pub task_retry_delay : ℕ
  pub state_update_interval : ℕ
  pub state_validation_threshold : F
  pub max_state_age : ℕ
  pub rebalancing_enabled : Bool
  pub rebalancing_threshold : F
  pub max_rebalancing_amount : String
  pub min_rebalancing_amount : String
  pub rebalancing_timeout : ℕ
  pub enable_metrics : Bool
  pub metrics_port : ℕ
  pub enable_health_check : Bool
  pub health_check_interval : ℕ
  pub log_level : String
  pub log_format : String
  pub log_file : String
  pub database : DatabaseConfig
  pub enable_tls : Bool
  pub tls_cert_file : String
  pub tls_key_file : String
  pub api_key_required : Bool
  pub api_key : String
  pub max_request_size : ℕ
  pub request_timeout : ℕ
  pub response_timeout : ℕ

-- The texts that a configuration must give, and the list of chains.
pub data Field : Type 0 where
  ecdsa_private_key_store_path bls_private_key_store_path eth_rpc_url registry_coordinator_address
        sync_avs_address across_address server_ip_port_address a_supported_chain :
      Field

pub data AmountError : Type 0 where
  invalid_max_rebalancing_amount invalid_min_rebalancing_amount : AmountError

module _ {F : Type 0} where
  -- `Validate` of `Config`; `none` is no error.
  unfoldable pub validate_config : Config F → Option Field
  validate_config c =
      if c.ecdsa_private_key_store_path == ""
      then some Field.ecdsa_private_key_store_path
      else if c.bls_private_key_store_path == ""
      then some Field.bls_private_key_store_path
      else if c.eth_rpc_url == ""
      then some Field.eth_rpc_url
      else if c.registry_coordinator_address == ""
      then some Field.registry_coordinator_address
      else if c.sync_avs_address == ""
      then some Field.sync_avs_address
      else if c.across_address == ""
      then some Field.across_address
      else if nat_beq (length c.supported_chains) 0
      then some a_supported_chain
      else none

  -- `Validate` of `AggregatorConfig`; `none` is no error.
  unfoldable pub validate_aggregator_config : AggregatorConfig F → Option Field
  validate_aggregator_config c =
      if c.server_ip_port_address == ""
      then some Field.server_ip_port_address
      else if c.eth_rpc_url == ""
      then some Field.eth_rpc_url
      else if c.registry_coordinator_address == ""
      then some Field.registry_coordinator_address
      else if c.sync_avs_address == ""
      then some Field.sync_avs_address
      else if c.across_address == ""
      then some Field.across_address
      else none

  -- In nanoseconds, a `time.Duration`.
  unfoldable pub get_state_update_interval : Config F → ℤ
  unfolding int64
  get_state_update_interval c = int64 (pos (c.state_update_interval * 1_000_000_000))

  unfoldable pub get_rebalancing_threshold : Config F → F
  get_rebalancing_threshold c = c.rebalancing_threshold

  unfoldable pub get_max_rebalancing_amount : Config F → Result AmountError ℤ
  unfolding set_string
  get_max_rebalancing_amount c =
      or_err invalid_max_rebalancing_amount (set_string c.max_rebalancing_amount)

  unfoldable pub get_min_rebalancing_amount : Config F → Result AmountError ℤ
  unfolding set_string
  get_min_rebalancing_amount c =
      or_err invalid_min_rebalancing_amount (set_string c.min_rebalancing_amount)
