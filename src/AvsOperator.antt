-- ===== src/AvsOperator.antt =====
-- AVS/operator/operator.go: what `NewOperator` makes, and what `Start` begins. What the SDK of EigenLayer
-- and go-ethereum make and compute is the record `Sdk`.
pub mod Making
use sync_hook.Prelude.{
  ℕ, String, List, [], ◌∷◌, ◌++◌, Option, none, some, Bool, true, false, if◌then◌else◌, ℤ, Map,
  insert, nat_eq, Run, returns, ◌>>=◌, Result, ok, err,
}
use sync_hook.Floats.{Float64}
use sync_hook.Aggregator
use sync_hook.Blockchain
use sync_hook.Bridge.{ChainConfig}
use sync_hook.Defaults.{Config}
use sync_hook.Monitoring.{Monitor, new_monitor}
use sync_hook.Monitoring.Registration.{Registry}

pub record Sdk : Type 1 where
  pub EthClient : Type 0
  pub EcdsaKey : Type 0
  pub BlsKey : Type 0
  pub Address : Type 0
  pub OperatorId : Type 0
  pub EigenMetrics : Type 0
  pub NodeApi : Type 0
  -- `eth.NewClient`; `none` is an error
  pub new_eth_client : String → Option EthClient
  pub hex_to_address : String → Address
  pub hash_of : String → ℕ
  pub pubkey_to_address : EcdsaKey → Address
  pub operator_id_from_key_pair : BlsKey → OperatorId
  pub new_eigen_metrics : String → String → EigenMetrics
  pub new_node_api : String → String → String → NodeApi

pub record PoolState : Type 0 where
  pub total_liquidity : ℤ
  pub price : ℤ
  pub volume24h : ℤ
  pub fees24h : ℤ
  pub timestamp : ℕ
  pub block_number : ℕ

pub record GlobalPoolState : Type 0 where
  pub total_liquidity : Option ℤ
  pub average_price : Option ℤ
  pub imbalance_score : Option ℤ
  pub last_update_block : ℕ
  pub chain_states : Map ℕ PoolState

pub record StateTask : Type 0 where
  pub task_id : ℕ
  pub chain_id : ℕ
  pub pool_id : ℕ
  pub pool_state : Option PoolState
  pub task_created_block : ℕ
  pub quorum_numbers : List ℕ
  pub quorum_threshold_percentage : ℕ

pub record RebalancingTask (A : Type 0) : Type 0 where
  pub task_id : ℕ
  pub source_chain_id : ℕ
  pub target_chain_id : ℕ
  pub amount : Option ℤ
  pub token : A
  pub task_created_block : ℕ
  pub quorum_numbers : List ℕ
  pub quorum_threshold_percentage : ℕ

pub data OperatorError : Type 0 where
  no_eth_client no_ecdsa_key no_bls_key : OperatorError

-- What `Start` runs beside itself.
pub data Loop : Type 0 where
  monitoring state_update task_processing rebalancing serving : Loop

abbrev pub sem_ver : String
sem_ver = "0.0.1"

module _ (sdk : Sdk) where
  -- The client of EigenLayer of AVS/pkg/eigenlayer and the one of the bridge keep an address; the latter
  -- does not keep the connection.
  pub record EigenLayerClient : Type 0 where
    pub registry_coordinator : sdk.Address
    pub eth_client : sdk.EthClient

  pub record Operator (F : Type 0) : Type 0 where
    pub config : Config F
    pub eth_client : sdk.EthClient
    pub metrics : Option sdk.EigenMetrics
    pub node_api : Option sdk.NodeApi
    pub eigen_layer_client : EigenLayerClient
    pub state_aggregator : Aggregator.Aggregator
    pub across_address : sdk.Address
    pub blockchain_clients : Map ℕ Blockchain.Client
    pub monitoring : Monitor F
    pub bls_keypair : sdk.BlsKey
    pub operator_id : sdk.OperatorId
    pub operator_addr : sdk.Address
    pub operator_ecdsa_private_key : sdk.EcdsaKey
    pub state_tasks : Map ℕ StateTask
    pub rebalancing_tasks : Map ℕ (RebalancingTask sdk.Address)
    pub global_pool_states : Map String GlobalPoolState

  -- No key is ever loaded.
  unfoldable pub load_ecdsa_private_key : String → Option sdk.EcdsaKey
  load_ecdsa_private_key path = none

  unfoldable pub load_bls_private_key : String → Option sdk.BlsKey
  load_bls_private_key path = none

  -- The loop over the supported chains; `NewClient` of AVS/pkg/blockchain returns no error.
  unfoldable pub blockchain_clients :
      Map ℕ Blockchain.Client → List ChainConfig → Map ℕ Blockchain.Client
  blockchain_clients made [] = made
  blockchain_clients made (c ∷ cs) =
      blockchain_clients (insert c.chain_id (Blockchain.new_client sdk.hash_of c.chain_id) made) cs

  -- The value that `NewOperator` returns.
  abbrev pub made_of :
      {F : Type 0} → Config F → sdk.EthClient → sdk.EcdsaKey → sdk.BlsKey → Monitor F → Operator F
  made_of cfg eth ecdsa bls monitor = record {
    config = cfg;
    eth_client = eth;
    metrics =
        if cfg.enable_metrics
        then some (sdk.new_eigen_metrics "synchook" cfg.eigen_metrics_ip_port_address)
        else none;
    node_api =
        if cfg.enable_node_api
        then some (sdk.new_node_api "synchook-operator" sem_ver cfg.node_api_ip_port_address)
        else none;
    eigen_layer_client = record {
      registry_coordinator = sdk.hex_to_address cfg.registry_coordinator_address;
      eth_client = eth;
    };
    state_aggregator = Aggregator.new_aggregator;
    across_address = sdk.hex_to_address cfg.across_address;
    blockchain_clients = blockchain_clients [] cfg.supported_chains;
    monitoring = monitor;
    bls_keypair = bls;
    operator_id = sdk.operator_id_from_key_pair bls;
    operator_addr = sdk.pubkey_to_address ecdsa;
    operator_ecdsa_private_key = ecdsa;
    state_tasks = [];
    rebalancing_tasks = [];
    global_pool_states = [];
  }

  module _ (fl : Float64) (reg : Registry) where
    -- The rest of `NewOperator`, once it has the keys. `NewMonitor` registers its metrics.
    unfoldable pub with_keys :
        Config fl.Float
        → sdk.EthClient
        → sdk.EcdsaKey
        → sdk.BlsKey
        → reg.State
        → Run (Result OperatorError (Operator fl.Float) × reg.State)
    unfolding new_monitor
    with_keys cfg eth ecdsa bls r = new_monitor reg (fl.literal 0 0) r >>= λ (monitor, r').
        returns (ok (made_of cfg eth ecdsa bls monitor), r')

    -- `NewOperator`
    unfoldable pub new_operator :
        Config fl.Float → reg.State → Run (Result OperatorError (Operator fl.Float) × reg.State)
    unfolding with_keys load_ecdsa_private_key load_bls_private_key
    new_operator cfg r = elim (sdk.new_eth_client cfg.eth_rpc_url) [
      | none ↦ returns (err no_eth_client, r)
      | some eth ↦ elim (load_ecdsa_private_key cfg.ecdsa_private_key_store_path) [
        | none ↦ returns (err no_ecdsa_key, r)
        | some ecdsa ↦ elim (load_bls_private_key cfg.bls_private_key_store_path) [
          | none ↦ returns (err no_bls_key, r)
          | some bls ↦ with_keys cfg eth ecdsa bls r
        ]
      ]
    ]

  abbrev pub serving_if {ℓ} : {A : Type ℓ} → Option A → List Loop
  serving_if none = []
  serving_if (some api) = serving ∷ []

  -- `Start`, until its context is cancelled: whether the operator is registered, and what is begun.
  -- `registerOperator` does nothing and returns no error.
  unfoldable pub start : {F : Type 0} → Operator F → Bool × List Loop
  start o = (
    o.config.register_operator_on_startup,
    (monitoring ∷ state_update ∷ task_processing ∷ rebalancing ∷ []) ++ serving_if o.node_api,
  )
