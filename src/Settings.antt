-- ===== src/Settings.antt =====
-- AVS/internal/config/config.go: which configurations are accepted, and the text that the database is
-- opened with. Reading the file and the environment is left out.
pub mod Completeness
pub mod Loading
pub mod Layers
use sync_hook.Prelude.{
  ℕ, ℤ, suc, String, List, [], ◌∷◌, ◌++◌, Option, none, some, Bool, if◌then◌else◌, ◌==◌, string_eq,
  true, false,
}
use sync_hook.Decimal.{bytes, print_number}
use sync_hook.Chain.{ChainConfig}
use sync_hook.Across
use sync_hook.Floats.{Float64}

pub record ServerConfig : Type 0 where
  pub host : String
  pub port : ℕ

pub record DatabaseConfig : Type 0 where
  pub host : String
  pub port : ℕ
  pub user : String
  pub password : String
  pub db_name : String
  pub ssl_mode : String

pub record EigenLayerConfig : Type 0 where
  pub registry_coordinator : String
  pub stake_registry : String
  pub bls_apk_registry : String
  pub index_registry : String
  pub operator_id : ℕ
  pub quorum_number : ℕ

pub record LogConfig : Type 0 where
  pub level : String
  pub format : String
  pub output : String

-- The intervals are in nanoseconds, and that of the updates is an `int64`.
pub record OperatorConfig (F : Type 0) : Type 0 where
  pub state_update_interval : ℤ
  pub rebalance_threshold : F
  pub max_rebalance_amount : String
  pub min_rebalance_amount : String
  pub rebalance_cooldown : ℕ

pub record Config (F : Type 0) : Type 0 where
  pub server : ServerConfig
  pub database : DatabaseConfig
  pub chains : List ChainConfig
  pub eigen_layer : EigenLayerConfig
  pub across : Across.Config
  pub log : LogConfig
  pub operator : OperatorConfig F

pub data Field : Type 0 where
  rpc_url private_key sync_avs pool_manager : Field

pub data ConfigError : Type 0 where
  no_chain registry_coordinator_required spoke_pool_required : ConfigError
  required : ℕ → Field → ConfigError

-- The checks of one chain, the one with number `i`.
abbrev pub check_chain : ℕ → ChainConfig → Option ConfigError
check_chain i c =
    if c.rpc_url == ""
    then some (required i rpc_url)
    else if c.private_key == ""
    then some (required i private_key)
    else if c.sync_avs == ""
    then some (required i sync_avs)
    else if c.pool_manager == ""
    then some (required i pool_manager)
    else none

-- The loop over the chains from number `i` on.
unfoldable pub check_chains : ℕ → List ChainConfig → Option ConfigError
check_chains i [] = none
check_chains i (c ∷ cs) = elim (check_chain i c) [
  | some e ↦ some e
  | none ↦ check_chains (suc i) cs
]

abbrev pub check_addresses : {F : Type 0} → Config F → Option ConfigError
check_addresses cfg =
    if cfg.eigen_layer.registry_coordinator == ""
    then some registry_coordinator_required
    else if cfg.across.spoke_pool == ""
    then some spoke_pool_required
    else none

abbrev is_empty {ℓ} : {A : Type ℓ} → List A → Bool
is_empty [] = true
is_empty (x ∷ xs) = false

-- `validate`; `none` is no error.
unfoldable pub validate : {F : Type 0} → Config F → Option ConfigError
unfolding check_chains
validate cfg =
    if is_empty cfg.chains
    then some no_chain
    else elim (check_chains 0 cfg.chains) [ some e ↦ some e | none ↦ check_addresses cfg ]

-- `GetDatabaseDSN`, with the environment's `DATABASE_PASSWORD`, as the bytes of the text.
unfoldable pub get_database_dsn : {F : Type 0} → String → Config F → List ℕ
unfolding print_number
get_database_dsn environment cfg =
    let db = cfg.database in
    let password = if db.password == "" then environment else db.password in
    bytes "host="
    ++ (bytes db.host
        ++ (bytes " port="
            ++ (print_number db.port
                ++ (bytes " user="
                    ++ (bytes db.user
                        ++ (bytes " password="
                            ++ (bytes password
                                ++ (bytes " dbname="
                                    ++ (bytes db.db_name
                                        ++ (bytes " sslmode=" ++ bytes db.ssl_mode))))))))))
