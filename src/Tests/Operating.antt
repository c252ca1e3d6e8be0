-- ===== src/Tests/Operating.antt =====
-- AVS/internal/config, internal/operator, internal/rebalancer and internal/across, run on two chains.
use sync_hook.Prelude.{
  ℕ, ◌≡◌, refl, String, List, [], ◌∷◌, none, some, Bool, true, not, nat_beq, string_eq, ℤ, pos,
  nat_eq, ok,
}
use sync_hook.Decimal.{bytes, set_string}
use sync_hook.Chain.{Ethereum, ChainConfig, Chain}
use sync_hook.Across
use sync_hook.Across.{new_client}
use sync_hook.Rebalancing.{sample_opportunity, execute_rebalancing_operation}
use sync_hook.Rebalancing.Transfers.{Executes}
use sync_hook.Operator.{Operator, Part, chain, new_operator, run}
use sync_hook.Operator.Lifecycle.{parts, nested, run-nested}
use sync_hook.Operator.Updates.{new_operator-Executes}
use sync_hook.Settings.{Config, sync_avs, validate, required}

abbrev pub net : Ethereum
net = record {
  Address = String;
  Key = String;
  Connection = String;
  Hash = ℕ;
  hex_to_address = λ s. s;
  hex_to_ecdsa = λ s. some s;
  pubkey_to_address = λ k. k;
  hash_of = λ n. n;
}

abbrev pub chain_config : ℕ → String → ChainConfig
chain_config id avs = record {
  id = id;
  name = "chain";
  rpc_url = "http";
  ws_url = "";
  private_key = "key";
  sync_avs = avs;
  pool_manager = "pools";
  sync_hook = "hook";
  confirmations = 1;
}

abbrev pub bridge : Across.Config
bridge = record {
  spoke_pool = "spoke";
  hub_pool = "hub";
  relayer_fee_pct = bytes "1000000000000000";
  max_gas_price = bytes "50";
}

abbrev pub connected : ℕ → Chain net
connected id = record {
  id = id;
  name = "chain";
  client = "http";
  ws_client = none;
  private_key = "key";
  address = "key";
  sync_avs = "avs";
  pool_manager = "pools";
  sync_hook = "hook";
  confirmations = 1;
}

abbrev pub bridge_client : Across.Client net
bridge_client = record {
  config = bridge;
  client = "http";
  spoke_pool = "spoke";
  hub_pool = "hub";
  relayer_fee_pct = pos 1_000_000_000_000_000;
  max_gas_price = pos 50;
}

abbrev two_chains : Operator net
two_chains = record {
  chains = (1, connected 1) ∷ (42_161, connected 42_161) ∷ [];
  rebalancer = record {
    chains = (1, connected 1) ∷ (42_161, connected 42_161) ∷ [];
    across = (1, bridge_client) ∷ (42_161, bridge_client) ∷ [];
  };
}

new_operator_runs :
    new_operator net true
      (λ url. some url)
      bridge
      (chain_config 1 "avs" ∷ chain_config 42_161 "avs" ∷ [])
    ≡ ok two_chains
unfolding new_operator
new_operator_runs = refl

new_operator-Executes_example :
    Executes net bridge 7 (some (connected 1)) (some (pos 100_000_000_000_000_000_000)) (
      execute_rebalancing_operation net 7_000 7
        (some (pos 1))
        two_chains.rebalancer
        sample_opportunity)
unfolding set_string
new_operator-Executes_example =
    new_operator-Executes net true (λ url. some url) bridge
      (chain_config 1 "avs" ∷ chain_config 42_161 "avs" ∷ []) two_chains new_operator_runs 7_000 7
      (some (pos 1)) sample_opportunity

-- The chain with id 2 does not start.
abbrev all_but_two : Part → Bool
all_but_two (chain id) = not (nat_beq id 2)
all_but_two p = true

run-nested_example : run all_but_two (1 ∷ 2 ∷ 3 ∷ []) ≡ nested all_but_two (parts (1 ∷ 2 ∷ 3 ∷ []))
run-nested_example = run-nested all_but_two (1 ∷ 2 ∷ 3 ∷ [])

abbrev pub settings : List ChainConfig → Config ℤ
settings chains = record {
  server = record { host = "0.0.0.0"; port = 8080 };
  database = record {
    host = "localhost";
    port = 5432;
    user = "synchook";
    password = "";
    db_name = "synchook";
    ssl_mode = "disable";
  };
  chains = chains;
  eigen_layer = record {
    registry_coordinator = "registry";
    stake_registry = "";
    bls_apk_registry = "";
    index_registry = "";
    operator_id = 1;
    quorum_number = 0;
  };
  across = bridge;
  log = record { level = "info"; format = "json"; output = "stdout" };
  operator = record {
    state_update_interval = pos 30_000_000_000;
    rebalance_threshold = pos 200_000;
    max_rebalance_amount = "1000000000000000000000";
    min_rebalance_amount = "1000000000000000000";
    rebalance_cooldown = 300_000_000_000;
  };
}

-- The second chain has no address of SyncAVS.
second_lacks :
    validate (settings (chain_config 1 "avs" ∷ chain_config 2 "" ∷ [])) ≡ some (required 1 sync_avs)
unfolding validate
second_lacks = refl
