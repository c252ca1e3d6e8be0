-- ===== src/Tests/Making.antt =====
-- `NewOperator` of AVS/operator/operator.go on the default configuration, with keys that are numbers.
use sync_hook.Prelude.{ℕ, ◌≡◌, String, [], some, ℤ, nat_eq, returns, err}
use sync_hook.Defaults.{Config}
use sync_hook.Defaults.Values.{get_default_config}
use sync_hook.AvsOperator.{Sdk, no_ecdsa_key, new_operator}
use sync_hook.AvsOperator.Making.{new_operator-fails}
use sync_hook.Tests.Samples.{decimals}
use sync_hook.Tests.Monitored.{names}

abbrev sdk : Sdk
sdk = record {
  EthClient = String;
  EcdsaKey = ℕ;
  BlsKey = ℕ;
  Address = String;
  OperatorId = ℕ;
  EigenMetrics = String;
  NodeApi = String;
  new_eth_client = λ url. some url;
  hex_to_address = λ s. s;
  hash_of = λ s. 7;
  pubkey_to_address = λ k. "address";
  operator_id_from_key_pair = λ k. k;
  new_eigen_metrics = λ n a. a;
  new_node_api = λ n v a. a;
}

abbrev defaults : Config ℤ
defaults = get_default_config decimals

new_operator-fails_example :
    new_operator sdk decimals names defaults [] ≡ returns (err no_ecdsa_key, [])
new_operator-fails_example = new_operator-fails sdk decimals names defaults []
