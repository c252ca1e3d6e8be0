-- ===== src/Tests/Bridging.antt =====
-- AVS/pkg/across/client.go and AVS/pkg/config/config.go, run on a request and on two chains.
use sync_hook.Prelude.{ℕ, ◌≡◌, refl, String, List, [], ◌∷◌, none, pos}
use sync_hook.Bridge.{RebalancingRequest, validate_rebalancing_request, ChainConfig}

abbrev request : RebalancingRequest
request = record {
  request_id = "req";
  source_chain_id = 1;
  target_chain_id = 42161;
  token = 7;
  amount = pos 5000;
  deadline = 100;
  recipient = 9;
}

abbrev chain : ℕ → String → ChainConfig
chain id name = record {
  chain_id = id;
  name = name;
  rpc_url = "";
  block_time = 12;
  gas_price = pos 20;
}

abbrev chains : List ChainConfig
chains = chain 1 "ethereum" ∷ chain 42161 "arbitrum" ∷ []

request_accepted : validate_rebalancing_request 50 request ≡ none
unfolding validate_rebalancing_request
request_accepted = refl
