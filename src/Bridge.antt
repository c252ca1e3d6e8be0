-- ===== src/Bridge.antt =====
-- The requests of AVS/pkg/across/client.go, and the chains of AVS/pkg/config/config.go that they may name.
-- An address is a number, and the empty one is 0.
pub mod Service
pub mod Requests
pub mod Chains
use sync_hook.Prelude.{
  ℕ, String, List, [], ◌∷◌, map, Option, none, some, Bool, true, false, if◌then◌else◌, leb, nat_beq,
  ◌==◌, string_eq, ℤ, pos, ◌+ℤ◌, quot_ℤ, leb_ℤ,
}

-- The fields that are checked and counted with.
pub record RebalancingRequest : Type 0 where
  pub request_id : String
  pub source_chain_id : ℕ
  pub target_chain_id : ℕ
  pub token : ℕ
  pub amount : ℤ
  pub deadline : ℕ
  pub recipient : ℕ

pub data RequestError : Type 0 where
  request_id_required source_chain_required target_chain_required : RequestError
  chains_must_differ token_required amount_must_be_positive : RequestError
  recipient_required deadline_must_be_later : RequestError

-- `ValidateRebalancingRequest`; `none` is no error, and `now` the clock's reading.
unfoldable pub validate_rebalancing_request : ℕ → RebalancingRequest → Option RequestError
validate_rebalancing_request now r =
    if r.request_id == ""
    then some request_id_required
    else if nat_beq r.source_chain_id 0
    then some source_chain_required
    else if nat_beq r.target_chain_id 0
    then some target_chain_required
    else if nat_beq r.source_chain_id r.target_chain_id
    then some chains_must_differ
    else if nat_beq r.token 0
    then some token_required
    else if leb_ℤ r.amount (pos 0)
    then some amount_must_be_positive
    else if nat_beq r.recipient 0
    then some recipient_required
    else if leb r.deadline now
    then some deadline_must_be_later
    else none

abbrev pub base_cost : ℤ
base_cost = pos 500_000_000_000_000_000

unfoldable pub estimate_rebalancing_cost : RebalancingRequest → ℤ
estimate_rebalancing_cost r = base_cost +ℤ quot_ℤ r.amount (pos 1000)

pub record ChainConfig : Type 0 where
  pub chain_id : ℕ
  pub name : String
  pub rpc_url : String
  pub block_time : ℕ
  pub gas_price : ℤ

-- `GetChainConfig`, on the list of supported chains; `none` is the error `chain not supported`.
unfoldable pub get_chain_config : ℕ → List ChainConfig → Option ChainConfig
get_chain_config id [] = none
get_chain_config id (c ∷ cs) = if nat_beq c.chain_id id then some c else get_chain_config id cs

unfoldable pub get_supported_chain_ids : List ChainConfig → List ℕ
get_supported_chain_ids cs = map (λ (c : ChainConfig). c.chain_id) cs

abbrev is_found : Option ChainConfig → Bool
is_found none = false
is_found (some c) = true

unfoldable pub is_chain_supported : ℕ → List ChainConfig → Bool
unfolding get_chain_config
is_chain_supported id cs = is_found (get_chain_config id cs)
