-- ===== src/Defaults/Validity.antt =====
-- What `Validate` of AVS/pkg/config/config.go accepts, and that the defaults are accepted.
use sync_hook.Prelude.{◌<◌, ◌≤ℤ◌, ◌≡◌, ◌≢◌, ◌↔◌, refl, none, string_eq, length, ℤ, pos, ok, arith}
use sync_hook.Floats.{Float64}
use sync_hook.Defaults.{
  Config, AggregatorConfig, validate_config, validate_aggregator_config, get_max_rebalancing_amount,
  get_min_rebalancing_amount,
}
use sync_hook.Defaults.Values.{get_default_config, get_default_aggregator_config}

module _ {F : Type 0} where
  -- Every text that the operator needs is given, and a chain is supported.
  pub record IsComplete (c : Config F) : Type 0 where
    pub ecdsa_private_key_store_path_given : c.ecdsa_private_key_store_path ≢ ""
    pub bls_private_key_store_path_given : c.bls_private_key_store_path ≢ ""
    pub eth_rpc_url_given : c.eth_rpc_url ≢ ""
    pub registry_coordinator_address_given : c.registry_coordinator_address ≢ ""
    pub sync_avs_address_given : c.sync_avs_address ≢ ""
    pub across_address_given : c.across_address ≢ ""
    pub some_chain : 0 < length c.supported_chains

  -- Every text that the aggregator needs is given.
  pub record IsReady (c : AggregatorConfig F) : Type 0 where
    pub server_ip_port_address_given : c.server_ip_port_address ≢ ""
    pub eth_rpc_url_given : c.eth_rpc_url ≢ ""
    pub registry_coordinator_address_given : c.registry_coordinator_address ≢ ""
    pub sync_avs_address_given : c.sync_avs_address ≢ ""
    pub across_address_given : c.across_address ≢ ""

  -- `Validate` accepts a configuration of the operator exactly when every text that it needs is given and
  -- a chain is supported.
  pub validate_config-IsComplete : (c : Config F) → (validate_config c ≡ none) ↔ IsComplete c
  unfolding validate_config
  validate_config-IsComplete c = ground (
    arith,
    string_eq.beq_iff c.ecdsa_private_key_store_path "",
    string_eq.beq_iff c.bls_private_key_store_path "",
    string_eq.beq_iff c.eth_rpc_url "",
    string_eq.beq_iff c.registry_coordinator_address "",
    string_eq.beq_iff c.sync_avs_address "",
    string_eq.beq_iff c.across_address "",
  )

  -- `Validate` accepts a configuration of the aggregator exactly when every text that it needs is given.
  pub validate_aggregator_config-IsReady :
      (c : AggregatorConfig F) → (validate_aggregator_config c ≡ none) ↔ IsReady c
  unfolding validate_aggregator_config
  validate_aggregator_config-IsReady c = ground (
    arith,
    string_eq.beq_iff c.server_ip_port_address "",
    string_eq.beq_iff c.eth_rpc_url "",
    string_eq.beq_iff c.registry_coordinator_address "",
    string_eq.beq_iff c.sync_avs_address "",
    string_eq.beq_iff c.across_address "",
  )

module _ (fl : Float64) where
  -- The defaults are accepted, and their amounts are numbers: the least is not above the largest.
  pub get_default_config-accepted :
      (validate_config (get_default_config fl) ≡ none)
      × (validate_aggregator_config (get_default_aggregator_config fl) ≡ none)
      × ((least : ℤ) × (largest : ℤ) × (get_min_rebalancing_amount (get_default_config fl)
            ≡ ok least)
          × (get_max_rebalancing_amount (get_default_config fl) ≡ ok largest)
          × (least ≤ℤ largest))
  unfolding validate_config validate_aggregator_config get_default_config
      get_default_aggregator_config get_min_rebalancing_amount get_max_rebalancing_amount
  get_default_config-accepted = (
    refl,
    refl,
    (
      pos 1_000_000_000_000_000_000_000,
      pos 1_000_000_000_000_000_000_000_000,
      refl,
      refl,
      omega arith,
    ),
  )
