-- ===== src/Blockchain/Agreement.antt =====
-- How the methods of a client of AVS/pkg/blockchain agree with one another, and with the chains that
-- AVS/pkg/config/config.go supports by default.
use sync_hook.Prelude.{ℕ, ◌/◌, ◌<◌, ◌≡◌, refl, String, [], ◌∷◌, returns, Returns, arith}
use sync_hook.Floats.{Float64}
use sync_hook.Bridge.{ChainConfig}
use sync_hook.Defaults.Values.{get_default_config}
use sync_hook.Blockchain.{NetworkInfo, Client, new_client}
use sync_hook.Blockchain.Ethereum.{ethereum_client, ethereum_network_info}
use sync_hook.Blockchain.Arbitrum.{arbitrum_client, arbitrum_network_info}
use sync_hook.Blockchain.Polygon.{polygon_client, polygon_network_info}

-- What a client says of its chain is what its network information says, and its blocks are numbered by the
-- clock.
pub record IsCoherent (c : Client) (info : NetworkInfo) : Type 0 where
  pub same_chain : c.get_chain_id ≡ info.chain_id
  pub same_gas_price : c.get_gas_price ≡ returns info.gas_price
  pub clocked : (now : ℕ) → c.get_latest_block_number now ≡ now / info.block_time
  pub pool_state_latest :
      (id now₁ now₂ : ℕ)
      → Returns (c.get_pool_state id now₁ now₂) (λ s.
        (s.pool_id ≡ id) × (s.timestamp ≡ now₁) × (s.block_number ≡ c.get_latest_block_number now₂))
  pub receipt_latest :
      (hash now : ℕ)
      → (c.get_transaction_receipt hash now).block_number ≡ c.get_latest_block_number now
  pub block_latest :
      (now₁ now₂ : ℕ) → (c.new_block now₁ now₂).number ≡ c.get_latest_block_number now₁

-- The configuration of a chain with these data.
abbrev pub configured : NetworkInfo → String → ChainConfig
configured info url = record {
  chain_id = info.chain_id;
  name = info.name;
  rpc_url = url;
  block_time = info.block_time;
  gas_price = info.gas_price;
}

module _ (hash_of : String → ℕ) where
  -- The clients of Ethereum, Arbitrum and Polygon are coherent, and the chains that are supported by
  -- default are these three with the names, block times and gas prices of their clients.
  pub clients-IsCoherent :
      (fl : Float64)
      → IsCoherent (ethereum_client hash_of) ethereum_network_info
        × IsCoherent (arbitrum_client hash_of) arbitrum_network_info
        × IsCoherent (polygon_client hash_of) polygon_network_info
        × ((get_default_config fl).supported_chains
            ≡ configured ethereum_network_info "http://localhost:8545"
              ∷ configured arbitrum_network_info "http://localhost:8547"
              ∷ configured polygon_network_info "http://localhost:8548"
              ∷ [])
  unfolding ethereum_client arbitrum_client polygon_client get_default_config
  clients-IsCoherent fl = (
    record {
      same_chain = refl;
      same_gas_price = refl;
      clocked = λ now. refl;
      pool_state_latest = λ id now₁ now₂. (refl, refl, refl);
      receipt_latest = λ hash now. refl;
      block_latest = λ now₁ now₂. refl;
    },
    record {
      same_chain = refl;
      same_gas_price = refl;
      clocked = λ now. refl;
      pool_state_latest = λ id now₁ now₂. (refl, refl, refl);
      receipt_latest = λ hash now. refl;
      block_latest = λ now₁ now₂. refl;
    },
    record {
      same_chain = refl;
      same_gas_price = refl;
      clocked = λ now. refl;
      pool_state_latest = λ id now₁ now₂. (refl, refl, refl);
      receipt_latest = λ hash now. refl;
      block_latest = λ now₁ now₂. refl;
    },
    refl,
  )

  -- The client that serves any chain counts blocks of twelve seconds: of Arbitrum it names a lower block
  -- than the client of Arbitrum at any time after the first second.
  pub new_client-lt-arbitrum_client :
      (now : ℕ)
      → 0 < now
      → (new_client hash_of 42_161).get_latest_block_number now
        < (arbitrum_client hash_of).get_latest_block_number now
  unfolding new_client arbitrum_client
  new_client-lt-arbitrum_client now h = omega arith
