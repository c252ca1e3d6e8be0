-- ===== src/Blockchain/Arbitrum.antt =====
-- `ArbitrumClient` of AVS/pkg/blockchain/arbitrum.go.
use sync_hook.Prelude.{ℕ, ◌/◌, String, false, pos, Run, returns, ◌>>=◌}
use sync_hook.Decimal.{bytes, must_set_string}
use sync_hook.Blockchain.{PoolState, TransactionReceipt, Block, NetworkInfo, Client}

unfoldable pub arbitrum_pool_state : ℕ → ℕ → ℕ → Run PoolState
unfolding must_set_string
arbitrum_pool_state id now₁ now₂ = do
  liquidity ← must_set_string (bytes "500000000000000000000000")
  price ← must_set_string (bytes "2000000000000000000000")
  volume ← must_set_string (bytes "25000000000000000000000")
  fees ← must_set_string (bytes "500000000000000000000")
  returns (record {
    pool_id = id;
    total_liquidity = liquidity;
    price = price;
    volume24h = volume;
    fees24h = fees;
    timestamp = now₁;
    block_number = now₂ / 1;
  })

abbrev pub arbitrum_receipt : ℕ → ℕ → TransactionReceipt
arbitrum_receipt hash now = record {
  tx_hash = hash;
  block_number = now / 1;
  status = 1;
  gas_used = 21000;
}

abbrev pub arbitrum_block : (String → ℕ) → ℕ → ℕ → Block
arbitrum_block hash_of now₁ now₂ = record {
  number = now₁ / 1;
  hash = hash_of "0xabcdef1234567890";
  timestamp = now₂;
  parent_hash = hash_of "0x1234567890abcdef";
}

unfoldable pub arbitrum_client : (String → ℕ) → Client
unfolding arbitrum_pool_state must_set_string
arbitrum_client hash_of = record {
  get_chain_id = 42161;
  get_latest_block_number = λ now. now / 1;
  get_pool_state = arbitrum_pool_state;
  get_token_balance = must_set_string (bytes "500000000000000000000");
  get_token_price = must_set_string (bytes "2000000000000000000000");
  get_gas_price = returns (pos 1000000000);
  estimate_gas = 21000;
  send_transaction = hash_of "0xabcdef1234567890";
  get_transaction_receipt = arbitrum_receipt;
  new_block = arbitrum_block hash_of;
}

abbrev pub arbitrum_network_info : NetworkInfo
arbitrum_network_info = record {
  chain_id = 42161;
  name = "Arbitrum";
  block_time = 1;
  gas_price = pos 1000000000;
  is_testnet = false;
}
