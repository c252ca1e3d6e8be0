-- ===== src/Blockchain/Polygon.antt =====
-- `PolygonClient` of AVS/pkg/blockchain/polygon.go.
use sync_hook.Prelude.{ℕ, ◌/◌, String, false, pos, Run, returns, ◌>>=◌}
use sync_hook.Decimal.{bytes, must_set_string}
use sync_hook.Blockchain.{PoolState, TransactionReceipt, Block, NetworkInfo, Client}

unfoldable pub polygon_pool_state : ℕ → ℕ → ℕ → Run PoolState
unfolding must_set_string
polygon_pool_state id now₁ now₂ = do
  liquidity ← must_set_string (bytes "750000000000000000000000")
  price ← must_set_string (bytes "2000000000000000000000")
  volume ← must_set_string (bytes "37500000000000000000000")
  fees ← must_set_string (bytes "750000000000000000000")
  returns (record {
    pool_id = id;
    total_liquidity = liquidity;
    price = price;
    volume24h = volume;
    fees24h = fees;
    timestamp = now₁;
    block_number = now₂ / 2;
  })

abbrev pub polygon_receipt : ℕ → ℕ → TransactionReceipt
polygon_receipt hash now = record {
  tx_hash = hash;
  block_number = now / 2;
  status = 1;
  gas_used = 21000;
}

abbrev pub polygon_block : (String → ℕ) → ℕ → ℕ → Block
polygon_block hash_of now₁ now₂ = record {
  number = now₁ / 2;
  hash = hash_of "0x1234567890abcdef";
  timestamp = now₂;
  parent_hash = hash_of "0xabcdef1234567890";
}

unfoldable pub polygon_client : (String → ℕ) → Client
unfolding polygon_pool_state must_set_string
polygon_client hash_of = record {
  get_chain_id = 137;
  get_latest_block_number = λ now. now / 2;
  get_pool_state = polygon_pool_state;
  get_token_balance = must_set_string (bytes "750000000000000000000");
  get_token_price = must_set_string (bytes "2000000000000000000000");
  get_gas_price = returns (pos 30000000000);
  estimate_gas = 21000;
  send_transaction = hash_of "0x1234567890abcdef";
  get_transaction_receipt = polygon_receipt;
  new_block = polygon_block hash_of;
}

abbrev pub polygon_network_info : NetworkInfo
polygon_network_info = record {
  chain_id = 137;
  name = "Polygon";
  block_time = 2;
  gas_price = pos 30000000000;
  is_testnet = false;
}
