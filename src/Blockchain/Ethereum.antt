-- ===== src/Blockchain/Ethereum.antt =====
-- `EthereumClient` of AVS/pkg/blockchain/ethereum.go.
use sync_hook.Prelude.{ℕ, ◌/◌, String, false, pos, Run, returns, ◌>>=◌}
use sync_hook.Decimal.{bytes, must_set_string}
use sync_hook.Blockchain.{PoolState, TransactionReceipt, Block, NetworkInfo, Client}

unfoldable pub ethereum_pool_state : ℕ → ℕ → ℕ → Run PoolState
unfolding must_set_string
ethereum_pool_state id now₁ now₂ = do
  liquidity ← must_set_string (bytes "1000000000000000000000000")
  price ← must_set_string (bytes "2000000000000000000000")
  volume ← must_set_string (bytes "50000000000000000000000")
  fees ← must_set_string (bytes "1000000000000000000000")
  returns (record {
    pool_id = id;
    total_liquidity = liquidity;
    price = price;
    volume24h = volume;
    fees24h = fees;
    timestamp = now₁;
    block_number = now₂ / 12;
  })

abbrev pub ethereum_receipt : ℕ → ℕ → TransactionReceipt
ethereum_receipt hash now = record {
  tx_hash = hash;
  block_number = now / 12;
  status = 1;
  gas_used = 21000;
}

abbrev pub ethereum_block : (String → ℕ) → ℕ → ℕ → Block
ethereum_block hash_of now₁ now₂ = record {
  number = now₁ / 12;
  hash = hash_of "0xabcdef1234567890";
  timestamp = now₂;
  parent_hash = hash_of "0x1234567890abcdef";
}

unfoldable pub ethereum_client : (String → ℕ) → Client
unfolding ethereum_pool_state must_set_string
ethereum_client hash_of = record {
  get_chain_id = 1;
  get_latest_block_number = λ now. now / 12;
  get_pool_state = ethereum_pool_state;
  get_token_balance = must_set_string (bytes "1000000000000000000000");
  get_token_price = must_set_string (bytes "2000000000000000000000");
  get_gas_price = returns (pos 20000000000);
  estimate_gas = 21000;
  send_transaction = hash_of "0x1234567890abcdef";
  get_transaction_receipt = ethereum_receipt;
  new_block = ethereum_block hash_of;
}

abbrev pub ethereum_network_info : NetworkInfo
ethereum_network_info = record {
  chain_id = 1;
  name = "Ethereum";
  block_time = 12;
  gas_price = pos 20000000000;
  is_testnet = false;
}
