-- ===== src/Blockchain.antt =====
-- The interface `Client` of AVS/pkg/blockchain/client.go, its data, and the client that serves any chain.
-- No method returns an error, but `MustSetString` may panic. A hash is a number, and `HexToHash` of
-- go-ethereum is an argument; the clock is in seconds.
pub mod Ethereum
pub mod Arbitrum
pub mod Polygon
pub mod Agreement
pub mod Subscription
use sync_hook.Prelude.{
  ℕ, ◌/◌, String, List, Bool, if◌then◌else◌, nat_beq, ℤ, pos, Run, returns, ◌>>=◌,
}
use sync_hook.Decimal.{bytes, must_set_string}

pub record PoolState : Type 0 where
  pub pool_id : ℕ
  pub total_liquidity : ℤ
  pub price : ℤ
  pub volume24h : ℤ
  pub fees24h : ℤ
  pub timestamp : ℕ
  pub block_number : ℕ

-- A receipt has no logs.
pub record TransactionReceipt : Type 0 where
  pub tx_hash : ℕ
  pub block_number : ℕ
  pub status : ℕ
  pub gas_used : ℕ

pub record Block : Type 0 where
  pub number : ℕ
  pub hash : ℕ
  pub timestamp : ℕ
  pub parent_hash : ℕ

pub record NetworkInfo : Type 0 where
  pub chain_id : ℕ
  pub name : String
  pub block_time : ℕ
  pub gas_price : ℤ
  pub is_testnet : Bool

-- The methods, without the arguments that none of the clients looks at. `new_block` is what a tick of
-- `SubscribeToNewBlocks` sends.
pub record Client : Type 0 where
  pub get_chain_id : ℕ
  pub get_latest_block_number : ℕ → ℕ
  pub get_pool_state : ℕ → ℕ → ℕ → Run PoolState
  pub get_token_balance : Run ℤ
  pub get_token_price : Run ℤ
  pub get_gas_price : Run ℤ
  pub estimate_gas : ℕ
  pub send_transaction : ℕ
  pub get_transaction_receipt : ℕ → ℕ → TransactionReceipt
  pub new_block : ℕ → ℕ → Block

-- The pool `id` at two readings of the clock.
unfoldable pub get_pool_state : ℕ → ℕ → ℕ → Run PoolState
unfolding must_set_string
get_pool_state id now₁ now₂ = do
  liquidity ← must_set_string (bytes "1000000000000000000000000")
  price ← must_set_string (bytes "2000000000000000000000")
  volume ← must_set_string (bytes "50000000000000000000000")
  fees ← must_set_string (bytes "1000000000000000000000")
  returns (record {
    pool_id = id;
    total_liquidity = liquidity;
    price = price;
    volume24h = volume;
    fees24h = fees;
    timestamp = now₁;
    block_number = now₂ / 12;
  })

unfoldable pub get_gas_price : ℕ → Run ℤ
unfolding must_set_string
get_gas_price chain_id =
    if nat_beq chain_id 1
    then must_set_string (bytes "20000000000")
    else if nat_beq chain_id 42_161
    then must_set_string (bytes "1000000000")
    else if nat_beq chain_id 137
    then must_set_string (bytes "30000000000")
    else must_set_string (bytes "10000000000")

abbrev pub get_transaction_receipt : ℕ → ℕ → TransactionReceipt
get_transaction_receipt hash now = record {
  tx_hash = hash;
  block_number = now / 12;
  status = 1;
  gas_used = 21_000;
}

abbrev pub new_block : (String → ℕ) → ℕ → ℕ → Block
new_block hash_of now₁ now₂ = record {
  number = now₁ / 12;
  hash = hash_of "0xabcdef1234567890";
  timestamp = now₂;
  parent_hash = hash_of "0x1234567890abcdef";
}

unfoldable pub get_token_balance : Run ℤ
unfolding must_set_string
get_token_balance = must_set_string (bytes "1000000000000000000000")

unfoldable pub get_token_price : Run ℤ
unfolding must_set_string
get_token_price = must_set_string (bytes "2000000000000000000000")

abbrev pub estimate_gas : ℕ
estimate_gas = 21_000

abbrev pub send_transaction : (String → ℕ) → ℕ
send_transaction hash_of = hash_of "0x1234567890abcdef"

-- `NewClient`
unfoldable pub new_client : (String → ℕ) → ℕ → Client
unfolding get_pool_state get_gas_price get_token_balance get_token_price
new_client hash_of chain_id = record {
  get_chain_id = chain_id;
  get_latest_block_number = λ now. now / 12;
  get_pool_state = get_pool_state;
  get_token_balance = get_token_balance;
  get_token_price = get_token_price;
  get_gas_price = get_gas_price chain_id;
  estimate_gas = estimate_gas;
  send_transaction = send_transaction hash_of;
  get_transaction_receipt = get_transaction_receipt;
  new_block = new_block hash_of;
}
