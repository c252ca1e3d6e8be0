-- ===== src/Chain.antt =====
-- `Chain` of AVS/internal/blockchain/chain.go. What go-ethereum computes of keys and addresses and its
-- connections are the record `Ethereum`; what a node answers to a call is an argument, with `none` for an
-- error.
use sync_hook.Prelude.{
  ℕ, ◌+◌, ◌%◌, String, List, [], ◌∷◌, Option, none, some, if◌then◌else◌, nat_beq, ◌==◌, string_eq,
  ℤ, pos, pos_part, neg_part, Result, ok, and_then, or_err,
}
use sync_hook.Words.{u64_mod}

pub record Ethereum : Type 1 where
  pub Address : Type 0
  pub Key : Type 0
  pub Connection : Type 0
  pub Hash : Type 0
  pub hex_to_address : String → Address
  pub hex_to_ecdsa : String → Option Key
  pub pubkey_to_address : Key → Address
  -- `HexToHash` of the 64 hexadecimal digits of a number
  pub hash_of : ℕ → Hash

pub record ChainConfig : Type 0 where
  pub id : ℕ
  pub name : String
  pub rpc_url : String
  pub ws_url : String
  pub private_key : String
  pub sync_avs : String
  pub pool_manager : String
  pub sync_hook : String
  pub confirmations : ℕ

pub data ChainError : Type 0 where
  invalid_private_key no_rpc no_block_number no_chain_id : ChainError

-- The entries of `states` and of the one pool in it.
pub record SamplePool : Type 0 where
  pub pool_id : String
  pub liquidity : String
  pub price : String
  pub volume_24h : String
  pub fees_24h : String

pub record ChainStates : Type 0 where
  pub block_number : ℕ
  pub chain_id : ℕ
  pub timestamp : ℕ
  pub pools : List SamplePool

abbrev pub sample_pool : SamplePool
sample_pool = record {
  pool_id = "0x1234567890abcdef";
  liquidity = "1000000000000000000000";
  price = "2000000000000000000000";
  volume_24h = "500000000000000000000";
  fees_24h = "1000000000000000000";
}

pub data Confirmation : Type 0 where
  confirmed transaction_failed timeout : Confirmation

-- `Uint64` of math/big: the low 64 bits of the magnitude.
abbrev pub uint64 : ℤ → ℕ
uint64 z = (pos_part z + neg_part z) % u64_mod

-- `GetPoolStates`, with the node's two answers and the clock.
unfoldable pub get_pool_states : Option ℕ → Option ℤ → ℕ → Result ChainError ChainStates
get_pool_states block chain now = and_then (or_err no_block_number block) λ b.
    and_then (or_err no_chain_id chain) λ c.
      ok (record {
        block_number = b;
        chain_id = uint64 c;
        timestamp = now;
        pools = sample_pool ∷ [];
      })

-- `WaitForConfirmation`, with the status of each receipt that the node answers, one a second, until the
-- five minutes are over; `none` is an error.
unfoldable pub wait_for_confirmation : List (Option ℕ) → Confirmation
wait_for_confirmation [] = timeout
wait_for_confirmation (none ∷ answers) = wait_for_confirmation answers
wait_for_confirmation (some status ∷ answers) =
    if nat_beq status 1 then confirmed else transaction_failed

module _ (eth : Ethereum) where
  pub record Chain : Type 0 where
    pub id : ℕ
    pub name : String
    pub client : eth.Connection
    pub ws_client : Option eth.Connection
    pub private_key : eth.Key
    pub address : eth.Address
    pub sync_avs : eth.Address
    pub pool_manager : eth.Address
    pub sync_hook : eth.Address
    pub confirmations : ℕ

  -- `TransactOpts`, with the number of the chain that it signs for, which is `none` if the node does not
  -- answer.
  pub record Transactor : Type 0 where
    pub from_address : eth.Address
    pub chain_id : Option ℤ
    pub key : eth.Key
    pub gas_limit : ℕ
    pub gas_price : ℤ

  -- `NewChain`, with the connections that are made to the two URLs. The type of the public key of an ECDSA
  -- key is always as expected.
  unfoldable pub new_chain :
      ChainConfig → Option eth.Connection → Option eth.Connection → Result ChainError Chain
  new_chain cfg rpc ws =
      and_then (or_err invalid_private_key (eth.hex_to_ecdsa cfg.private_key)) λ key.
        and_then (or_err no_rpc rpc) λ client. ok (record {
          id = cfg.id;
          name = cfg.name;
          client = client;
          ws_client = if cfg.ws_url == "" then none else ws;
          private_key = key;
          address = eth.pubkey_to_address key;
          sync_avs = eth.hex_to_address cfg.sync_avs;
          pool_manager = eth.hex_to_address cfg.pool_manager;
          sync_hook = eth.hex_to_address cfg.sync_hook;
          confirmations = cfg.confirmations;
        })

  unfoldable pub get_transactor : Option ℤ → Chain → Transactor
  get_transactor chain_id c = record {
    from_address = c.address;
    chain_id = chain_id;
    key = c.private_key;
    gas_limit = 300_000;
    gas_price = pos 20_000_000_000;
  }
