-- ===== src/Across.antt =====
-- `Client` of AVS/internal/across/client.go. A text that is parsed is the list of its bytes.
use sync_hook.Prelude.{
  ℕ, ◌%◌, String, List, [], ◌∷◌, Option, none, some, Bool, if◌then◌else◌, nat_beq, ◌==◌, string_eq,
  ℤ, pos, ◌*ℤ◌, quot_ℤ, ltb_ℤ, Result, ok, and_then, or_err,
}
use sync_hook.Decimal.{set_string}
use sync_hook.Chain.{Ethereum}

pub record Config : Type 0 where
  pub spoke_pool : String
  pub hub_pool : String
  pub relayer_fee_pct : List ℕ
  pub max_gas_price : List ℕ

pub data ClientError : Type 0 where
  invalid_relayer_fee invalid_max_gas_price no_gas_price : ClientError

abbrev pub one_ether : ℤ
one_ether = pos 1_000_000_000_000_000_000

module _ (eth : Ethereum) where
  pub record Client : Type 0 where
    pub config : Config
    pub client : eth.Connection
    pub spoke_pool : eth.Address
    pub hub_pool : eth.Address
    pub relayer_fee_pct : ℤ
    pub max_gas_price : ℤ

  pub record CrossChainTransfer : Type 0 where
    pub from_chain : ℕ
    pub to_chain : ℕ
    pub token : eth.Address
    pub amount : ℤ
    pub recipient : eth.Address
    pub relayer_fee : ℤ
    pub message : String
    pub max_gas_price : ℤ
    pub max_gas_limit : ℤ

  -- `none` is the zero hash.
  pub record TransferResult : Type 0 where
    pub transaction_hash : Option eth.Hash
    pub deposit_id : ℤ
    pub status : String
    pub gas_used : ℕ
    pub block_number : ℕ

  unfoldable pub new_client : Config → eth.Connection → Result ClientError Client
  unfolding set_string
  new_client cfg connection =
      and_then (or_err invalid_relayer_fee (set_string cfg.relayer_fee_pct)) λ pct.
        and_then (or_err invalid_max_gas_price (set_string cfg.max_gas_price)) λ price. ok (record {
          config = cfg;
          client = connection;
          spoke_pool = eth.hex_to_address cfg.spoke_pool;
          hub_pool = eth.hex_to_address cfg.hub_pool;
          relayer_fee_pct = pct;
          max_gas_price = price;
        })

  -- `InitiateTransfer`, with the clock in nanoseconds and then in seconds.
  unfoldable pub initiate_transfer : ℕ → ℕ → CrossChainTransfer → TransferResult
  initiate_transfer nanos now transfer = record {
    transaction_hash = some (eth.hash_of nanos);
    deposit_id = pos now;
    status = "pending";
    gas_used = 150_000;
    block_number = 0;
  }

  unfoldable pub get_transfer_status : ℕ → ℤ → TransferResult
  get_transfer_status now id = record {
    transaction_hash = none;
    deposit_id = id;
    status = if nat_beq (now % 2) 0 then "pending" else "completed";
    gas_used = 150_000;
    block_number = 18_000_000;
  }

  unfoldable pub calculate_relayer_fee : Client → ℤ → ℤ
  calculate_relayer_fee c amount = quot_ℤ (amount *ℤ c.relayer_fee_pct) one_ether

  -- `GetCurrentGasPrice`, with the price that the node suggests.
  unfoldable pub get_current_gas_price : Client → Option ℤ → Result ClientError ℤ
  get_current_gas_price c suggested =
      and_then (or_err no_gas_price suggested)
        λ price. ok (if ltb_ℤ c.max_gas_price price then c.max_gas_price else price)

  unfoldable pub is_transfer_complete : ℕ → ℤ → Bool
  unfolding get_transfer_status
  is_transfer_complete now id = (get_transfer_status now id).status == "completed"

  -- The estimate does not look at the transfer.
  unfoldable pub estimate_gas : CrossChainTransfer → ℕ
  estimate_gas transfer = 200_000

  -- Commented as ETH, USDC, USDT and DAI.
  unfoldable pub get_supported_tokens : List eth.Address
  get_supported_tokens =
      eth.hex_to_address "0x0000000000000000000000000000000000000000"
      ∷ eth.hex_to_address "0xA0b86a33E6441c8C06DdDde5A3a8c6b4b8f1"
      ∷ eth.hex_to_address "0xdAC17F958D2ee523a2206206994597C13D831ec7"
      ∷ eth.hex_to_address "0x6B175474E89094C44Da98b954EedeAC495271d0F"
      ∷ []

  -- Always empty.
  unfoldable pub get_transfer_history : eth.Address → ℕ → List TransferResult
  get_transfer_history address limit = []
