-- ===== src/Bridge/Service.antt =====
-- The client of AVS/pkg/across/client.go. A hash is a number; `HexToHash` and `HexToAddress` of
-- go-ethereum are arguments.
use sync_hook.Prelude.{
  ℕ, zero, suc, ◌+◌, ◌-◌, ◌≤◌, ◌<◌, String, List, [], ◌∷◌, ◌++◌, Bool, true, if◌then◌else◌, ◌&&◌,
  ltb, length, take, ℤ, pos, Run, returns, ◌>>=◌, Returns, arith,
}
use sync_hook.Decimal.{bytes, must_set_string, print_number}
use sync_hook.Bridge.{RebalancingRequest}

pub record RebalancingResponse : Type 0 where
  pub request_id : String
  pub transaction_hash : ℕ
  pub estimated_time : ℕ
  pub total_cost : ℤ
  pub success : Bool
  pub message : String

pub record RebalancingStatus : Type 0 where
  pub request_id : String
  pub status : String
  pub transaction_hash : ℕ
  pub amount : ℤ
  pub actual_cost : ℤ
  pub completed_at : ℕ
  pub error_message : String

pub record RebalancingRecord : Type 0 where
  pub request_id : String
  pub source_chain_id : ℕ
  pub target_chain_id : ℕ
  pub token : ℕ
  pub amount : ℤ
  pub cost : ℤ
  pub status : String
  pub created_at : ℕ
  pub completed_at : ℕ
  pub transaction_hash : ℕ

unfoldable pub get_supported_chains : List ℕ
get_supported_chains = 1 ∷ 42_161 ∷ 137 ∷ 10 ∷ 8453 ∷ []

-- `GenerateRequestID`, with the clock in nanoseconds, as the bytes of the text.
unfoldable pub generate_request_id : ℕ → List ℕ
unfolding print_number
generate_request_id nanos = bytes "req_" ++ print_number nanos

-- The first `limit` records, if the limit is above 0 and there are more.
abbrev pub limited : ℕ → List RebalancingRecord → List RebalancingRecord
limited limit records =
    if ltb 0 limit && ltb limit (length records) then take limit records else records

length-take-le {ℓ} : {A : Type ℓ} (n : ℕ) (xs : List A) → length (take n xs) ≤ n
length-take-le zero xs = omega arith
length-take-le (suc n) [] = omega arith
length-take-le (suc n) (x ∷ xs) = omega (arith, length-take-le n xs)

limited-le :
    (limit : ℕ) (records : List RebalancingRecord)
    → 0 < limit
    → length (limited limit records) ≤ limit
limited-le limit records h = ground (arith, length-take-le limit records)

module _ (hash_of address_of : String → ℕ) where
  -- The request is not checked.
  unfoldable pub initiate_rebalancing : ℕ → RebalancingRequest → RebalancingResponse
  initiate_rebalancing now r = record {
    request_id = r.request_id;
    transaction_hash = hash_of "0x1234567890abcdef";
    estimated_time = now + 300;
    total_cost = pos 1_000_000_000_000_000_000;
    success = true;
    message = "Rebalancing request submitted successfully";
  }

  unfoldable pub get_rebalancing_status : ℕ → String → Run RebalancingStatus
  unfolding must_set_string
  get_rebalancing_status now id = do
    amount ← must_set_string (bytes "1000000000000000000000")
    cost ← must_set_string (bytes "1000000000000000000")
    returns (record {
      request_id = id;
      status = "completed";
      transaction_hash = hash_of "0x1234567890abcdef";
      amount = amount;
      actual_cost = cost;
      completed_at = now;
      error_message = "";
    })

  -- The two records, with the amounts of both and the cost of the second.
  abbrev mock_history : ℕ → ℕ → ℕ → ℕ → ℤ → ℤ → ℤ → List RebalancingRecord
  mock_history now₁ now₂ now₃ now₄ first second cost =
      record {
        request_id = "req_001";
        source_chain_id = 1;
        target_chain_id = 42_161;
        token = address_of "0xA0b86a33E6441c8C06Cdd0C2A4C7C4C8C8C8C8C8";
        amount = first;
        cost = pos 1_000_000_000_000_000_000;
        status = "completed";
        created_at = now₁ - 3600;
        completed_at = now₂ - 1800;
        transaction_hash = hash_of "0x1234567890abcdef";
      }
      ∷ record {
        request_id = "req_002";
        source_chain_id = 42_161;
        target_chain_id = 137;
        token = address_of "0xA0b86a33E6441c8C06Cdd0C2A4C7C4C8C8C8C8C8";
        amount = second;
        cost = cost;
        status = "completed";
        created_at = now₃ - 7200;
        completed_at = now₄ - 3600;
        transaction_hash = hash_of "0xabcdef1234567890";
      }
      ∷ []

  -- The four readings of the clock, in seconds, are in the order in which they are made; the limit is not
  -- negative.
  unfoldable pub get_rebalancing_history : ℕ → ℕ → ℕ → ℕ → ℕ → Run (List RebalancingRecord)
  unfolding must_set_string
  get_rebalancing_history now₁ now₂ now₃ now₄ limit = do
    first ← must_set_string (bytes "1000000000000000000000")
    second ← must_set_string (bytes "500000000000000000000")
    cost ← must_set_string (bytes "500000000000000000")
    returns (limited limit (mock_history now₁ now₂ now₃ now₄ first second cost))

  -- With a limit above 0 the history has no more records than that.
  pub get_rebalancing_history-le :
      (now₁ now₂ now₃ now₄ limit : ℕ)
      → 0 < limit
      → Returns
          (get_rebalancing_history now₁ now₂ now₃ now₄ limit)
          (λ records. length records ≤ limit)
  unfolding get_rebalancing_history
  get_rebalancing_history-le now₁ now₂ now₃ now₄ limit h =
      limited-le limit
        (mock_history now₁ now₂ now₃ now₄ (pos 1_000_000_000_000_000_000_000)
          (pos 500_000_000_000_000_000_000) (pos 500_000_000_000_000_000))
        h
