-- ===== src/Validator.antt =====
-- `Validator` of AVS/pkg/state/validator.go. `float64` and the functions of go-ethereum's `crypto` and of
-- `crypto/sha256` are parameters; the readings of `time.Now()` are arguments, in seconds.
pub mod Signing
pub mod Checks
pub mod Signatures
use sync_hook.Prelude.{
  ℕ, zero, suc, ◌+◌, ◌-◌, ◌*◌, ◌/◌, ◌%◌, ◌^◌, ◌≤◌, ◌≡◌, List, [], ◌∷◌, ◌++◌, Option, none, some,
  Bool, true, false, not, if◌then◌else◌, ltb, nat_beq, length, take, ℤ, pos, ◌+ℤ◌, ◌-ℤ◌, ◌*ℤ◌, abs,
  quot_ℤ, ltb_ℤ, eq_ℤ, Run, returns, panics, deref, ◌>>=◌, ◌>>◌, Map, lookup, nat_eq,
}
use sync_hook.Words.{sub64, big_bytes}
use sync_hook.Floats.{Float64}
use sync_hook.Pool.{PoolState, GlobalPoolState}
use Signing.{Crypto}

-- The texts of `Reason`, with the numbers that they print.
pub data Reason : Type 0 where
  no_reason : Reason
  price_deviation_too_high : ℤ → ℤ → Reason
  liquidity_change_too_high : ℤ → ℤ → Reason
  timestamp_too_old : ℕ → ℕ → Reason
  recovery_failed address_mismatch verification_failed signature_valid : Reason
  invalid_task_signature invalid_response_format task_response_valid : Reason

pub record ValidationResult (F : Type 0) : Type 0 where
  pub is_valid : Bool
  pub confidence : F
  pub reason : Reason
  pub timestamp : ℕ

pub record ValidationCriteria : Type 0 where
  pub max_price_deviation : ℤ
  pub max_liquidity_change : ℤ
  pub max_time_gap : ℕ
  pub minimum_confirmations : ℕ

pub data CheckError : Type 0 where
  price_check_failed liquidity_check_failed timestamp_check_failed : CheckError

-- `GetDefaultValidationCriteria`
unfoldable pub default_criteria : ValidationCriteria
default_criteria = record {
  max_price_deviation = pos (10 ^ 18);
  max_liquidity_change = pos (10 ^ 21);
  max_time_gap = 300;
  minimum_confirmations = 1;
}

-- A check marks the result in place and returns its error.
abbrev pub Checked : Type 0 → Type 0
Checked F = ValidationResult F × Option CheckError

module _ {F : Type 0} where
  unfoldable pub validate_price_deviation :
      PoolState → GlobalPoolState → ValidationCriteria → ValidationResult F → Run (Checked F)
  validate_price_deviation s gs c r = do
    mean ← deref gs.average_price
    let diff = abs (s.price -ℤ mean)
    if eq_ℤ mean (pos 0)
        then returns (r, none)
        else if ltb_ℤ c.max_price_deviation diff
        then returns (
          record r {
            is_valid = false;
            reason = price_deviation_too_high diff c.max_price_deviation;
          },
          some price_check_failed,
        )
        else returns (r, none)

  abbrev pub change_check : ℤ → ValidationCriteria → ValidationResult F → Checked F
  change_check change c r =
      if ltb_ℤ c.max_liquidity_change change
      then (
        record r {
          is_valid = false;
          reason = liquidity_change_too_high change c.max_liquidity_change;
        },
        some liquidity_check_failed,
      )
      else (r, none)

  unfoldable pub validate_liquidity_change :
      PoolState → GlobalPoolState → ValidationCriteria → ValidationResult F → Checked F
  validate_liquidity_change s gs c r = elim (lookup s.chain_id gs.chain_states) [
    | none ↦ (r, none)
    | some prev ↦ change_check (abs (s.total_liquidity -ℤ prev.total_liquidity)) c r
  ]

  unfoldable pub validate_timestamp :
      ℕ → PoolState → ValidationCriteria → ValidationResult F → Checked F
  validate_timestamp now s c r =
      let time_diff = sub64 now s.timestamp in
      if ltb c.max_time_gap time_diff
      then (
        record r { is_valid = false; reason = timestamp_too_old time_diff c.max_time_gap },
        some timestamp_check_failed,
      )
      else (r, none)

module _ (fl : Float64) where
  open fl use {Float, literal, mul}

  -- `if test { confidence *= factor }`
  abbrev pub reduce_if : Bool → Float → Float → Float
  reduce_if test factor x = if test then mul x factor else x

  -- The reductions for a price that is far from the average.
  unfoldable pub price_confidence : ℤ → PoolState → Float → Float
  price_confidence mean s x =
      let percent = quot_ℤ (abs (s.price -ℤ mean) *ℤ pos 100) mean in
      if eq_ℤ mean (pos 0)
      then x
      else reduce_if (ltb_ℤ (pos 10) percent) (literal 6 1) (
          reduce_if (ltb_ℤ (pos 5) percent) (literal 8 1)
            (reduce_if (ltb_ℤ (pos 1) percent) (literal 9 1) x))

  -- The reductions for a state that is old.
  unfoldable pub age_confidence : ℕ → Float → Float
  age_confidence age x =
      reduce_if (ltb 1800 age) (literal 6 1)
        (reduce_if (ltb 600 age) (literal 8 1) (reduce_if (ltb 300 age) (literal 9 1) x))

  unfoldable pub calculate_confidence :
      ℕ → PoolState → GlobalPoolState → ValidationResult Float → Run (ValidationResult Float)
  unfolding price_confidence age_confidence
  calculate_confidence now s gs r = do
    mean ← deref gs.average_price
    returns (record r {
      confidence = age_confidence (sub64 now s.timestamp) (price_confidence mean s (literal 1 0));
    })

  abbrev new_result : Bool → ℕ → ValidationResult Float
  new_result ok now = record {
    is_valid = ok;
    confidence = literal 0 0;
    reason = no_reason;
    timestamp = now;
  }

  abbrev then_confidence : ℕ → PoolState → GlobalPoolState → Checked Float → Run (Checked Float)
  then_confidence now s gs (r, some e) = returns (r, some e)
  then_confidence now s gs (r, none) = do r' ← calculate_confidence now s gs r; returns (r', none)

  abbrev then_timestamp :
      ℕ → ℕ → PoolState → GlobalPoolState → ValidationCriteria → Checked Float → Run (Checked Float)
  then_timestamp now₁ now₂ s gs c (r, some e) = returns (r, some e)
  then_timestamp now₁ now₂ s gs c (r, none) =
      then_confidence now₂ s gs (validate_timestamp now₁ s c r)

  abbrev then_liquidity :
      ℕ → ℕ → PoolState → GlobalPoolState → ValidationCriteria → Checked Float → Run (Checked Float)
  then_liquidity now₁ now₂ s gs c (r, some e) = returns (r, some e)
  then_liquidity now₁ now₂ s gs c (r, none) =
      then_timestamp now₁ now₂ s gs c (validate_liquidity_change s gs c r)

  -- The checks in turn; the first that fails ends the call.
  unfoldable pub validate_pool_state :
      ℕ → ℕ → ℕ → PoolState → GlobalPoolState → ValidationCriteria → Run (Checked Float)
  unfolding validate_price_deviation validate_liquidity_change validate_timestamp
      calculate_confidence
  validate_pool_state now₀ now₁ now₂ s gs c = do
    r ← validate_price_deviation s gs c (new_result true now₀)
    then_liquidity now₁ now₂ s gs c r

  module _ (cr : Crypto) where
    open cr use {
      PrivateKey, PublicKey, Address, address_eq, Hash, hash_bytes, sig_to_pub, pubkey_to_address,
      compress_pubkey, verify_signature, sign, sha256,
    }

    -- `signature[:64]`, which panics on a shorter slice.
    abbrev first64 : List ℕ → Run (List ℕ)
    first64 sig = if ltb (length sig) 64 then panics else returns (take 64 sig)

    abbrev verify_recovered : ℕ → Address → Hash → List ℕ → PublicKey → Run (ValidationResult Float)
    verify_recovered now operator h sig key =
        let r = new_result false now in
        if not (address_eq.beq (pubkey_to_address key) operator)
        then returns (record r { reason = address_mismatch })
        else first64 sig >>= λ compact.
            if not (verify_signature (compress_pubkey key) (hash_bytes h) compact)
            then returns (record r { reason = verification_failed })
            else returns
                (record r { is_valid = true; confidence = literal 1 0; reason = signature_valid })

    unfoldable pub validate_operator_signature :
        ℕ → Address → Hash → List ℕ → Run (ValidationResult Float)
    validate_operator_signature now operator h sig = elim (sig_to_pub (hash_bytes h) sig) [
      | none ↦ returns (record (new_result false now) { reason = recovery_failed })
      | some key ↦ verify_recovered now operator h sig key
    ]

    -- `validateResponseFormat`: only an empty response is refused.
    abbrev pub validate_response_format : List ℕ → Bool
    validate_response_format response = not (nat_beq (length response) 0)

    unfoldable pub create_task_response_hash : ℕ → List ℕ → Hash
    unfolding big_bytes
    create_task_response_hash index response = sha256 (big_bytes index ++ response)

    unfoldable pub validate_task_response :
        ℕ → ℕ → ℕ → List ℕ → List ℕ → Address → Run (ValidationResult Float)
    unfolding validate_operator_signature
    validate_task_response now₀ now₁ index response sig operator = do
      let r = new_result false now₀
      signed ←
          validate_operator_signature now₁ operator (create_task_response_hash index response) sig
      if not signed.is_valid
          then returns (record r { reason = invalid_task_signature })
          else if not (validate_response_format response)
          then returns (record r { reason = invalid_response_format })
          else returns (record r {
            is_valid = true;
            confidence = signed.confidence;
            reason = task_response_valid;
          })

    -- `SignMessage`; `none` is the error of `crypto.Sign`.
    unfoldable pub sign_message : PrivateKey → Hash → Run (Option (List ℕ))
    sign_message key h = elim (sign (hash_bytes h) key) [
      | none ↦ returns none
      | some sig ↦ first64 sig >>= λ compact. returns (some compact)
    ]
