-- ===== src/Tests/Checking.antt =====
-- AVS/pkg/state/validator.go, run on one state and with keys 7 and 8.
use sync_hook.Prelude.{
  ℕ, ◌≡◌, ◌≢◌, refl, List, [], ◌∷◌, ◌++◌, some, none, true, false, ℤ, pos, returns, Returns, ◌-ℤ◌,
  abs, nat_eq,
}
use sync_hook.Words.{big_bytes, sub64}
use sync_hook.Pool.{GlobalPoolState}
use sync_hook.Validator.{
  ValidationResult, default_criteria, validate_pool_state, recovery_failed, no_reason,
  task_response_valid, sign_message, validate_operator_signature, validate_task_response,
  create_task_response_hash,
}
use sync_hook.Validator.Checks.{no_error, validate_pool_state_lem}
use sync_hook.Validator.Signatures.{
  sign_message-validate_operator_signature, validate_task_response_sound,
  validate_task_response-replay,
}
use sync_hook.Commands.Performing.{
  TaskRequest, validate_task, handle_task, handle_task-validate_task_response,
}
use sync_hook.Tests.Samples.{
  decimals, signatures, documented, full_signature, short_signature, report,
}

abbrev one_byte : List ℕ
one_byte = 1 ∷ []

abbrev known_pool : GlobalPoolState
known_pool = record {
  pool_id = "pool";
  total_liquidity = some (pos 100);
  average_price = some (pos 10);
  imbalance_score = some (pos 0);
  last_update_block = 7;
  chain_states = (1, report 1 100 10 7) ∷ [];
  last_updated = 0;
}

-- A state 200 seconds old passes, with each check at work.
validate_pool_state_lem_example :
    Returns
      (validate_pool_state decimals 1200 1200 1200 (report 1 120 11 8) known_pool default_criteria)
      (λ (r, e). (r.is_valid ≡ true) × (no_error e ≡ true))
unfolding default_criteria ◌-ℤ◌ abs sub64
validate_pool_state_lem_example =
    validate_pool_state_lem decimals 1200 1200 1200 (report 1 120 11 8) known_pool default_criteria
      (pos 10) refl

abbrev open_result : ValidationResult ℤ
open_result = record { is_valid = true; confidence = pos 0; reason = no_reason; timestamp = 0 }

signed : sign_message decimals signatures 7 one_byte ≡ returns (some short_signature)
unfolding sign_message
signed = refl

sign_message-validate_operator_signature_example :
    Returns
      (validate_operator_signature decimals signatures 0 7 one_byte short_signature)
      (λ r. (r.is_valid ≡ false) × (r.reason ≡ recovery_failed))
sign_message-validate_operator_signature_example =
    sign_message-validate_operator_signature decimals signatures documented 0 7 7 one_byte
      short_signature signed

abbrev accepted_result : ValidationResult ℤ
accepted_result = record {
  is_valid = true;
  confidence = pos 1_000_000;
  reason = task_response_valid;
  timestamp = 0;
}

accepted :
    validate_task_response decimals signatures 0 0 3 one_byte (full_signature 7) 7
    ≡ returns accepted_result
unfolding validate_task_response
accepted = refl

validate_task_response_sound_example :
    (key : ℕ) × (signatures.sig_to_pub
        (create_task_response_hash decimals signatures 3 one_byte)
        (full_signature 7)
      ≡ some key)
    × (nat_eq.beq key 7 ≡ true)
    × (true ≡ true)
    × (one_byte ≢ [])
validate_task_response_sound_example =
    validate_task_response_sound decimals signatures 0 0 3 one_byte (full_signature 7) 7
      accepted_result accepted refl

some_bytes : one_byte ≢ []
some_bytes e = cc

-- What is accepted for task 3 is accepted for task 0.
validate_task_response-replay_example :
    validate_task_response decimals signatures 0 0 0 (big_bytes 3 ++ one_byte) (full_signature 7) 7
    ≡ validate_task_response decimals signatures 0 0 3 one_byte (full_signature 7) 7
validate_task_response-replay_example =
    validate_task_response-replay decimals signatures 0 0 3 one_byte (full_signature 7) 7 some_bytes

handle_task-validate_task_response_example :
    let t : TaskRequest = record { task_id = 4 ∷ []; payload = one_byte } in
    (validate_task t ≡ none)
    × Returns
        (validate_task_response decimals signatures 0 0 3
          (handle_task t).result
          (full_signature 7)
          7)
        (λ r. r.is_valid ≡ false)
handle_task-validate_task_response_example =
    handle_task-validate_task_response decimals signatures documented
      (record { task_id = 4 ∷ []; payload = one_byte }) 0 0 3 (full_signature 7) 7
