-- ===== src/Commands/Performing.antt =====
-- `SyncHookTaskWorker` of AVS/cmd/main.go, which an executor gives its tasks, and how
-- AVS/pkg/state/validator.go judges what it makes.
use sync_hook.Prelude.{
  ℕ, ◌≡◌, refl, List, [], Option, none, false, Run, Returns, inl, inr, Bool-cases,
}
use sync_hook.Floats.{Float64}
use sync_hook.Validator.{ValidationResult, validate_task_response}
use sync_hook.Validator.Signing.{Crypto, Signatures65}
use sync_hook.Validator.Signatures.{validate_task_response_sound, validate_task_response-total}

pub record TaskRequest : Type 0 where
  pub task_id : List ℕ
  pub payload : List ℕ

pub record TaskResponse : Type 0 where
  pub task_id : List ℕ
  pub result : List ℕ

pub data TaskError : Type 0 where

-- `ValidateTask` accepts every task.
unfoldable pub validate_task : TaskRequest → Option TaskError
validate_task t = none

unfoldable pub handle_task : TaskRequest → TaskResponse
handle_task t = record { task_id = t.task_id; result = [] }

module _ (fl : Float64) (cr : Crypto) where
  open cr use {Address}

  -- The worker accepts every task, and the validator no result that the worker makes, whoever signs it:
  -- on signatures as documented the call returns, with a result that is not valid.
  pub handle_task-validate_task_response :
      (laws : Signatures65 cr) (t : TaskRequest) (now₀ now₁ index : ℕ) (sig : List ℕ)
      (operator : Address)
      → (validate_task t ≡ none)
        × Returns
            (validate_task_response fl cr now₀ now₁ index (handle_task t).result sig operator)
            (λ r. r.is_valid ≡ false)
  unfolding validate_task handle_task
  handle_task-validate_task_response laws t now₀ now₁ index sig operator =
      (refl, judged (validate_task_response fl cr now₀ now₁ index [] sig operator) refl)
    where
      judged :
          (m : Run (ValidationResult fl.Float))
          → validate_task_response fl cr now₀ now₁ index [] sig operator ≡ m
          → Returns m (λ r. r.is_valid ≡ false)
      judged (Run.returns r) e = elim (Bool-cases r.is_valid) [
        | inl valid ↦
            let (key, found, same, verified, given) =
              validate_task_response_sound fl cr now₀ now₁ index [] sig operator r e valid in
            absurd (given refl)
        | inr refused ↦ refused
      ]
      judged Run.panics e =
          validate_task_response-total fl cr laws now₀ now₁ index [] sig operator e
