-- ===== src/Registration/Unimplemented.antt =====
-- The client of AVS/pkg/eigenlayer/client.go, none of whose methods is implemented, and what the
-- `RegistrationManager` of registration.go makes of it.
use sync_hook.Prelude.{ℕ, ◌≡◌, refl, String, List, Option, none, some, Bool, false, err}
use sync_hook.Registration.{
  Client, check_failed, register_operator_with_eigen_layer, validate_operator_registration,
  get_operator_info,
}

pub record Task : Type 0 where
  pub task_id : ℕ
  pub task_type : ℕ
  pub chain_id : ℕ
  pub pool_id : ℕ
  pub payload : List ℕ
  pub deadline : ℕ
  pub status : ℕ
  pub created_at : ℕ
  pub quorum_numbers : List ℕ
  pub quorum_threshold_percentage : ℕ

module _ (State Address : Type 0) where
  -- `NewClient`: every method returns the error `not implemented`, and changes nothing.
  abbrev pub new_client : Client
  new_client = record {
    State = State;
    Address = Address;
    register_operator = λ uri s. (s, false);
    is_operator_registered = λ address s. none;
    get_operator_stake = λ address s. none;
  }

  -- The methods that the manager does not use; `false` and `none` are the error.
  unfoldable pub submit_task_response : ℕ → List ℕ → List ℕ → State → State × Bool
  submit_task_response task_index response signature s = (s, false)

  unfoldable pub get_task : ℕ → State → Option Task
  get_task task_index s = none

-- Over this client no operator is ever registered, validated or described: each method of the manager
-- fails at its first question, whether the operator is registered.
pub new_client-fails :
    (State Address : Type 0) (address : Address) (uri : String) (s : State)
    → (register_operator_with_eigen_layer (new_client State Address) address uri s
        ≡ (s, some check_failed))
      × (validate_operator_registration (new_client State Address) address s ≡ some check_failed)
      × (get_operator_info (new_client State Address) address s ≡ err check_failed)
unfolding register_operator_with_eigen_layer validate_operator_registration get_operator_info
new_client-fails State Address address uri s = (refl, refl, refl)
