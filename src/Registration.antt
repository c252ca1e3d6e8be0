-- ===== src/Registration.antt =====
-- `RegistrationManager` of AVS/pkg/eigenlayer/registration.go, over the interface `Client` of
-- AVS/pkg/eigenlayer/client.go. The state is what the contracts behind the client hold.
pub mod Status
pub mod Unimplemented
use sync_hook.Prelude.{
  ℕ, String, Option, none, some, Bool, true, false, if◌then◌else◌, ℤ, pos, eq_ℤ, Result, ok, err,
  and_then, or_err,
}

-- The methods that are used; `none` and `false` are an error.
pub record Client : Type 1 where
  pub State : Type 0
  pub Address : Type 0
  pub register_operator : String → State → State × Bool
  pub is_operator_registered : Address → State → Option Bool
  pub get_operator_stake : Address → State → Option ℤ

pub data RegistrationError : Type 0 where
  check_failed not_registered stake_failed no_stake registration_failed : RegistrationError

module _ (c : Client) where
  pub record OperatorInfo : Type 0 where
    pub address : c.Address
    pub is_registered : Bool
    pub stake_amount : ℤ
    pub metadata_uri : String
    pub registration_time : ℕ

  abbrev pub registered_now : c.State × Bool → c.State × Option RegistrationError
  registered_now (s, true) = (s, none)
  registered_now (s, false) = (s, some registration_failed)

  abbrev pub register_unless : String → c.State → Option Bool → c.State × Option RegistrationError
  register_unless uri s none = (s, some check_failed)
  register_unless uri s (some true) = (s, none)
  register_unless uri s (some false) = registered_now (c.register_operator uri s)

  unfoldable pub register_operator_with_eigen_layer :
      c.Address → String → c.State → c.State × Option RegistrationError
  register_operator_with_eigen_layer address uri s =
      register_unless uri s (c.is_operator_registered address s)

  -- `ValidateOperatorRegistration`; `none` is no error.
  unfoldable pub validate_operator_registration : c.Address → c.State → Option RegistrationError
  validate_operator_registration address s = elim (c.is_operator_registered address s) [
    | none ↦ some check_failed
    | some registered ↦
        if registered
        then elim (c.get_operator_stake address s) [
          | none ↦ some stake_failed
          | some stake ↦ if eq_ℤ stake (pos 0) then some no_stake else none
        ]
        else some not_registered
  ]

  unfoldable pub get_operator_info : c.Address → c.State → Result RegistrationError OperatorInfo
  get_operator_info address s =
      and_then (or_err check_failed (c.is_operator_registered address s)) λ registered.
        if registered
        then and_then (or_err stake_failed (c.get_operator_stake address s)) (λ stake. ok (record {
          address = address;
          is_registered = registered;
          stake_amount = stake;
          metadata_uri = "";
          registration_time = 0;
        }))
        else err not_registered
