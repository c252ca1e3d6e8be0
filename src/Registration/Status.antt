-- ===== src/Registration/Status.antt =====
-- How the methods of `RegistrationManager` of AVS/pkg/eigenlayer/registration.go agree.
use sync_hook.Prelude.{
  String, ◌≡◌, refl, ap, Option, none, some, Bool, true, false, if◌then◌else◌, pos, eq_ℤ, Result,
  ok, err, arith, Option-cases, inl, inr,
}
use sync_hook.Registration.{
  Client, RegistrationError, no_stake, OperatorInfo, registered_now,
  register_operator_with_eigen_layer, validate_operator_registration, get_operator_info,
}

module _ (c : Client) where
  -- The check that `ValidateOperatorRegistration` makes, of what `GetOperatorInfo` returns.
  abbrev pub checked : Result RegistrationError (OperatorInfo c) → Option RegistrationError
  checked (err e) = some e
  checked (ok info) = if eq_ℤ info.stake_amount (pos 0) then some no_stake else none

  -- `ValidateOperatorRegistration` accepts an operator exactly when `GetOperatorInfo` returns an info of
  -- it whose stake is not zero; it fails with the same error where that fails, and for lack of stake where
  -- that returns a stake of zero.
  pub validate_operator_registration-checked :
      (address : c.Address) (s : c.State)
      → validate_operator_registration c address s ≡ checked (get_operator_info c address s)
  unfolding validate_operator_registration get_operator_info
  validate_operator_registration-checked address s = ground arith

  some-ne-none {ℓ} : {A : Type ℓ} {a : A} → some a ≡ none → ⊥
  some-ne-none e = cc

  -- A call of the contract that is reported as a success.
  registered_now-cases :
      (call : c.State × Bool)
      → (registered_now c call).1 ≡ none
      → (call.1 ≡ true) × (registered_now c call ≡ (call.0, none))
  registered_now-cases (s, true) e = (refl, refl)
  registered_now-cases (s, false) e = absurd (some-ne-none e)

  -- Registration calls the contract exactly when the operator is known not to be registered; after a
  -- success, or where the operator was registered before, registering once more changes nothing, if a
  -- successful call of the contract registers the operator.
  pub register_operator_with_eigen_layer-twice :
      (address : c.Address) (uri : String) (s : c.State)
      → ((t : c.State)
          → c.register_operator uri s ≡ (t, true)
          → c.is_operator_registered address t ≡ some true)
      → (register_operator_with_eigen_layer c address uri s).1 ≡ none
      → register_operator_with_eigen_layer c address uri
          (register_operator_with_eigen_layer c address uri s).0
        ≡ ((register_operator_with_eigen_layer c address uri s).0, none)
  unfolding register_operator_with_eigen_layer
  register_operator_with_eigen_layer-twice address uri s registers fine =
      elim (Option-cases (c.is_operator_registered address s)) [
        | inl unknown ↦
            absurd (some-ne-none (rw (register_operator_with_eigen_layer, unknown) at fine))
        | inr (true, known) ↦ rw (register_operator_with_eigen_layer, known) (rw known refl)
        | inr (false, known) ↦
            let call = c.register_operator uri s in
            let result =
              registered_now-cases call (rw (register_operator_with_eigen_layer, known) at fine) in
            let now_known = registers call.0 (ap (λ b. (call.0, b)) result.0) in
            rw (register_operator_with_eigen_layer, known) (rw result.1 (rw now_known refl))
      ]
