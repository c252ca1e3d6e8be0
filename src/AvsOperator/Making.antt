-- ===== src/AvsOperator/Making.antt =====
-- What `NewOperator` of AVS/operator/operator.go makes: nothing, since it has no key.
use sync_hook.Prelude.{
  ◌≡◌, Option, none, some, Bool, true, false, if◌then◌else◌, nat_eq, returns, err, arith,
}
use sync_hook.Floats.{Float64}
use sync_hook.Defaults.{Config}
use sync_hook.Monitoring.Registration.{Registry}
use sync_hook.AvsOperator.{Sdk, no_eth_client, no_ecdsa_key, load_ecdsa_private_key, new_operator}

module _ (sdk : Sdk) where
  abbrev given {ℓ} : {A : Type ℓ} → Option A → Bool
  given none = false
  given (some a) = true

  module _ (fl : Float64) (reg : Registry) where
    -- Whatever it is given, `NewOperator` makes no operator and registers nothing: it fails for lack of the
    -- ECDSA key, or before that for lack of a connection.
    pub new_operator-fails :
        (cfg : Config fl.Float) (r : reg.State)
        → new_operator sdk fl reg cfg r
          ≡ returns (
            err (
                if given (sdk.new_eth_client cfg.eth_rpc_url) then no_ecdsa_key else no_eth_client),
            r,
          )
    unfolding new_operator load_ecdsa_private_key
    new_operator-fails cfg r = ground arith
