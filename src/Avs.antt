-- ===== src/Avs.antt =====
-- `AVS` of AVS/internal/eigenlayer/avs.go, which stands for contracts that it does not call yet. The
-- random bytes, with `none` for an error, and the clock are arguments; the data of an update is any type.
pub mod Client
use sync_hook.Prelude.{
  ℕ, ◌≤◌, ◌≡◌, refl, String, List, [], ◌∷◌, Option, none, some, Bool, true, ℤ, pos, ◌≤ℤ◌, Result,
  ok, err, and_then, or_err, length, arith, Option-cases, inl, inr,
}
use sync_hook.Decimal.{bytes, set_string}
use sync_hook.Chain.{Ethereum}
use sync_hook.Settings.{EigenLayerConfig}

pub data SubmitError : Type 0 where
  no_signature : SubmitError

pub record StateUpdate (D : Type 0) : Type 0 where
  pub chain_id : ℕ
  pub block_number : ℕ
  pub timestamp : ℕ
  pub payload : D
  pub signature : Option (List ℕ)

module _ (eth : Ethereum) where
  -- `Client` of client.go has the same fields.
  pub record Avs : Type 0 where
    pub client : Option eth.Connection
    pub registry_coordinator : eth.Address
    pub stake_registry : eth.Address
    pub bls_apk_registry : eth.Address
    pub index_registry : eth.Address
    pub operator_id : ℕ
    pub quorum_number : ℕ

  -- `NewAVS`
  unfoldable pub new_avs : Option eth.Connection → EigenLayerConfig → Avs
  new_avs client cfg = record {
    client = client;
    registry_coordinator = eth.hex_to_address cfg.registry_coordinator;
    stake_registry = eth.hex_to_address cfg.stake_registry;
    bls_apk_registry = eth.hex_to_address cfg.bls_apk_registry;
    index_registry = eth.hex_to_address cfg.index_registry;
    operator_id = cfg.operator_id;
    quorum_number = cfg.quorum_number;
  }

-- `generateSignature`, with what `rand.Read` puts into the 96 bytes.
unfoldable pub generate_signature : Option (List ℕ) → Result SubmitError (List ℕ)
generate_signature random = or_err no_signature random

module _ {D : Type 0} where
  -- `submitToAVS` only waits.
  abbrev pub submit_to_avs : StateUpdate D → Result SubmitError (StateUpdate D)
  submit_to_avs update = ok update

  -- `SubmitStateUpdate`, with the update that is submitted.
  unfoldable pub submit_state_update :
      Option (List ℕ) → ℕ → ℕ → D → Result SubmitError (StateUpdate D)
  unfolding generate_signature
  submit_state_update random now chain_id payload =
      let update : StateUpdate D = record {
        chain_id = chain_id;
        block_number = 0;
        timestamp = now;
        payload = payload;
        signature = none;
      } in
      and_then (generate_signature random)
        λ signature. submit_to_avs (record update { signature = some signature })

  -- Every update is valid.
  unfoldable pub validate_state_update : StateUpdate D → Bool
  validate_state_update update = true

  unfoldable pub get_state_update_history : ℕ → ℤ → List (StateUpdate D)
  get_state_update_history chain_id limit = []

unfoldable pub get_operator_stake : ℤ
get_operator_stake = pos 1_000_000_000_000_000_000_000

unfoldable pub is_operator_registered : Bool
is_operator_registered = true

unfoldable pub get_quorum_stake : ℕ → ℤ
get_quorum_stake quorum_number = pos 10_000_000_000_000_000_000_000

unfoldable pub get_operator_list : ℕ → List ℕ
get_operator_list quorum_number = 1 ∷ 2 ∷ 3 ∷ 4 ∷ 5 ∷ []

-- An update is submitted exactly if random bytes are read: signed with these, whatever they are, and
-- without the number of a block. And it is taken for valid.
pub submit_state_update-validate_state_update :
    {D : Type 0} (signature : List ℕ) (now chain_id : ℕ) (payload : D)
    → (update : StateUpdate D) × (submit_state_update (some signature) now chain_id payload
        ≡ ok update)
      × (submit_state_update none now chain_id payload ≡ err no_signature)
      × (update.signature ≡ some signature)
      × (update.block_number ≡ 0)
      × (validate_state_update update ≡ true)
unfolding submit_state_update validate_state_update
submit_state_update-validate_state_update signature now chain_id payload = (
  record {
    chain_id = chain_id;
    block_number = 0;
    timestamp = now;
    payload = payload;
    signature = some signature;
  },
  refl,
  refl,
  refl,
  refl,
  refl,
)
