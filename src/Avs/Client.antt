-- ===== src/Avs/Client.antt =====
-- `Client` of AVS/internal/eigenlayer/client.go, which the operator uses, beside `AVS`.
use sync_hook.Prelude.{ℕ, ◌≡◌, refl, List, some, Bool, true, ◌≤ℤ◌, arith}
use sync_hook.Decimal.{bytes, set_string}
use sync_hook.Avs

-- The methods of `Client` that answer.
unfoldable pub get_operator_stake : List ℕ
get_operator_stake = bytes "1000000000000000000000"

unfoldable pub is_operator_registered : Bool
is_operator_registered = true

-- `AVS` and `Client` give the same answers: the text of the stake that the client answers is a number, the
-- stake of `AVS`; both take the operator for registered. And no quorum has less stake than its operator.
pub get_operator_stake-agrees :
    (quorum_number : ℕ)
    → (set_string get_operator_stake ≡ some Avs.get_operator_stake)
      × (is_operator_registered ≡ Avs.is_operator_registered)
      × (Avs.get_operator_stake ≤ℤ Avs.get_quorum_stake quorum_number)
unfolding set_string get_operator_stake is_operator_registered Avs.get_operator_stake
    Avs.is_operator_registered Avs.get_quorum_stake
get_operator_stake-agrees quorum_number = (refl, refl, omega arith)
