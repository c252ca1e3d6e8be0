-- ===== src/Bridge/Requests.antt =====
-- Which requests of AVS/pkg/across/client.go are accepted, and what they cost at least.
use sync_hook.Prelude.{
  ℕ, ◌<◌, ◌≡◌, ◌≢◌, ◌↔◌, none, false, ◌==◌, string_eq, ℤ, pos, negsuc, ◌+ℤ◌, quot_ℤ, ◌≤ℤ◌, ◌<ℤ◌,
  arith, int_laws, +ℤ_parts,
}
use sync_hook.Bridge.{
  RebalancingRequest, validate_rebalancing_request, base_cost, estimate_rebalancing_cost,
}

-- A request that can be carried out: it names two chains that differ, a token, a recipient and an amount,
-- and its deadline is still to come.
pub record IsComplete (now : ℕ) (r : RebalancingRequest) : Type 0 where
  pub named : (r.request_id == "") ≡ false
  pub from_chain : 0 < r.source_chain_id
  pub to_chain : 0 < r.target_chain_id
  pub chains_differ : r.source_chain_id ≢ r.target_chain_id
  pub token_known : 0 < r.token
  pub amount_positive : pos 0 <ℤ r.amount
  pub recipient_known : 0 < r.recipient
  pub in_time : now < r.deadline

-- A request is accepted exactly when it is complete.
pub validate_rebalancing_request-IsComplete :
    (now : ℕ) (r : RebalancingRequest)
    → (validate_rebalancing_request now r ≡ none) ↔ IsComplete now r
unfolding validate_rebalancing_request
validate_rebalancing_request-IsComplete now r = (
  λ h. record {
    named = ground arith;
    from_chain = ground arith;
    to_chain = ground arith;
    chains_differ = λ e. ground arith;
    token_known = ground arith;
    amount_positive = ground arith;
    recipient_known = ground arith;
    in_time = ground arith;
  },
  λ c. ground (
    arith, c.named, c.from_chain, c.to_chain, c.chains_differ, c.token_known, c.amount_positive,
    c.recipient_known, c.in_time,
  ),
)

cost_of_positive :
    (a : ℤ) → pos 0 <ℤ a → (pos 0 ≤ℤ quot_ℤ a (pos 1000)) × (quot_ℤ a (pos 1000) <ℤ a)
unfolding quot_ℤ
cost_of_positive (pos n) h = omega arith
cost_of_positive (negsuc n) h = absurd (omega arith)

-- The estimated cost of a request that is accepted is at least the base cost, and less than the base cost
-- and the amount together.
pub estimate_rebalancing_cost_bounds :
    (now : ℕ) (r : RebalancingRequest)
    → validate_rebalancing_request now r ≡ none
    → (base_cost ≤ℤ estimate_rebalancing_cost r)
      × (estimate_rebalancing_cost r <ℤ base_cost +ℤ r.amount)
unfolding estimate_rebalancing_cost
estimate_rebalancing_cost_bounds now r accepted =
    let complete = (validate_rebalancing_request-IsComplete now r).0 accepted in
    let (low, high) = cost_of_positive r.amount complete.amount_positive in
    (
      omega (int_laws, low, +ℤ_parts base_cost (quot_ℤ r.amount (pos 1000))),
      omega (
        int_laws,
        high,
        +ℤ_parts base_cost (quot_ℤ r.amount (pos 1000)),
        +ℤ_parts base_cost r.amount,
      ),
    )
