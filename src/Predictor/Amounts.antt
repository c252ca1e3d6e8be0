-- ===== src/Predictor/Amounts.antt =====
-- The rebalancing of AVS/pkg/state/predictor.go: its imbalance, and the bounds on the amount to move.
use sync_hook.Prelude.{
  String, ◌∷◌, ◌+◌, ◌>>=◌, Map, Option-cases, inl, inr, if◌then◌else◌, ℕ, ◌≡◌, some, ℤ, pos, ◌≤ℤ◌,
  quot_ℤ, ltb_ℤ, Returns, arith,
}
use sync_hook.Floats.{Float64}
use sync_hook.Pool
use sync_hook.Service.Pools
use sync_hook.Service.Aging.{plain}
use sync_hook.Predictor.{one_token, calculate_rebalancing_amount, predict_rebalancing_need}

-- Of a pool whose total liquidity is known, the amount to move is never more than a tenth of it. It is that
-- tenth where the tenth is less than one token, and one token at least where it is not.
pub calculate_rebalancing_amount_bounds :
    (gs : Pool.GlobalPoolState) (imbalance total : ℤ)
    → gs.total_liquidity ≡ some total
    → Returns (calculate_rebalancing_amount gs imbalance) (λ x.
      (x ≤ℤ quot_ℤ total (pos 10))
      × (if ltb_ℤ (quot_ℤ total (pos 10)) one_token
          then x ≡ quot_ℤ total (pos 10)
          else one_token ≤ℤ x))
unfolding calculate_rebalancing_amount
calculate_rebalancing_amount_bounds gs imbalance total known = rw known (ground arith, ground arith)

-- The service counts a pool among those that need rebalancing exactly when the predictor says that it does,
-- and the two panic together; then the service goes on with the other pools.
pub check_rebalancing_needs-predict_rebalancing_need :
    (fl : Float64) (threshold : fl.Float) (pool : String) (gs : Pools.GlobalPoolState)
    (m : Map String Pools.GlobalPoolState) (ops : ℕ)
    → Pools.check_rebalancing_needs fl threshold ((pool, gs) ∷ m) ops ≡ (
        predict_rebalancing_need fl (plain gs) threshold >>= λ (need, amount).
        Pools.check_rebalancing_needs fl threshold m (if need then ops + 1 else ops))
unfolding Pools.check_rebalancing_needs predict_rebalancing_need
check_rebalancing_needs-predict_rebalancing_need fl threshold pool gs m ops =
    elim (Option-cases gs.total_liquidity) [
      | inl nil ↦ ground arith
      | inr (total, known) ↦ ground arith
    ]
