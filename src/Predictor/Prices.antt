-- ===== src/Predictor/Prices.antt =====
-- The results of `PredictPoolState` of AVS/pkg/state/predictor.go: their sign, and when there is one.
use sync_hook.Prelude.{
  ℕ, ◌≡◌, some, true, false, ℤ, pos, ◌≤ℤ◌, eq_ℤ, Returns, arith, inl, inr, Bool-cases,
}
use sync_hook.Floats.{Float64}
use sync_hook.Pool.{GlobalPoolState}
use sync_hook.Predictor.{
  Predicted, ok, failed, PredictionResult, no_current_price, no_current_liquidity, one_if_negative,
  predict_price, predict_liquidity, predict_pool_state,
}

one_if_negative_nonneg : (x : ℤ) → pos 0 ≤ℤ one_if_negative x
one_if_negative_nonneg x = ground arith

-- A prediction of a price and a liquidity that are not negative, or the error that a pool deserves.
abbrev pub IsPlausible : {F : Type 0} → ℤ → ℤ → Predicted (PredictionResult F) → Type 0
IsPlausible price liquidity (ok p) =
    (eq_ℤ price (pos 0) ≡ false)
    × (eq_ℤ liquidity (pos 0) ≡ false)
    × (pos 0 ≤ℤ p.predicted_price)
    × (pos 0 ≤ℤ p.predicted_liquidity)
IsPlausible price liquidity (failed no_current_price) = price ≡ pos 0
IsPlausible price liquidity (failed no_current_liquidity) =
    (eq_ℤ price (pos 0) ≡ false) × (liquidity ≡ pos 0)

zero_of_test : (a : ℤ) → eq_ℤ a (pos 0) ≡ true → a ≡ pos 0
zero_of_test a h = ground arith

module _ (fl : Float64) where
  -- Of a pool whose average price and total liquidity are known, a prediction never panics. It fails
  -- exactly when the price or the liquidity is zero, with the error for the price first; and the price and
  -- the liquidity that it predicts are never negative.
  pub predict_pool_state-IsPlausible :
      (now₁ now₂ horizon : ℕ) (gs : GlobalPoolState) (price liquidity : ℤ)
      → gs.average_price ≡ some price
      → gs.total_liquidity ≡ some liquidity
      → Returns (predict_pool_state fl now₁ now₂ gs horizon) (IsPlausible price liquidity)
  unfolding predict_pool_state predict_price predict_liquidity
  predict_pool_state-IsPlausible now₁ now₂ horizon gs price liquidity known held =
      elim (Bool-cases (eq_ℤ price (pos 0))) [
        | inl free ↦ rw (known, free) (zero_of_test price free)
        | inr priced ↦ elim (Bool-cases (eq_ℤ liquidity (pos 0))) [
          | inl dry ↦ rw (known, priced, held, dry) (priced, zero_of_test liquidity dry)
          | inr wet ↦
              rw (known, priced, held, wet, priced)
                (priced, wet, search one_if_negative_nonneg, search one_if_negative_nonneg)
        ]
      ]
