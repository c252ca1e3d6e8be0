-- ===== src/Aggregator/Average.antt =====
-- The weighted average of AVS/pkg/state/aggregator.go, against bounds on the prices.
use native.Mathlib.Nat.{le-div_iff_mul-le, div-le_of_le-mul}
use sync_hook.Prelude.{
  ℕ, ◌+◌, ◌*◌, ◌/◌, ◌≤◌, ◌<◌, ◌≡◌, refl, ap, ap₂, ◌∙◌, List, [], ◌∷◌, All, none, some, false, ℤ,
  pos, negsuc, pos_part, ◌+ℤ◌, ◌*ℤ◌, ◌≤ℤ◌, quot_ℤ, quot_ℤ-pos, eq_ℤ, arith, +ℤ-pos, *ℤ-pos,
}
use sync_hook.Numeric.{accumulate, sum, accumulate-eq-sum}
use sync_hook.Pool.{PoolState, GlobalPoolState}
use sync_hook.Aggregator.{liquidity, weighted_price, calculate_weighted_average_price}
use sync_hook.Aggregator.Recalculation.{total, average}

-- A chain whose liquidity is not negative, and whose price lies between two bounds.
abbrev pub IsPriced : ℕ → ℕ → PoolState → Type 0
IsPriced lo hi s = (pos 0 ≤ℤ s.total_liquidity) × (pos lo ≤ℤ s.price) × (s.price ≤ℤ pos hi)

nonneg_is_pos : (a : ℤ) → pos 0 ≤ℤ a → a ≡ pos (pos_part a)
nonneg_is_pos (pos n) h = refl
nonneg_is_pos (negsuc n) h = absurd (omega arith)

le_hi : (hi : ℕ) (a : ℤ) → a ≤ℤ pos hi → pos_part a ≤ hi
le_hi hi (pos n) h = omega arith
le_hi hi (negsuc n) h = omega arith

weigh_lower : (lo p l t w : ℕ) → lo ≤ p → lo * t ≤ w → lo * (l + t) ≤ p * l + w
weigh_lower lo p l t w h k = grind arith

weigh_upper : (hi p l t w : ℕ) → p ≤ hi → w ≤ hi * t → p * l + w ≤ hi * (l + t)
weigh_upper hi p l t w h k = grind arith

quotient_between : (lo hi t w : ℕ) → 0 < t → lo * t ≤ w → w ≤ hi * t → (lo ≤ w / t) × (w / t ≤ hi)
quotient_between lo hi t w h below above =
    ((le-div_iff_mul-le h).1 below, div-le_of_le-mul t (omega arith))

-- The sums as numbers, with the bounds on the weighted one.
sums_between :
    (lo hi : ℕ) (ss : List PoolState)
    → All (IsPriced lo hi) ss
    → (t : ℕ) × (w : ℕ) × (sum liquidity ss ≡ pos t)
      × (sum weighted_price ss ≡ pos w)
      × (lo * t ≤ w)
      × (w ≤ hi * t)
sums_between lo hi [] h = (0, 0, refl, refl, omega arith, omega arith)
sums_between lo hi (s ∷ ss) h =
    let (t, w, et, ew, below, above) = sums_between lo hi ss h.1 in
    let l = pos_part s.total_liquidity in
    let p = pos_part s.price in
    let el = nonneg_is_pos s.total_liquidity h.0.0 in
    let ep = nonneg_is_pos s.price (omega arith) in
    (
      l + t,
      p * l + w,
      ap₂ ◌+ℤ◌ el et ∙ +ℤ-pos l t,
      ap₂ ◌+ℤ◌ (ap₂ ◌*ℤ◌ ep el ∙ *ℤ-pos p l) ew ∙ +ℤ-pos (p * l) w,
      weigh_lower lo p l t w (omega arith) below,
      weigh_upper hi p l t w (le_hi hi s.price h.0.2) above,
    )

-- When every chain has liquidity and a price within bounds, and there is liquidity at all, the weighted
-- average is computed with no error, and it is a price within the same bounds.
pub calculate_weighted_average_price_bounds :
    (lo hi : ℕ) (ss : List PoolState) (gs : GlobalPoolState)
    → All (IsPriced lo hi) ss
    → eq_ℤ (total ss) (pos 0) ≡ false
    → let (gs', e) = calculate_weighted_average_price ss gs in
      (e ≡ none) × ((x : ℕ) × (gs'.average_price ≡ some (pos x)) × (lo ≤ x) × (x ≤ hi))
unfolding calculate_weighted_average_price
calculate_weighted_average_price_bounds lo hi [] gs h weighted = cc
calculate_weighted_average_price_bounds lo hi (s ∷ ss) gs h weighted =
    let (t, w, et, ew, below, above) = sums_between lo hi (s ∷ ss) h in
    let total_pos : total (s ∷ ss) ≡ pos t =
      accumulate-eq-sum liquidity (pos 0) (s ∷ ss)
      ∙ ap (λ x. pos 0 +ℤ x) et
      ∙ +ℤ-pos 0 t
      ∙ ap pos (omega arith) in
    let weighted_pos : accumulate weighted_price (pos 0) (s ∷ ss) ≡ pos w =
      accumulate-eq-sum weighted_price (pos 0) (s ∷ ss)
      ∙ ap (λ x. pos 0 +ℤ x) ew
      ∙ +ℤ-pos 0 w
      ∙ ap pos (omega arith) in
    let (lower, upper) = quotient_between lo hi t w (ground arith) below above in
    let average_pos : average (s ∷ ss) ≡ pos (w / t) =
      ap₂ quot_ℤ weighted_pos total_pos ∙ quot_ℤ-pos w t in
    (ground arith, (w / t, ground arith, lower, upper))
