-- ===== src/Aggregator/Roots.antt =====
-- `sqrt` of AVS/pkg/state/aggregator.go, and its copies in predictor.go and in
-- AVS/aggregator/aggregator.go.
use sync_hook.Prelude.{◌≡◌, refl, ℤ, pos, negsuc, pos_part, leb_ℤ, Bool-cases, inl, inr, arith}
use sync_hook.Numeric.{IsRoot, root_search-IsRoot}
use sync_hook.Aggregator.{sqrt}
use sync_hook.Service.Pools
use sync_hook.Predictor

-- `sqrt` ends on every integer, with the square root rounded down of a number, and with 0 below zero; and
-- so do the two copies of it.
pub sqrt-IsRoot :
    (n : ℤ) → IsRoot (pos_part n) (sqrt n) × (Pools.sqrt n ≡ sqrt n) × (Predictor.sqrt n ≡ sqrt n)
unfolding sqrt Pools.sqrt Predictor.sqrt
sqrt-IsRoot n = (root n, refl, refl)
  where
    root : (n : ℤ) → IsRoot (pos_part n) (sqrt n)
    root (negsuc n) = (0, ground arith, omega arith, omega arith)
    root (pos n) = elim (Bool-cases (leb_ℤ (pos n) (pos 0))) [
      | inl low ↦ rw low (0, refl, omega arith, ground arith)
      | inr high ↦ rw high (root_search-IsRoot n)
    ]
