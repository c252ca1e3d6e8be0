-- ===== src/Numeric.antt =====
-- The loops over `*big.Int` that AVS/pkg/state and AVS/aggregator repeat: accumulating sums, and the
-- binary search for a square root.
mod Sums
pub mod Order
mod Root
pub use Sums.*
unfoldable pub use Root.*
