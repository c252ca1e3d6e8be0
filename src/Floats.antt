-- ===== src/Floats.antt =====
-- `float64`, which the kernel has no numbers for: the type and the operations that the program uses of
-- it. A NaN makes every comparison false, as IEEE 754 has it.
use sync_hook.Prelude.{ℕ, Bool, ℤ}

pub record Float64 : Type 1 where
  pub Float : Type 0
  -- the literal n / 10 ^ k
  pub literal : ℕ → ℕ → Float
  -- `float64(n)`
  pub of_int : ℤ → Float
  -- `int64(x)`, which rounds towards zero
  pub to_int : Float → ℤ
  pub mul : Float → Float → Float
  pub div : Float → Float → Float
  pub sub : Float → Float → Float
  pub neg : Float → Float
  -- `a < b`
  pub lt : Float → Float → Bool
