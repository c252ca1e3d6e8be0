-- ===== src/Words.antt =====
-- Machine integers: `uint64` subtraction, `Int64` of `math/big`, and `big.NewInt(n).Bytes()`.
use sync_hook.Prelude.{
  ℕ, zero, suc, ◌+◌, ◌-◌, ◌/◌, ◌%◌, List, [], ◌∷◌, if◌then◌else◌, nat_beq, ltb, ℤ, pos, negsuc,
}

abbrev pub u64_mod : ℕ
u64_mod = 0x1_0000_0000_0000_0000

unfoldable pub sub64 : ℕ → ℕ → ℕ
sub64 a b = (a + u64_mod - b) % u64_mod

-- The big-endian digits in base 256 that are put in front of `rest`; `fuel` is the number of digits left.
abbrev pub bytes_from : ℕ → ℕ → List ℕ → List ℕ
bytes_from zero n rest = rest
bytes_from (suc fuel) n rest =
    if nat_beq n 0 then rest else bytes_from fuel (n / 256) (n % 256 ∷ rest)

-- Eight digits hold an `int64`, the argument of `big.NewInt`.
unfoldable pub big_bytes : ℕ → List ℕ
big_bytes n = bytes_from 8 n []

-- The `int64` with the bit pattern of a `uint64`.
abbrev pub signed64 : ℕ → ℤ
signed64 n = if ltb n 0x8000_0000_0000_0000 then pos n else negsuc (u64_mod - 1 - n)

-- `Int64` takes the low 64 bits of the magnitude, and negates them if the number is negative.
unfoldable pub int64 : ℤ → ℤ
int64 (pos n) = signed64 (n % u64_mod)
int64 (negsuc n) = signed64 ((u64_mod - suc n % u64_mod) % u64_mod)
