-- ===== src/Decimal.antt =====
-- Decimal texts of `*big.Int`: `String` and `SetString` of math/big in base 10, and
-- AVS/pkg/utils/bigint.go. A text that is parsed is the list of its bytes.
use Prim.Native.Char.{code}
use Prim.Native.String.{String}
use sync_hook.Prelude.{
  ℕ, zero, suc, ◌+◌, ◌-◌, ◌*◌, ◌/◌, ◌%◌, List, [], ◌∷◌, Option, none, some, Bool, ◌&&◌,
  if◌then◌else◌, ltb, leb, nat_beq, ℤ, pos, negsuc, sub_ℕ, Run, deref,
}

-- The bytes of an ASCII text.
abbrev pub bytes : String → List ℕ
bytes String.[] = []
bytes (String.◌∷◌ c s) = code c ∷ bytes s

abbrev pub is_digit : ℕ → Bool
is_digit c = leb 48 c && leb c 57

-- The digits that follow those whose value is `acc`; every byte must be one.
unfoldable pub read_digits : ℕ → List ℕ → Option ℕ
read_digits acc [] = some acc
read_digits acc (c ∷ cs) =
    let rest = read_digits (acc * 10 + (c - 48)) cs in if is_digit c then rest else none

-- One digit at least.
unfoldable pub read_number : List ℕ → Option ℕ
unfolding read_digits
read_number [] = none
read_number (c ∷ cs) = read_digits 0 (c ∷ cs)

abbrev pub negate : Option ℕ → Option ℤ
negate none = none
negate (some n) = some (sub_ℕ 0 n)

abbrev pub as_pos : Option ℕ → Option ℤ
as_pos none = none
as_pos (some n) = some (pos n)

-- `SetString(s, 10)`: a sign, or none, and digits; `none` is a failure.
unfoldable pub set_string : List ℕ → Option ℤ
unfolding read_number
set_string [] = none
set_string (c ∷ cs) =
    if nat_beq c b'-'
    then negate (read_number cs)
    else if nat_beq c b'+'
    then as_pos (read_number cs)
    else as_pos (read_number (c ∷ cs))

-- The digits of `n` in front of `rest`. A number has no more digits than `suc n`.
unfoldable pub digits : ℕ → ℕ → List ℕ → List ℕ
digits zero n rest = rest
digits (suc fuel) n rest =
    let d = 48 + n % 10 in
    let more = digits fuel (n / 10) (d ∷ rest) in if ltb n 10 then d ∷ rest else more

unfoldable pub print_number : ℕ → List ℕ
unfolding digits
print_number n = digits (suc n) n []

-- `String`
unfoldable pub to_string : ℤ → List ℕ
unfolding print_number
to_string (pos n) = print_number n
to_string (negsuc n) = b'-' ∷ print_number (suc n)

unfoldable pub must_set_string : List ℕ → Run ℤ
unfolding set_string
must_set_string s = deref (set_string s)
