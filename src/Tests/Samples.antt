-- ===== src/Tests/Samples.antt =====
-- Numbers, signatures and pools to run the program on: `float64` with six decimals, and a signature scheme
-- whose signatures are 64 zeros and the key.
use sync_hook.Prelude.{
  ℕ, zero, suc, ◌*◌, ◌/◌, ◌^◌, ◌≡◌, ◌≢◌, List, [], ◌∷◌, Option, none, some, true, if◌then◌else◌,
  nat_beq, nat_eq, length, arith, ℤ, pos, ◌-ℤ◌, ◌*ℤ◌, quot_ℤ, ltb_ℤ, sub_ℕ, pos_part, neg_part,
}
use sync_hook.Floats.{Float64}
use sync_hook.Pool.{PoolState}
use sync_hook.Validator.Signing.{Crypto, Signatures65}

abbrev pub decimals : Float64
decimals = record {
  Float = ℤ;
  literal = λ n k. pos (n * 1_000_000 / 10 ^ k);
  of_int = λ z. z *ℤ pos 1_000_000;
  to_int = λ x. sub_ℕ (pos_part x / 1_000_000) (neg_part x / 1_000_000);
  mul = λ x y. quot_ℤ (x *ℤ y) (pos 1_000_000);
  div = λ x y. quot_ℤ (x *ℤ pos 1_000_000) y;
  sub = λ x y. x -ℤ y;
  neg = λ x. pos 0 -ℤ x;
  lt = λ x y. ltb_ℤ x y;
}

abbrev zeros : ℕ → List ℕ → List ℕ
zeros zero rest = rest
zeros (suc n) rest = 0 ∷ zeros n rest

abbrev last_byte : List ℕ → ℕ → ℕ
last_byte [] k = k
last_byte (b ∷ bs) k = last_byte bs b

abbrev recover : List ℕ → Option ℕ
recover sig = if nat_beq (length sig) 65 then some (last_byte sig 0) else none

abbrev pub signatures : Crypto
signatures = record {
  PrivateKey = ℕ;
  PublicKey = ℕ;
  Address = ℕ;
  Hash = List ℕ;
  address_eq = nat_eq;
  hash_bytes = λ h. h;
  sig_to_pub = λ m sig. recover sig;
  pubkey_to_address = λ k. k;
  compress_pubkey = λ k. k ∷ [];
  verify_signature = λ k m sig. true;
  sign = λ m k. some (zeros 64 (k ∷ []));
  sha256 = λ bs. bs;
}

pub recover-length : (sig : List ℕ) → length sig ≢ 65 → recover sig ≡ none
recover-length sig h = ground arith

pub length-signed : (k : ℕ) (sig : List ℕ) → some (zeros 64 (k ∷ [])) ≡ some sig → length sig ≡ 65
length-signed k sig e = ground arith

abbrev pub documented : Signatures65 signatures
documented = record {
  signs65 = λ m k sig e. length-signed k sig e;
  recovers65 = λ m sig h. recover-length sig h;
}

abbrev pub full_signature : ℕ → List ℕ
full_signature k = zeros 64 (k ∷ [])

abbrev pub short_signature : List ℕ
short_signature = zeros 64 []

abbrev pub report : ℕ → ℕ → ℕ → ℕ → PoolState
report chain liquidity price block = record {
  chain_id = chain;
  total_liquidity = pos liquidity;
  price = pos price;
  volume24h = pos 5;
  fees24h = pos 1;
  timestamp = 1000;
  block_number = block;
  last_updated = 0;
}
