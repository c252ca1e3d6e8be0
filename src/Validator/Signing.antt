-- ===== src/Validator/Signing.antt =====
-- What AVS/pkg/state/validator.go calls of go-ethereum and of `crypto/sha256`. A byte slice is a list of
-- bytes, and a `common.Hash` is its own type.
use sync_hook.Prelude.{ℕ, ◌≡◌, ◌≢◌, List, Option, none, some, Bool, length, Eq}

pub record Crypto : Type 1 where
  pub PrivateKey : Type 0
  pub PublicKey : Type 0
  pub Address : Type 0
  pub Hash : Type 0
  -- `==` on addresses
  pub address_eq : Eq Address
  -- `Hash.Bytes`
  pub hash_bytes : Hash → List ℕ
  -- `crypto.SigToPub`; `none` is its error
  pub sig_to_pub : List ℕ → List ℕ → Option PublicKey
  pub pubkey_to_address : PublicKey → Address
  pub compress_pubkey : PublicKey → List ℕ
  -- `crypto.VerifySignature`
  pub verify_signature : List ℕ → List ℕ → List ℕ → Bool
  -- `crypto.Sign`; `none` is its error
  pub sign : List ℕ → PrivateKey → Option (List ℕ)
  -- `common.BytesToHash` of `sha256.Sum256`
  pub sha256 : List ℕ → Hash

-- What go-ethereum documents of signatures: they have 65 bytes, the last of which tells the public key.
-- `crypto.Sign` makes such, and `crypto.SigToPub` returns an error on any other length.
pub record Signatures65 (cr : Crypto) : Type 0 where
  pub signs65 :
      (m : List ℕ) (k : cr.PrivateKey) (sig : List ℕ) → cr.sign m k ≡ some sig → length sig ≡ 65
  pub recovers65 : (m sig : List ℕ) → length sig ≢ 65 → cr.sig_to_pub m sig ≡ none
