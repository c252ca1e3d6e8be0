-- ===== src/Validator/Signatures.antt =====
-- The signatures of AVS/pkg/state/validator.go: what is accepted, what `SignMessage` makes, and which
-- responses share a hash.
use sync_hook.Prelude.{
  ℕ, zero, suc, ◌≤◌, ◌<◌, ◌≡◌, ◌≢◌, refl, ap, List, [], ◌∷◌, ◌++◌, some, true, false, length, take,
  returns, panics, Returns, arith, Option-cases, inl, inr,
}
use sync_hook.Words.{big_bytes}
use sync_hook.Floats.{Float64}
use sync_hook.Validator.{
  ValidationResult, recovery_failed, sign_message, validate_operator_signature,
  validate_task_response, create_task_response_hash,
}
use sync_hook.Validator.Signing.{Crypto, Signatures65}

length-take : {A : Type 0} (n : ℕ) (xs : List A) → n ≤ length xs → length (take n xs) ≡ n
length-take zero xs h = refl
length-take (suc n) [] h = absurd (omega arith)
length-take (suc n) (x ∷ xs) h = ap suc (length-take n xs (omega arith))

length_pos : (xs : List ℕ) → xs ≢ [] → 0 < length xs
length_pos [] h = absurd (h refl)
length_pos (x ∷ xs) h = omega arith

length-append-ne : (xs ys : List ℕ) → ys ≢ [] → 0 < length (xs ++ ys)
length-append-ne [] ys h = length_pos ys h
length-append-ne (x ∷ xs) ys h = omega arith

module _ (fl : Float64) (cr : Crypto) where
  open cr use {
    PrivateKey, PublicKey, Address, address_eq, Hash, hash_bytes, sig_to_pub, pubkey_to_address,
    compress_pubkey, verify_signature, sign, sha256,
  }

  -- What `SignMessage` returns has 64 bytes.
  sign_message-length :
      (laws : Signatures65 cr) (key : PrivateKey) (h : Hash) (sig : List ℕ)
      → sign_message fl cr key h ≡ returns (some sig)
      → length sig ≡ 64
  unfolding sign_message
  sign_message-length laws key h sig e = elim (Option-cases (sign (hash_bytes h) key)) [
    | inl failed ↦ ground arith
    | inr (full, made) ↦
        ground (arith, laws.signs65 (hash_bytes h) key full made, length-take 64 full)
  ]

  -- No signature that `SignMessage` makes is ever accepted: it has lost the recovery byte that
  -- `ValidateOperatorSignature` needs, so every operator's validation ends with a failed recovery.
  pub sign_message-validate_operator_signature :
      (laws : Signatures65 cr) (now : ℕ) (operator : Address) (key : PrivateKey) (h : Hash)
      (sig : List ℕ)
      → sign_message fl cr key h ≡ returns (some sig)
      → Returns
          (validate_operator_signature fl cr now operator h sig)
          (λ r. (r.is_valid ≡ false) × (r.reason ≡ recovery_failed))
  unfolding validate_operator_signature
  sign_message-validate_operator_signature laws now operator key h sig e =
      let short = sign_message-length laws key h sig e in
      rw (laws.recovers65 (hash_bytes h) sig (λ long. omega arith), validate_operator_signature)
        (refl, refl)

  -- What is accepted as an operator's response to a task: the signature recovers a key of the operator's
  -- address, it verifies under that key, and the response is not empty.
  pub validate_task_response_sound :
      (now₀ now₁ index : ℕ) (response sig : List ℕ) (operator : Address)
      (r : ValidationResult fl.Float)
      → validate_task_response fl cr now₀ now₁ index response sig operator ≡ returns r
      → r.is_valid ≡ true
      → (key : PublicKey) × (sig_to_pub
            (hash_bytes (create_task_response_hash fl cr index response))
            sig
          ≡ some key)
        × (address_eq.beq (pubkey_to_address key) operator ≡ true)
        × (verify_signature
              (compress_pubkey key)
              (hash_bytes (create_task_response_hash fl cr index response))
              (take 64 sig)
            ≡ true)
        × (response ≢ [])
  unfolding validate_task_response
  validate_task_response_sound now₀ now₁ index response sig operator r call valid =
      elim (Option-cases
        (sig_to_pub (hash_bytes (create_task_response_hash fl cr index response)) sig)) [
          | inl failed ↦ ground arith
          | inr (key, found) ↦ ground arith
        ]

  -- Validation of a task response never panics on signatures as go-ethereum documents them.
  pub validate_task_response-total :
      (laws : Signatures65 cr) (now₀ now₁ index : ℕ) (response sig : List ℕ) (operator : Address)
      → validate_task_response fl cr now₀ now₁ index response sig operator ≢ panics
  unfolding validate_task_response
  validate_task_response-total laws now₀ now₁ index response sig operator stuck =
      ground
        (arith, laws.recovers65 (hash_bytes (create_task_response_hash fl cr index response)) sig)

  -- The hash does not separate the task's index from its response: the response of any task hashes like
  -- a response of task 0 that begins with the bytes of the index.
  pub create_task_response_hash-index :
      (index : ℕ) (response : List ℕ)
      → create_task_response_hash fl cr index response
        ≡ create_task_response_hash fl cr 0 (big_bytes index ++ response)
  unfolding create_task_response_hash
  create_task_response_hash-index index response = refl

  -- So a signature that is accepted for one task is accepted for task 0 with another response.
  pub validate_task_response-replay :
      (now₀ now₁ index : ℕ) (response sig : List ℕ) (operator : Address)
      → response ≢ []
      → validate_task_response fl cr now₀ now₁ 0 (big_bytes index ++ response) sig operator
        ≡ validate_task_response fl cr now₀ now₁ index response sig operator
  unfolding validate_task_response
  validate_task_response-replay now₀ now₁ index response sig operator some_response = ground (
    arith,
    create_task_response_hash-index index response,
    length-append-ne (big_bytes index) response some_response,
    length_pos response some_response,
  )
