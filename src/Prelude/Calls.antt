-- ===== src/Prelude/Calls.antt =====
-- What a Go call does: it returns a value, or it panics (a nil `*big.Int` is read, or a number is
-- divided by zero). An `error` result is a value, so it stands inside what is returned.
use mathlib.Core.Path.{◌≡◌, refl}
use mathlib.Core.Logic.{◌⊎◌, inl, inr}
use mathlib.Core.Option.{Option, none, some}
use native.Mathlib.Omega.{arith}

pub data Run {ℓ} (A : Type ℓ) : Type ℓ where
  returns : A → Run A
  panics : Run A

infixl 5 ◌>>=◌ ◌>>◌
abbrev pub ◌>>=◌ {ℓ κ} : {A : Type ℓ} {B : Type κ} → Run A → (A → Run B) → Run B
returns a >>= f = f a
panics >>= f = panics

abbrev pub ◌>>◌ {ℓ κ} : {A : Type ℓ} {B : Type κ} → Run A → Run B → Run B
m >> k = m >>= λ _. k

-- Reading through a pointer that may be nil.
abbrev pub deref {ℓ} : {A : Type ℓ} → Option A → Run A
deref none = panics
deref (some a) = returns a

-- The call returns, with a value that satisfies `P`.
abbrev pub Returns {ℓ} : {A : Type ℓ} → Run A → (A → Type 0) → Type 0
Returns (returns a) P = P a
Returns panics P = ⊥

pub returns-injective {ℓ} : {A : Type ℓ} (x y : A) → returns x ≡ returns y → x ≡ y
returns-injective x y p = ground arith

-- A chain of calls returns only if each of them does.
pub >>=-returns {ℓ κ} :
    {A : Type ℓ} {B : Type κ} (m : Run A) (f : A → Run B) {b : B}
    → (m >>= f) ≡ returns b
    → (a : A) × (m ≡ returns a) × (f a ≡ returns b)
>>=-returns (returns a) f h = (a, refl, h)
>>=-returns panics f h = cc

pub Returns-mono {ℓ} :
    {A : Type ℓ} (P Q : A → Type 0) (m : Run A) → ((a : A) → P a → Q a) → Returns m P → Returns m Q
Returns-mono P Q (returns a) h p = h a p
Returns-mono P Q panics h p = p

pub Returns->>= {ℓ κ} :
    {A : Type ℓ} {B : Type κ} (P : A → Type 0) (Q : B → Type 0) (m : Run A) (f : A → Run B)
    → Returns m P
    → ((a : A) → P a → Returns (f a) Q)
    → Returns (m >>= f) Q
Returns->>= P Q (returns a) f p h = h a p
Returns->>= P Q panics f p h = p

pub Returns-inversion {ℓ} :
    {A : Type ℓ} (P : A → Type 0) (m : Run A) → Returns m P → (a : A) × (m ≡ returns a) × P a
Returns-inversion P (returns a) h = (a, refl, h)
Returns-inversion P panics h = absurd h

pub Run-cases {ℓ} : {A : Type ℓ} (m : Run A) → (m ≡ panics) ⊎ ((a : A) × (m ≡ returns a))
Run-cases (returns a) = inr (a, refl)
Run-cases panics = inl refl
