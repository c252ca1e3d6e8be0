-- ===== src/Numeric/Sums.antt =====
-- The accumulating loops, `for _, x := range xs { total.Add(total, f(x)) }`.
use sync_hook.Prelude.{◌≡◌, refl, ◌∙◌, List, [], ◌∷◌, map, ℤ, pos, ◌+ℤ◌, int_laws, +ℤ_assoc}

module _ {ℓ} {A : Type ℓ} where
  -- The loop, from the value that its accumulator has at the start.
  abbrev pub accumulate : (A → ℤ) → ℤ → List A → ℤ
  accumulate f acc [] = acc
  accumulate f acc (x ∷ xs) = accumulate f (acc +ℤ f x) xs

  -- Its sum as a plain recursion.
  abbrev pub sum : (A → ℤ) → List A → ℤ
  sum f [] = pos 0
  sum f (x ∷ xs) = f x +ℤ sum f xs

  pub accumulate-eq-sum :
      (f : A → ℤ) (acc : ℤ) (xs : List A) → accumulate f acc xs ≡ acc +ℤ sum f xs
  accumulate-eq-sum f acc [] = omega int_laws
  accumulate-eq-sum f acc (x ∷ xs) =
      accumulate-eq-sum f (acc +ℤ f x) xs ∙ +ℤ_assoc acc (f x) (sum f xs)

pub accumulate-map {ℓ κ} :
    {A : Type ℓ} {B : Type κ} (g : A → B) (f : B → ℤ) (acc : ℤ) (xs : List A)
    → accumulate f acc (map g xs) ≡ accumulate (λ x. f (g x)) acc xs
accumulate-map g f acc [] = refl
accumulate-map g f acc (x ∷ xs) = accumulate-map g f (acc +ℤ f (g x)) xs
