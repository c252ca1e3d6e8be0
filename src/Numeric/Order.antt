-- ===== src/Numeric/Order.antt =====
-- Accumulating loops over the permutations of a list, since Go leaves the order of a map open.
use mathlib.Core.List.{Permᴰ}
use sync_hook.Prelude.{suc, ◌≡◌, refl, ◌∙◌, ap, List, map, length, arith, ℤ, int_laws, Map, values}
use sync_hook.Numeric.Sums.{accumulate, sum, accumulate-eq-sum}

module _ {ℓ} {A : Type ℓ} where
  pub sum-permᴰ : (f : A → ℤ) {xs ys : List A} → Permᴰ xs ys → sum f xs ≡ sum f ys
  sum-permᴰ f Permᴰ.nil = refl
  sum-permᴰ f (Permᴰ.cons {l₁ = l} {l₂ = k} e p) = ground (arith, ap f e, sum-permᴰ f p)
  sum-permᴰ f (Permᴰ.swap {a} {b} {l} e d) = rw (e, d) (omega int_laws)
  sum-permᴰ f (Permᴰ.trans p q) = sum-permᴰ f p ∙ sum-permᴰ f q

  pub accumulate-permᴰ :
      (f : A → ℤ) (acc : ℤ) {xs ys : List A}
      → Permᴰ xs ys
      → accumulate f acc xs ≡ accumulate f acc ys
  accumulate-permᴰ f acc {xs} {ys} p =
      rw (accumulate-eq-sum f acc xs, accumulate-eq-sum f acc ys, sum-permᴰ f p)

  pub length-permᴰ : {xs ys : List A} → Permᴰ xs ys → length xs ≡ length ys
  length-permᴰ Permᴰ.nil = refl
  length-permᴰ (Permᴰ.cons e p) = ap suc (length-permᴰ p)
  length-permᴰ (Permᴰ.swap e d) = refl
  length-permᴰ (Permᴰ.trans p q) = length-permᴰ p ∙ length-permᴰ q

pub map-permᴰ {ℓ κ} :
    {A : Type ℓ} {B : Type κ} (f : A → B) {xs ys : List A}
    → Permᴰ xs ys
    → Permᴰ (map f xs) (map f ys)
map-permᴰ f Permᴰ.nil = Permᴰ.nil
map-permᴰ f (Permᴰ.cons e p) = Permᴰ.cons (ap f e) (map-permᴰ f p)
map-permᴰ f (Permᴰ.swap e d) = Permᴰ.swap (ap f e) (ap f d)
map-permᴰ f (Permᴰ.trans p q) = Permᴰ.trans (map-permᴰ f p) (map-permᴰ f q)

pub values-permᴰ {ℓ κ} :
    {K : Type ℓ} {V : Type κ} {m n : Map K V} → Permᴰ m n → Permᴰ (values m) (values n)
values-permᴰ Permᴰ.nil = Permᴰ.nil
values-permᴰ (Permᴰ.cons e p) = Permᴰ.cons (ap (λ e. e.1) e) (values-permᴰ p)
values-permᴰ (Permᴰ.swap e d) = Permᴰ.swap (ap (λ e. e.1) e) (ap (λ e. e.1) d)
values-permᴰ (Permᴰ.trans p q) = Permᴰ.trans (values-permᴰ p) (values-permᴰ q)
