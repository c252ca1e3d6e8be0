-- ===== src/Numeric/Root.antt =====
-- The loop of `sqrt`: a binary search between `left` and `right` that keeps the best root in `result`.
use mathlib.Core.WellFounded.{Acc, WellFounded}
use mathlib.Core.Logic.{dite, dif_pos, dif_neg}
use native.Mathlib.Decide.{dec_le}
use native.Mathlib.Bridge.{le_prop}
use sync_hook.Prelude.{
  ℕ, zero, suc, ◌+◌, ◌-◌, ◌*◌, ◌≤◌, ◌<◌, ◌≡◌, refl, true, false, arith, ℤ, pos, negsuc, pos_part,
  neg_part, ◌+ℤ◌, ◌-ℤ◌, ◌*ℤ◌, ◌≤ℤ◌, quot_ℤ, leb_ℤ, eq_of_parts, +ℤ_parts, -ℤ_parts, Bool-cases, inl,
  inr,
}

pub record Search : Type 0 where
  pub left : ℤ
  pub right : ℤ
  pub result : ℤ

-- How many integers lie between `left` and `right`.
abbrev width : Search → ℕ
width s = pos_part s.right + neg_part s.left + 1 - (pos_part s.left + neg_part s.right)

infix 50 ◌⊏◌
abbrev pub ◌⊏◌ : Search → Search → Type 0
s ⊏ t = width s < width t

acc_below : (k : ℕ) (s : Search) → width s < k → Acc ◌⊏◌ s
acc_below zero s h = absurd (omega arith)
acc_below (suc k) s h = Acc.intro s (λ t inside. acc_below k t (omega arith))

unfoldable pub ⊏_wf : WellFounded ◌⊏◌
unfolding acc_below
⊏_wf = record { apply = λ s. acc_below (suc (width s)) s (omega arith) }

-- `mid.Add(left, right)`, `mid.Div(mid, 2)`
unfoldable pub mid : Search → ℤ
mid s = quot_ℤ (s.left +ℤ s.right) (pos 2)

-- `result.Set(mid)`, `left.Add(mid, 1)`
abbrev pub upper : Search → Search
upper s = record s { result = mid s; left = mid s +ℤ pos 1 }

-- `right.Sub(mid, 1)`
abbrev pub lower : Search → Search
lower s = record s { right = mid s -ℤ pos 1 }

half_parts :
    (a : ℤ)
    → (2 * pos_part (quot_ℤ a (pos 2)) + neg_part a ≤ pos_part a + 2 * neg_part (quot_ℤ a (pos 2)))
      × (pos_part a + 2 * neg_part (quot_ℤ a (pos 2))
          ≤ 2 * pos_part (quot_ℤ a (pos 2)) + neg_part a + 1)
unfolding quot_ℤ
half_parts (pos n) = omega arith
half_parts (negsuc n) = omega arith

pub upper-⊏ : (s : Search) → s.left ≤ℤ s.right → upper s ⊏ s
unfolding mid
upper-⊏ s h =
    omega (arith, half_parts (s.left +ℤ s.right), +ℤ_parts s.left s.right, +ℤ_parts (mid s) (pos 1))

pub lower-⊏ : (s : Search) → s.left ≤ℤ s.right → lower s ⊏ s
unfolding mid
lower-⊏ s h =
    omega (arith, half_parts (s.left +ℤ s.right), +ℤ_parts s.left s.right, -ℤ_parts (mid s) (pos 1))

-- `for left.Cmp(right) <= 0 { … }`
unfoldable pub sqrt_loop : ℤ → (s : Search) → Acc ◌⊏◌ s → ℤ
sqrt_loop n s (Acc.intro _ inner) =
    dite (dec_le (pos_part s.left + neg_part s.right) (pos_part s.right + neg_part s.left))
      (λ h. elim (leb_ℤ (mid s *ℤ mid s) n) [
        | true ↦ sqrt_loop n (upper s) (inner _ (upper-⊏ s h))
        | false ↦ sqrt_loop n (lower s) (inner _ (lower-⊏ s h))
      ])
      (λ _. s.result)

-- The loop from the values that `sqrt` gives its variables.
unfoldable pub root_search : ℤ → ℤ
unfolding sqrt_loop mid ⊏_wf
root_search n = sqrt_loop n (record { left = pos 0; right = n; result = pos 0 }) (⊏_wf.apply _)

-- The loop's invariant at a number `k`: the result is not above the root, and `right` is not below it.
record Inv (k : ℕ) (s : Search) : Type 0 where
  left_nonneg : neg_part s.left ≡ 0
  result_nonneg : neg_part s.result ≡ 0
  right_nonneg : neg_part s.right ≤ 1
  result_below : pos_part s.result * pos_part s.result ≤ k
  left_next : pos_part s.left ≤ pos_part s.result + 1
  right_above :
      k < (pos_part s.right + 1 - neg_part s.right) * (pos_part s.right + 1 - neg_part s.right)

square_parts :
    (a : ℤ)
    → neg_part a ≡ 0
    → (pos_part (a *ℤ a) ≡ pos_part a * pos_part a) × (neg_part (a *ℤ a) ≡ 0)
unfolding ◌*ℤ◌
square_parts (pos n) h = ground arith
square_parts (negsuc n) h = ground arith

-- An integer has one sign.
one_part : (a : ℤ) → neg_part a ≤ pos_part a → neg_part a ≡ 0
one_part (pos n) h = refl
one_part (negsuc n) h = omega arith

module _ (k : ℕ) (s : Search) (inv : Inv k s) (h : s.left ≤ℤ s.right) where
  mid_nonneg : neg_part (mid s) ≡ 0
  unfolding mid
  mid_nonneg = omega (
    arith,
    one_part (mid s),
    half_parts (s.left +ℤ s.right),
    +ℤ_parts s.left s.right,
    one_part s.right,
  )

  upper-Inv : leb_ℤ (mid s *ℤ mid s) (pos k) ≡ true → Inv k (upper s)
  upper-Inv e =
      ground (
        arith,
        mid_nonneg,
        square_parts (mid s),
        +ℤ_parts (mid s) (pos 1),
        one_part (mid s +ℤ pos 1),
      )

  lower-Inv : leb_ℤ (mid s *ℤ mid s) (pos k) ≡ false → Inv k (lower s)
  lower-Inv e = grind (
    arith,
    mid_nonneg,
    square_parts (mid s),
    -ℤ_parts (mid s) (pos 1),
    one_part (mid s -ℤ pos 1),
    one_part (pos 1 -ℤ mid s),
  )

-- `r` is the integer square root of `k`.
abbrev pub IsRoot : ℕ → ℤ → Type 0
IsRoot k r = (x : ℕ) × (r ≡ pos x) × (x * x ≤ k) × (k < suc x * suc x)

square_mono : (a b : ℕ) → a ≤ b → a * a ≤ b * b
square_mono a b h = grind arith

exit-IsRoot : (k : ℕ) (s : Search) → Inv k s → ¬ (s.left ≤ℤ s.right) → IsRoot k s.result
exit-IsRoot k s inv h =
    let root : pos_part s.right + 1 - neg_part s.right ≤ suc (pos_part s.result) =
      omega (arith, one_part s.right) in
    (
      pos_part s.result,
      eq_of_parts _ _ (omega arith),
      inv.result_below,
      omega (arith, square_mono _ _ root),
    )

sqrt_loop-IsRoot : (k : ℕ) (s : Search) (w : Acc ◌⊏◌ s) → Inv k s → IsRoot k (sqrt_loop (pos k) s w)
unfolding sqrt_loop
sqrt_loop-IsRoot k s (Acc.intro _ inner) inv =
    elim (dec_le (pos_part s.left + neg_part s.right) (pos_part s.right + neg_part s.left)) [
      | no stop ↦
          rw
            (dif_neg
              (dec_le (pos_part s.left + neg_part s.right) (pos_part s.right + neg_part s.left))
              stop)
            (exit-IsRoot k s inv stop)
      | yes h ↦
          rw
            (dif_pos
              (dec_le (pos_part s.left + neg_part s.right) (pos_part s.right + neg_part s.left))
              le_prop h)
            (elim (Bool-cases (leb_ℤ (mid s *ℤ mid s) (pos k))) [
              | inl low ↦
                  rw low
                    (sqrt_loop-IsRoot k (upper s) (inner _ (upper-⊏ s h)) (upper-Inv k s inv h low))
              | inr high ↦
                  rw high (
                    sqrt_loop-IsRoot k (lower s) (inner _ (lower-⊏ s h)) (lower-Inv k s inv h high))
            ])
    ]

-- The search ends at the square root rounded down.
pub root_search-IsRoot : (k : ℕ) → IsRoot k (root_search (pos k))
unfolding root_search
root_search-IsRoot k =
    sqrt_loop-IsRoot k (record { left = pos 0; right = pos k; result = pos 0 }) (⊏_wf.apply _)
      (grind arith)
