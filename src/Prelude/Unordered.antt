-- ===== src/Prelude/Unordered.antt =====
-- Maps whose entries are listed in another order, as two `range` loops may meet them.
use mathlib.Core.Path.{◌≡◌, refl, subst, ◌∙◌, ap₂}
use mathlib.Core.Logic.{inl, inr}
use mathlib.Core.Bool.{true}
use mathlib.Core.List.{◌∷◌}
use mathlib.Core.List.Permᴰ
use mathlib.Core.List.{Permᴰ}
use native.Mathlib.Omega.{arith}
use sync_hook.Prelude.Tests.{Bool-cases, Eq, ◌==◌}
use sync_hook.Prelude.Maps.{Map, lookup, insert, IsMap}

module _ {ℓ κ} {K : Type ℓ} {V : Type κ} ⦃e : Eq K⦄ where
  lookup-swap :
      (a b : K × V) (m : Map K V)
      → IsMap (a ∷ b ∷ m)
      → (k : K) → lookup k (a ∷ b ∷ m) ≡ lookup k (b ∷ a ∷ m)
  lookup-swap a b m h k = ground (arith, e.beq_iff a.0 k, e.beq_iff b.0 k, e.beq_iff b.0 a.0)

  IsMap-swap : (a b : K × V) (m : Map K V) → IsMap (a ∷ b ∷ m) → IsMap (b ∷ a ∷ m)
  IsMap-swap a b m h = ground (arith, e.beq_iff a.0 b.0, e.beq_iff b.0 a.0)

  keys-differ :
      (a b : K × V) (m : Map K V) (k : K)
      → IsMap (a ∷ b ∷ m)
      → (a.0 == k) ≡ true
      → (b.0 == k) ≡ true
      → ⊥
  keys-differ a b m k h p q = ground (arith, e.beq_iff a.0 k, e.beq_iff b.0 k, e.beq_iff b.0 a.0)

  pub IsMap-permᴰ :
      {m n : Map K V} → Permᴰ m n → IsMap m → ((k : K) → lookup k m ≡ lookup k n) × IsMap n
  IsMap-permᴰ Permᴰ.nil h = (λ k. refl, h)
  IsMap-permᴰ (Permᴰ.cons {a} {b} d p) h =
      let (same, map_n) = IsMap-permᴰ p h.1 in
      (λ k. rw (d, same k), (rw (← d, ← same a.0) h.0, map_n))
  IsMap-permᴰ (Permᴰ.swap {a} {b} {a'} {b'} {l} d₁ d₂) h =
      let h' = subst IsMap (ap₂ (λ a b. a ∷ b ∷ l) d₁ d₂) h in
      rw (d₁, d₂) (lookup-swap b' a' l h', IsMap-swap b' a' l h')
  IsMap-permᴰ (Permᴰ.trans p q) h =
      let (same, map_n) = IsMap-permᴰ p h in
      let (same', map_o) = IsMap-permᴰ q map_n in (λ k. same k ∙ same' k, map_o)

  pub insert-permᴰ :
      (k : K) (v : V) {m n : Map K V} → Permᴰ m n → IsMap m → Permᴰ (insert k v m) (insert k v n)
  insert-permᴰ k v Permᴰ.nil h = Permᴰ.refl _
  insert-permᴰ k v (Permᴰ.cons {a} {b} d p) h = elim (Bool-cases (b.0 == k)) [
    | inl same ↦ rw (d, same) (Permᴰ.cons refl p)
    | inr apart ↦ rw (d, apart) (Permᴰ.cons refl (insert-permᴰ k v p h.1))
  ]
  insert-permᴰ k v (Permᴰ.swap {a} {b} {a'} {b'} {l} d₁ d₂) h = elim (Bool-cases (b'.0 == k)) [
    | inl first ↦ elim (Bool-cases (a'.0 == k)) [
      | inl second ↦
          absurd (keys-differ b' a' l k (subst IsMap (ap₂ (λ a b. a ∷ b ∷ l) d₁ d₂) h) first second)
      | inr second ↦ rw (d₁, d₂, first, second) (Permᴰ.swap refl refl)
    ]
    | inr first ↦ elim (Bool-cases (a'.0 == k)) [
      | inl second ↦ rw (d₁, d₂, first, second) (Permᴰ.swap refl refl)
      | inr second ↦ rw (d₁, d₂, first, second) (Permᴰ.swap refl refl)
    ]
  ]
  insert-permᴰ k v (Permᴰ.trans p q) h =
      Permᴰ.trans (insert-permᴰ k v p h) (insert-permᴰ k v q (IsMap-permᴰ p h).1)
