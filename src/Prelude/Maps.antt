-- ===== src/Prelude/Maps.antt =====
-- A Go map as its list of entries, in the order in which a `range` loop meets them. Go leaves that
-- order open, so the list may be permuted freely; no key occurs twice (`IsMap`).
use mathlib.Core.Path.{◌≡◌, refl, ap}
use mathlib.Core.Logic.{inl, inr}
use mathlib.Core.Option
use mathlib.Core.Option.{Option, none, some}
use mathlib.Core.List.{List, [], ◌∷◌}
use native.Mathlib.Omega.{arith}
use sync_hook.Prelude.Lists.{All}
use sync_hook.Prelude.Tests.{Bool-cases, Eq, ◌==◌, if◌then◌else◌}

abbrev pub Map {ℓ κ} : Type ℓ → Type κ → Type (ℓ ⊔ κ)
Map K V = List (K × V)

-- The values, as a `range` loop that ignores the keys meets them.
abbrev pub values {ℓ κ} : {K : Type ℓ} {V : Type κ} → Map K V → List V
values [] = []
values ((k, v) ∷ m) = v ∷ values m

-- A `range` loop that writes through each value pointer.
abbrev pub map_values {ℓ κ μ} : {K : Type ℓ} {V : Type κ} {W : Type μ} → (V → W) → Map K V → Map K W
map_values f [] = []
map_values f ((k, v) ∷ m) = (k, f v) ∷ map_values f m

module _ {ℓ κ} {K : Type ℓ} {V : Type κ} ⦃e : Eq K⦄ where
  abbrev pub lookup : K → Map K V → Option V
  lookup k [] = none
  lookup k ((j, v) ∷ m) = if j == k then some v else lookup k m

  -- `m[k] = v`
  abbrev pub insert : K → V → Map K V → Map K V
  insert k v [] = (k, v) ∷ []
  insert k v ((j, w) ∷ m) = if j == k then (j, v) ∷ m else (j, w) ∷ insert k v m

  abbrev pub IsMap : Map K V → Type κ
  IsMap [] = Unit
  IsMap ((k, v) ∷ m) = (lookup k m ≡ none) × IsMap m

  pub lookup-insert :
      (k j : K) (v : V) (m : Map K V)
      → lookup j (insert k v m) ≡ (if k == j then some v else lookup j m)
  lookup-insert k j v [] = refl
  lookup-insert k j v ((i, w) ∷ m) =
      ground (arith, e.beq_iff k j, e.beq_iff i k, e.beq_iff i j, lookup-insert k j v m)

  pub lookup-insert_self : (k : K) (v : V) (m : Map K V) → lookup k (insert k v m) ≡ some v
  lookup-insert_self k v m = ground (arith, e.beq_iff k k, lookup-insert k k v m)

  pub insert-IsMap : (k : K) (v : V) (m : Map K V) → IsMap m → IsMap (insert k v m)
  insert-IsMap k v [] h = (refl, tt)
  insert-IsMap k v ((j, w) ∷ m) h =
      ground (arith, e.beq_iff j k, e.beq_iff k j, lookup-insert k j v m, insert-IsMap k v m h.1)

pub lookup-map_values {ℓ κ μ} :
    {K : Type ℓ} {V : Type κ} {W : Type μ} ⦃e : Eq K⦄ (f : V → W) (k : K) (m : Map K V) (v : V)
    → lookup k m ≡ some v
    → lookup k (map_values f m) ≡ some (f v)
lookup-map_values f k [] v h = cc
lookup-map_values f k ((j, w) ∷ m) v h = elim (Bool-cases (j == k)) [
  | inl same ↦ rw same (ap (λ o. Option.map f o) (rw same at h))
  | inr apart ↦ rw apart (lookup-map_values f k m v (rw apart at h))
]

pub All-map_values {ℓ κ μ} :
    {K : Type ℓ} {V : Type κ} (P : V → Type μ) (f : V → V)
    → ((v : V) → P v → P (f v))
    → (m : Map K V) → All P (values m)
    → All P (values (map_values f m))
All-map_values P f keep [] h = tt
All-map_values P f keep ((k, v) ∷ m) h = (keep v h.0, All-map_values P f keep m h.1)
