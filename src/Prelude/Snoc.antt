-- ===== src/Prelude/Snoc.antt =====
-- Lookup in a list behind which one element was appended.
use Prim.Native.Nat.{ℕ, zero, suc, ◌<◌}
use mathlib.Core.Path.{◌≡◌, refl, ap}
use mathlib.Core.Logic.{◌⊎◌, inl, inr}
use mathlib.Core.Option.{some}
use mathlib.Core.List.{List, [], ◌∷◌, ◌++◌}
use native.Mathlib.Omega.{arith}
use avalon_miner.Prelude.Lists.{length, get_elem?}

module _ {ℓ} {A : Type ℓ} where
  pub get_elem?-snoc_last : (xs : List A) (x : A) → get_elem? (xs ++ (x ∷ [])) (length xs) ≡ some x
  get_elem?-snoc_last [] x = refl
  get_elem?-snoc_last (y ∷ xs) x = get_elem?-snoc_last xs x

  pub get_elem?-snoc_left :
      (xs : List A) (x y : A) (i : ℕ)
      → get_elem? xs i ≡ some y
      → get_elem? (xs ++ (x ∷ [])) i ≡ some y
  get_elem?-snoc_left [] x y i h = cc
  get_elem?-snoc_left (z ∷ xs) x y zero h = h
  get_elem?-snoc_left (z ∷ xs) x y (suc i) h = get_elem?-snoc_left xs x y i h

  pub get_elem?-snoc_cases :
      (xs : List A) (x y : A) (i : ℕ)
      → get_elem? (xs ++ (x ∷ [])) i ≡ some y
      → (get_elem? xs i ≡ some y) ⊎ ((i ≡ length xs) × (x ≡ y))
  get_elem?-snoc_cases [] x y zero h = inr (refl, cc)
  get_elem?-snoc_cases [] x y (suc i) h = cc
  get_elem?-snoc_cases (z ∷ xs) x y zero h = inl h
  get_elem?-snoc_cases (z ∷ xs) x y (suc i) h = elim (get_elem?-snoc_cases xs x y i h) [
    | inl e ↦ inl e
    | inr e ↦ inr (ap suc e.0, e.1)
  ]

  pub get_elem?-bound : (xs : List A) (i : ℕ) (y : A) → get_elem? xs i ≡ some y → i < length xs
  get_elem?-bound [] i y h = cc
  get_elem?-bound (x ∷ xs) zero y h = omega arith
  get_elem?-bound (x ∷ xs) (suc i) y h = omega (arith, get_elem?-bound xs i y h)
